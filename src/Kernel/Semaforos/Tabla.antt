-- ===== src/Kernel/Semaforos/Tabla.antt =====
-- The list of semaphores of kernel/src/kernel.c as a table from names to values.
use Prim.Native.String.{String}
use text.Mathlib.Text.{◌==◌ as str_eq}
use text.Mathlib.TextEquality.{eq_iff}
use text.Mathlib.TextPositions.{eq_refl}
use exitos_con_esto.Prelude.{
  ℕ, zero, suc, ◌≡◌, refl, sym, ◌∙◌, inl, inr, true, false, List, [], ◌∷◌, ◌++◌, Option, none, some,
  if◌then◌else◌, ℤ, pos, negsuc, inc_ℤ, dec_ℤ, ltb_ℤ, get_elem?, set, Bool-cases,
}
use exitos_con_esto.Kernel.Estado.{SemKernel}
use exitos_con_esto.Kernel.Semaforos.{
  crear_semaforo_kernel, restar_en, restar_sem, sumar_en, sumar_sem, verificar_desde,
  verificar_existe_sem,
}

-- The value that a name has.
abbrev pub valor_de : List SemKernel → String → Option ℤ
valor_de [] nombre = none
valor_de (sem ∷ sems) nombre =
    if str_eq sem.nombre nombre then some sem.valor else valor_de sems nombre

-- A table with one value changed.
abbrev pub cambiado : (String → Option ℤ) → String → Option ℤ → String → Option ℤ
cambiado t nombre v otro = if str_eq nombre otro then v else t otro

-- What verificarExisteSem finds.
pub data Hallado (sems : List SemKernel) (nombre : String) : Type 0 where
  falta :
      verificar_existe_sem sems nombre ≡ none → valor_de sems nombre ≡ none → Hallado sems nombre
  esta :
      (i : ℕ) (sem : SemKernel)
      → verificar_existe_sem sems nombre ≡ some i
      → get_elem? sems i ≡ some sem
      → valor_de sems nombre ≡ some sem.valor
      → ((v : ℤ) (otro : String)
          → valor_de (set sems i (record sem { valor = v })) otro
            ≡ cambiado (valor_de sems) nombre (some v) otro)
      → Hallado sems nombre

verificar_desde-suc :
    (i : ℕ) (sems : List SemKernel) (nombre : String)
    → verificar_desde (suc i) sems nombre
      ≡ (elim (verificar_desde i sems nombre) [ none ↦ none | some j ↦ some (suc j) ])
unfolding verificar_desde
verificar_desde-suc i [] nombre = refl
verificar_desde-suc i (sem ∷ sems) nombre = elim (Bool-cases (str_eq sem.nombre nombre)) [
  | inl s ↦ rw s refl
  | inr n ↦ rw n (verificar_desde-suc (suc i) sems nombre)
]

cambiado-aqui :
    (sem : SemKernel) (sems : List SemKernel) (v : ℤ) (otro : String)
    → valor_de (record sem { valor = v } ∷ sems) otro
      ≡ cambiado (valor_de (sem ∷ sems)) sem.nombre (some v) otro
cambiado-aqui sem sems v otro = elim (Bool-cases (str_eq sem.nombre otro)) [
  | inl s ↦ rw s refl
  | inr n ↦ rw n refl
]

cambiado-luego :
    (sem : SemKernel) (sems : List SemKernel) (nombre otro : String) (v : ℤ)
    → str_eq sem.nombre nombre ≡ false
    → (if str_eq sem.nombre otro
        then some sem.valor
        else cambiado (valor_de sems) nombre (some v) otro)
      ≡ cambiado (valor_de (sem ∷ sems)) nombre (some v) otro
cambiado-luego sem sems nombre otro v n = elim (Bool-cases (str_eq nombre otro)) [
  | inl s ↦
      let q : nombre ≡ otro = (eq_iff nombre otro).0 s in
      let n' : str_eq sem.nombre otro ≡ false = rw q at n in rw (s, n') refl
  | inr m ↦ rw m refl
]

pub hallar : (sems : List SemKernel) (nombre : String) → Hallado sems nombre
unfolding verificar_existe_sem verificar_desde
hallar [] nombre = falta refl refl
hallar (sem ∷ sems) nombre = elim (Bool-cases (str_eq sem.nombre nombre)) [
  | inl s ↦
      let q : sem.nombre ≡ nombre = (eq_iff sem.nombre nombre).0 s in
      esta 0 sem (rw s refl) refl (rw s refl) (λ v otro. rw (sym q) (cambiado-aqui sem sems v otro))
  | inr n ↦ elim (hallar sems nombre) [
    | falta f g ↦
        let f' : verificar_desde 0 sems nombre ≡ none = f in
        falta (rw n (verificar_desde-suc 0 sems nombre ∙ rw f' refl)) (rw n g)
    | esta i x f g h k ↦
        let f' : verificar_desde 0 sems nombre ≡ some i = f in
        esta (suc i) x (rw n (verificar_desde-suc 0 sems nombre ∙ rw f' refl)) g (rw n h)
          (λ v otro. rw (k v otro) (cambiado-luego sem sems nombre otro v n))
  ]
]

abbrev pub incrementado : Option ℤ → Option ℤ
incrementado none = none
incrementado (some v) = some (inc_ℤ v)

-- After sumarSem the value of the name, if it has one, is one higher, and every other name has the
-- value it had.
pub sumar_sem-valor :
    (sems : List SemKernel) (nombre otro : String)
    → valor_de (sumar_sem sems nombre) otro
      ≡ cambiado (valor_de sems) nombre (incrementado (valor_de sems nombre)) otro
unfolding sumar_sem sumar_en
sumar_sem-valor sems nombre otro = elim (hallar sems nombre) [
  | falta f g ↦
      rw (f, sumar_sem, g)
        (elim (Bool-cases (str_eq nombre otro)) [
          | inl s ↦ let q : nombre ≡ otro = (eq_iff nombre otro).0 s in rw s (rw q at g)
          | inr n ↦ rw n refl
        ])
  | esta i sem f g h k ↦ rw (f, sumar_sem, g, h) (k (inc_ℤ sem.valor) otro)
]

-- The three answers of restarSem.
pub data Resta (sems : List SemKernel) (nombre : String) (r : List SemKernel × ℤ) : Type 0 where
  sin_semaforo : valor_de sems nombre ≡ none → r ≡ (sems, negsuc 1) → Resta sems nombre r
  agotado :
      (v : ℤ)
      → valor_de sems nombre ≡ some v
      → ltb_ℤ (pos 0) v ≡ false
      → r ≡ (sems, negsuc 0)
      → Resta sems nombre r
  tomado :
      (v : ℤ)
      → valor_de sems nombre ≡ some v
      → ltb_ℤ (pos 0) v ≡ true
      → r.1 ≡ pos 0
      → ((otro : String)
          → valor_de r.0 otro ≡ cambiado (valor_de sems) nombre (some (dec_ℤ v)) otro)
      → Resta sems nombre r

-- restarSem answers -2 for a name without value and -1 for a value below 1, both with the list as
-- it was, and 0 for another value, which it lowers by one, with the values of all other names as
-- they were.
pub restar_sem-Resta :
    (sems : List SemKernel) (nombre : String) → Resta sems nombre (restar_sem sems nombre)
unfolding restar_sem restar_en
restar_sem-Resta sems nombre = elim (hallar sems nombre) [
  | falta f g ↦ sin_semaforo g (rw (f, restar_sem) refl)
  | esta i sem f g h k ↦ elim (Bool-cases (ltb_ℤ (pos 0) sem.valor)) [
    | inr n ↦ agotado sem.valor h n (rw (f, restar_sem, g, n) refl)
    | inl s ↦
        tomado sem.valor h s (rw (f, restar_sem, g, s) refl)
          (λ otro. rw (f, restar_sem, g, s) (k (dec_ℤ sem.valor) otro))
  ]
]

abbrev pub creado : Option ℤ → ℤ → Option ℤ
creado none valor = some valor
creado (some v) valor = some v

valor_de-append :
    (sems : List SemKernel) (sem : SemKernel) (otro : String)
    → valor_de sems sem.nombre ≡ none
    → valor_de (sems ++ sem ∷ []) otro ≡ cambiado (valor_de sems) sem.nombre (some sem.valor) otro
valor_de-append [] sem otro h = refl
valor_de-append (x ∷ sems) sem otro h = elim (Bool-cases (str_eq x.nombre sem.nombre)) [
  | inl s ↦ let h' = rw s at h in cc
  | inr n ↦
      rw (valor_de-append sems sem otro (rw n at h))
        (cambiado-luego x sems sem.nombre otro sem.valor n)
]

-- After crearSemaforoKernel a name without value has the given value, a name with a value keeps
-- it, and every other name has the value it had.
pub crear_semaforo_kernel-valor :
    (sems : List SemKernel) (nombre otro : String) (valor : ℤ)
    → valor_de (crear_semaforo_kernel sems nombre valor) otro
      ≡ cambiado (valor_de sems) nombre (creado (valor_de sems nombre) valor) otro
unfolding crear_semaforo_kernel
crear_semaforo_kernel-valor sems nombre otro valor = elim (hallar sems nombre) [
  | falta f g ↦
      rw (f, crear_semaforo_kernel, g)
        (valor_de-append sems (record { valor = valor; nombre = nombre }) otro g)
  | esta i sem f g h k ↦
      rw (f, crear_semaforo_kernel, h)
        (elim (Bool-cases (str_eq nombre otro)) [
          | inl s ↦ let q : nombre ≡ otro = (eq_iff nombre otro).0 s in rw s (rw q at h)
          | inr n ↦ rw n refl
        ])
]

inc-dec : (v : ℤ) → inc_ℤ (dec_ℤ v) ≡ v
inc-dec (pos zero) = refl
inc-dec (pos (suc n)) = refl
inc-dec (negsuc n) = refl

-- If restarSem of a name answers 0, then after a sumarSem of the same name every name has the
-- value it had before both.
pub sumar_sem-restar_sem :
    (sems : List SemKernel) (nombre otro : String)
    → (restar_sem sems nombre).1 ≡ pos 0
    → valor_de (sumar_sem (restar_sem sems nombre).0 nombre) otro ≡ valor_de sems otro
sumar_sem-restar_sem sems nombre otro e = elim (restar_sem-Resta sems nombre) [
  | sin_semaforo g r ↦ let e' : negsuc 1 ≡ pos 0 = rw r at e in cc
  | agotado v g n r ↦ let e' : negsuc 0 ≡ pos 0 = rw r at e in cc
  | tomado v g s r k ↦
      sumar_sem-valor (restar_sem sems nombre).0 nombre otro
      ∙ rw (k nombre, k otro, eq_refl nombre, inc-dec v)
          (elim (Bool-cases (str_eq nombre otro)) [
            | inl t ↦ let q : nombre ≡ otro = (eq_iff nombre otro).0 t in rw t (sym (rw q at g))
            | inr n ↦ rw n refl
          ])
]
