-- ===== src/Memoria/Tlb/Entrar.antt =====
-- A page enters the TLB of memoria/src/memory.c.
use exitos_con_esto.Prelude.{
  ℕ, zero, suc, ◌+◌, ◌<◌, ◌≡◌, refl, ◌∙◌, ap, inl, inr, Bool, true, false, ◌&&◌, ◌||◌, List, [],
  ◌∷◌, some, arith, ◌==◌, ==-refl, bind-inv, ℤ, negsuc, eq_ℤ, eq_ℤ-refl, get_elem?, set, length,
  Bool-cases,
}
use exitos_con_esto.Memoria.Tlb.{
  Tlb, TlbItem, cargar_pagina_pagina_tlb, get_next_free_tlb_item, is_marco_in_tlb, pagina_is_in_tlb,
  reemplazar_tlb, vaciar_pagina_tlb,
}

-- The TLB has its entries, and the FIFO pointer is one of them.
pub record TlbValida (cantidad : ℕ) (t : Tlb) : Type 0 where
  pub entradas : length t.items ≡ cantidad
  pub puntero : t.fifo_pointer < cantidad

length-set : {A : Type 0} → (xs : List A) (i : ℕ) (v : A) → length (set xs i v) ≡ length xs
length-set [] i v = refl
length-set (x ∷ xs) zero v = refl
length-set (x ∷ xs) (suc i) v = ap suc (length-set xs i v)

get_elem?-bajo :
    {A : Type 0} → (xs : List A) (i : ℕ) → i < length xs → (x : A) × (get_elem? xs i ≡ some x)
get_elem?-bajo [] i h = absurd (omega (arith, h))
get_elem?-bajo (x ∷ xs) zero h = (x, refl)
get_elem?-bajo (x ∷ xs) (suc i) h = get_elem?-bajo xs i (omega (arith, h))

pub libre-bajo :
    (items : List TlbItem) (i : ℕ) → get_next_free_tlb_item items ≡ some i → i < length items
unfolding get_next_free_tlb_item
libre-bajo [] i e = cc
libre-bajo (x ∷ xs) i e = elim (Bool-cases (x.pid == 0)) [
  | inl s ↦ let q : 0 ≡ i = (let e' = rw s at e in cc) in omega (arith, q)
  | inr n ↦
      let (j, f, g) = bind-inv (get_next_free_tlb_item xs) _ _ (rw n at e) in
      let q : suc j ≡ i = cc in omega (arith, q, libre-bajo xs j f)
]

-- Where an entry is free, one is found.
libre-hay :
    (items : List TlbItem) (i : ℕ) (x : TlbItem)
    → i < length items
    → x.pid ≡ 0
    → (j : ℕ) × (get_next_free_tlb_item (set items i x) ≡ some j)
unfolding get_next_free_tlb_item
libre-hay [] i x h z = absurd (omega (arith, h))
libre-hay (y ∷ ys) zero x h z = let s : (x.pid == 0) ≡ true = rw z refl in (0, rw s refl)
libre-hay (y ∷ ys) (suc i) x h z = elim (Bool-cases (y.pid == 0)) [
  | inl s ↦ (0, rw s refl)
  | inr n ↦ let (j, e) = libre-hay ys i x (omega (arith, h)) z in (suc j, rw n (rw e refl))
]

pagina_is_in_tlb-set :
    (items : List TlbItem) (i : ℕ) (x : TlbItem)
    → i < length items
    → pagina_is_in_tlb (set items i x) x.pid x.pagina ≡ true
unfolding pagina_is_in_tlb
pagina_is_in_tlb-set [] i x h = absurd (omega (arith, h))
pagina_is_in_tlb-set (y ∷ ys) zero x h = rw (==-refl x.pid, ==-refl x.pagina) refl
pagina_is_in_tlb-set (y ∷ ys) (suc i) x h =
    let r = pagina_is_in_tlb-set ys i x (omega (arith, h)) in
    o-verdad (y.pid == x.pid && y.pagina == x.pagina) _ r
  where
    o-verdad : (a b : Bool) → b ≡ true → (a || b) ≡ true
    o-verdad true b h = refl
    o-verdad false b h = h

is_marco_in_tlb-set :
    (items : List TlbItem) (i : ℕ) (x : TlbItem)
    → i < length items
    → is_marco_in_tlb (set items i x) x.marco ≡ true
unfolding is_marco_in_tlb
is_marco_in_tlb-set [] i x h = absurd (omega (arith, h))
is_marco_in_tlb-set (y ∷ ys) zero x h = rw (eq_ℤ-refl x.marco) refl
is_marco_in_tlb-set (y ∷ ys) (suc i) x h =
    let r = is_marco_in_tlb-set ys i x (omega (arith, h)) in o-verdad (eq_ℤ y.marco x.marco) _ r
  where
    o-verdad : (a b : Bool) → b ≡ true → (a || b) ≡ true
    o-verdad true b h = refl
    o-verdad false b h = h

-- The page and the frame are in the TLB, which has its entries.
pub record Entrada (cantidad : ℕ) (t : Tlb) (pid pagina : ℕ) (marco : ℤ) : Type 0 where
  pub valida : TlbValida cantidad t
  pub pagina_esta : pagina_is_in_tlb t.items pid pagina ≡ true
  pub marco_esta : is_marco_in_tlb t.items marco ≡ true

pub reemplazar_tlb-Entrada :
    (cantidad : ℕ) (t : Tlb) (i pid pagina : ℕ) (marco : ℤ)
    → TlbValida cantidad t
    → i < cantidad
    → (u : Tlb) × (reemplazar_tlb (t, i) pid pagina marco ≡ some u)
      × Entrada cantidad u pid pagina marco
unfolding reemplazar_tlb vaciar_pagina_tlb cargar_pagina_pagina_tlb
reemplazar_tlb-Entrada cantidad t i pid pagina marco v h =
    let bajo : i < length t.items = omega (arith, v.entradas, h) in
    let (x, ex) = get_elem?-bajo t.items i bajo in
    let vacio : TlbItem = record x { pid = 0; pagina = 0; marco = negsuc 0 } in
    let (j, ej) = libre-hay t.items i vacio bajo refl in
    let bajo' : j < length (set t.items i vacio) = libre-bajo (set t.items i vacio) j ej in
    let (y, ey) = get_elem?-bajo (set t.items i vacio) j bajo' in
    let lleno : TlbItem = record y {
      pid = pid;
      pagina = pagina;
      marco = marco;
      timestamp = t.contador;
    } in
    let u : Tlb = record t {
      items = set (set t.items i vacio) j lleno;
      contador = t.contador + 1;
    } in
    (
      u,
      rw ex (rw (ej, ey) refl),
      record {
        valida = record {
          entradas =
              length-set (set t.items i vacio) j lleno ∙ length-set t.items i vacio ∙ v.entradas;
          puntero = v.puntero;
        };
        pagina_esta = pagina_is_in_tlb-set (set t.items i vacio) j lleno bajo';
        marco_esta = is_marco_in_tlb-set (set t.items i vacio) j lleno bajo';
      },
    )
