-- ===== src/Memoria/Coherencia/Entradas.antt =====
-- What the TLB operations of memoria/src/memory.c keep: vaciar_marco_en_cache takes the entry of its
-- frame out, actualizar_tlb puts a true one in.
use exitos_con_esto.Prelude.{
  ℕ, zero, suc, ◌≤◌, ◌≡◌, refl, inl, inr, ◌∙◌, true, false, List, [], ◌∷◌, some, arith, ◌==◌,
  Bool-cases, Option-cases, ℤ, pos, negsuc, eq_ℤ, get_elem?, set,
}
use exitos_con_esto.Memoria.Tlb.{TlbItem, is_marco_in_tlb, vaciar_pagina_tlb}
use exitos_con_esto.Memoria.Marcos.{Marco}
use exitos_con_esto.Memoria.Swampear.{get_tlb_item_by_marco_number, olvidar_marco}
use exitos_con_esto.Memoria.Cuentas.{
  Cumple, Cumple-bind_eq, Cumple-if, cuenta, cuenta-igual, cuenta-set,
}
use exitos_con_esto.Memoria.Coherencia.{Coherente, en_marco, miente, miente_en}
use exitos_con_esto.Memoria.Coherencia.Numeros.{MarcosBien-set}

pub is_marco_in_tlb-cuenta :
    (items : List TlbItem) (marco : ℤ)
    → is_marco_in_tlb items marco ≡ false
    → cuenta (en_marco marco) items ≡ 0
unfolding is_marco_in_tlb
is_marco_in_tlb-cuenta [] marco h = refl
is_marco_in_tlb-cuenta (x ∷ xs) marco h = elim (Bool-cases (eq_ℤ x.marco marco)) [
  | inl e ↦ let h' = rw e at h in cc
  | inr e ↦ rw e (omega (arith, is_marco_in_tlb-cuenta xs marco (rw e at h)))
]

pub cuenta-is_marco_in_tlb :
    (items : List TlbItem) (marco : ℤ)
    → cuenta (en_marco marco) items ≡ 0
    → is_marco_in_tlb items marco ≡ false
unfolding is_marco_in_tlb
cuenta-is_marco_in_tlb [] marco h = refl
cuenta-is_marco_in_tlb (x ∷ xs) marco h = elim (Bool-cases (eq_ℤ x.marco marco)) [
  | inl e ↦ let h' = rw e at h in absurd (omega (arith, h'))
  | inr e ↦ rw e (cuenta-is_marco_in_tlb xs marco (let h' = rw e at h in omega (arith, h')))
]

-- An emptied entry says nothing.
abbrev pub vacia : TlbItem → TlbItem
vacia x = record x { pid = 0; pagina = 0; marco = negsuc 0 }

pub vaciar-Coherente :
    (ms : List Marco) (items : List TlbItem) (k : ℕ)
    → Coherente ms items
    → Cumple
        (λ r.
          Coherente ms r
          × ((i : ℕ) → cuenta (en_marco (pos i)) r ≤ cuenta (en_marco (pos i)) items))
        (vaciar_pagina_tlb items k)
unfolding vaciar_pagina_tlb
vaciar-Coherente ms items k c = Cumple-bind_eq _ (get_elem? items k) _ λ x e. (
  record {
    bien = c.bien;
    veraz = omega (arith, cuenta-set (miente ms) items k x (vacia x) e, c.veraz);
    unicos = λ i. omega (arith, cuenta-set (en_marco (pos i)) items k x (vacia x) e, c.unicos i);
  },
  λ i. omega (arith, cuenta-set (en_marco (pos i)) items k x (vacia x) e),
)

get_tlb_item_by_marco_number-get_elem? :
    (items : List TlbItem) (marco : ℤ) (k : ℕ)
    → get_tlb_item_by_marco_number items marco ≡ some k
    → (x : TlbItem) × (get_elem? items k ≡ some x) × (eq_ℤ x.marco marco ≡ true)
unfolding get_tlb_item_by_marco_number
get_tlb_item_by_marco_number-get_elem? [] marco k e = cc
get_tlb_item_by_marco_number-get_elem? (x ∷ xs) marco k e = elim (Bool-cases (eq_ℤ x.marco marco)) [
  | inl h ↦ let e' = rw h at e in let z : k ≡ 0 = cc in rw z (x, refl, h)
  | inr h ↦ elim (Option-cases (get_tlb_item_by_marco_number xs marco)) [
    | inl d ↦ let e' = rw (h, d) at e in cc
    | inr (j, d) ↦
        let e' = rw (h, d) at e in
        let z : k ≡ suc j = cc in rw z (get_tlb_item_by_marco_number-get_elem? xs marco j d)
  ]
]

-- The part of vaciar_marco_en_cache on the TLB.
pub olvidar_marco-Coherente :
    (ms : List Marco) (items : List TlbItem) (i : ℕ)
    → Coherente ms items
    → Cumple (λ r. Coherente ms r × (cuenta (en_marco (pos i)) r ≡ 0)) (olvidar_marco items (pos i))
unfolding olvidar_marco vaciar_pagina_tlb
olvidar_marco-Coherente ms items i c =
    Cumple-if _ (is_marco_in_tlb items (pos i)) _ _
      (λ h. Cumple-bind_eq _ (get_tlb_item_by_marco_number items (pos i)) _ λ k e.
        Cumple-bind_eq _ (get_elem? items k) _ λ x g.
          (let (y, g', q) = get_tlb_item_by_marco_number-get_elem? items (pos i) k e in
            let p : en_marco (pos i) x ≡ true = cc in
            (
              record {
                bien = c.bien;
                veraz = omega (arith, cuenta-set (miente ms) items k x (vacia x) g, c.veraz);
                unicos = λ j.
                    omega (arith, cuenta-set (en_marco (pos j)) items k x (vacia x) g, c.unicos j);
              },
              let r = cuenta-set (en_marco (pos i)) items k x (vacia x) g in
                  let r' = rw p at r in omega (arith, r', c.unicos i),
            )))
      (λ h. (c, is_marco_in_tlb-cuenta items (pos i) h))

pub get_elem?-set_ne :
    (ms : List Marco) (i j : ℕ) (m : Marco)
    → (j == i) ≡ false
    → get_elem? (set ms i m) j ≡ get_elem? ms j
get_elem?-set_ne [] i j m h = refl
get_elem?-set_ne (y ∷ ms) zero zero m h = cc
get_elem?-set_ne (y ∷ ms) zero (suc j) m h = refl
get_elem?-set_ne (y ∷ ms) (suc i) zero m h = refl
get_elem?-set_ne (y ∷ ms) (suc i) (suc j) m h = get_elem?-set_ne ms i j m (ground arith)

miente_en-set :
    (ms : List Marco) (i : ℕ) (m : Marco) (marco : ℤ) (pid pagina : ℕ)
    → eq_ℤ marco (pos i) ≡ false
    → miente_en (set ms i m) marco pid pagina ≡ miente_en ms marco pid pagina
miente_en-set ms i m (negsuc n) pid pagina h = refl
miente_en-set ms i m (pos j) pid pagina h = rw (get_elem?-set_ne ms i j m h, miente_en) refl

otros :
    (ms : List Marco) (i : ℕ) (m : Marco) (x : TlbItem)
    → en_marco (pos i) x ≡ false
    → miente (set ms i m) x ≡ miente ms x
otros ms i m x h = miente_en-set ms i m x.marco x.pid x.pagina h

-- A frame that the TLB does not name may change.
pub cambiar_marco-Coherente :
    (ms : List Marco) (items : List TlbItem) (i : ℕ) (m : Marco)
    → Coherente ms items
    → cuenta (en_marco (pos i)) items ≡ 0
    → m.marco ≡ i
    → (m.is_free ≡ true → m.pagina ≡ 0)
    → Coherente (set ms i m) items
cambiar_marco-Coherente ms items i m c z e f = record {
  bien = MarcosBien-set 0 ms i m c.bien (omega (arith, e)) f;
  veraz =
      cuenta-igual (miente (set ms i m)) (miente ms) (en_marco (pos i)) items (otros ms i m) z
      ∙ c.veraz;
  unicos = c.unicos;
}
