-- ===== src/Memoria/Reloj/Encuentra.antt =====
-- From a pointer inside the pages get_proxima_a_swampear_by_m_clock (memoria/src/memory.c) gives a
-- page, and the pointer stays inside; from any other it gives none.
use exitos_con_esto.Prelude.{
  ℕ, zero, suc, ◌≤◌, ◌<◌, ◌≡◌, refl, ◌∙◌, ap, inl, inr, Bool, false, not, ◌&&◌, ◌||◌, ◌==◌, List,
  [], ◌∷◌, Option, none, some, arith, ltb, Bool-cases, Option-cases, get_elem?, length,
}
use exitos_con_esto.Memoria.Datos.{Pagina}
use exitos_con_esto.Memoria.Reloj.{buscada, m_clock, recorrer, vueltas}
use exitos_con_esto.Memoria.Reloj.Elegida.{elegida, primera, vueltas-elegida}

length-recorrer :
    (limpia edit : Bool) (ptr : ℕ) (ps : List Pagina)
    → length (recorrer limpia edit ptr ps).0 ≡ length ps
unfolding recorrer
length-recorrer limpia edit zero [] = refl
length-recorrer limpia edit (suc ptr) [] = refl
length-recorrer limpia edit (suc ptr) (p ∷ ps) = ap suc (length-recorrer limpia edit ptr ps)
length-recorrer limpia edit zero (p ∷ ps) = elim (Bool-cases (buscada edit p)) [
  | inl e ↦ rw e refl
  | inr e ↦ rw e (ap suc (length-recorrer limpia edit zero ps))
]

length-vueltas :
    (ptr i : ℕ) (edit : Bool) (n : ℕ) (ps : List Pagina)
    → length (vueltas ptr i edit n ps).0 ≡ length ps
unfolding vueltas
length-vueltas ptr i edit zero ps = refl
length-vueltas ptr i edit (suc n) ps =
    let r = recorrer (i == 1) edit ptr ps in
    elim (Option-cases r.1) [
      | inr (j, e) ↦ rw (e, vueltas) (length-recorrer (i == 1) edit ptr ps)
      | inl e ↦
          rw (e, vueltas)
            (length-vueltas ptr (suc i) (i == 0 || i == 2) n r.0
              ∙ length-recorrer (i == 1) edit ptr ps)
    ]

primera_bajo :
    (q : Pagina → Bool) (ptr : ℕ) (ps : List Pagina) (j : ℕ)
    → primera q ptr ps ≡ some j
    → (ptr ≤ j) × (j < length ps)
primera_bajo q zero [] j e = cc
primera_bajo q (suc ptr) [] j e = cc
primera_bajo q (suc ptr) (p ∷ ps) j e = elim (Option-cases (primera q ptr ps)) [
  | inl d ↦ let e' = rw d at e in cc
  | inr (i, d) ↦ let e' = rw d at e in ground (arith, primera_bajo q ptr ps i d)
]
primera_bajo q zero (p ∷ ps) j e = elim (Bool-cases (q p)) [
  | inl t ↦ let e' = rw t at e in ground arith
  | inr t ↦ elim (Option-cases (primera q zero ps)) [
    | inl d ↦ let e' = rw (t, d) at e in cc
    | inr (i, d) ↦ let e' = rw (t, d) at e in ground (arith, primera_bajo q zero ps i d)
  ]
]

primera_fuera :
    (q : Pagina → Bool) (ptr : ℕ) (ps : List Pagina) → length ps ≤ ptr → primera q ptr ps ≡ none
primera_fuera q zero [] h = refl
primera_fuera q (suc ptr) [] h = refl
primera_fuera q zero (p ∷ ps) h = absurd (omega arith)
primera_fuera q (suc ptr) (p ∷ ps) h = rw (primera_fuera q ptr ps (omega arith)) refl

elegida_dentro :
    (ptr : ℕ) (ps : List Pagina)
    → ptr < length ps
    → (j : ℕ) × (elegida ptr ps ≡ some j) × (ptr ≤ j) × (j < length ps)
elegida_dentro ptr ps h =
    elim (Option-cases (primera (λ p. not p.bit_de_uso && not p.bit_de_modificacion) ptr ps)) [
      | inr (j, e) ↦ (j, rw e refl, (primera_bajo _ ptr ps j e).0, (primera_bajo _ ptr ps j e).1)
      | inl e ↦ elim (Option-cases (primera (λ p. not p.bit_de_uso) ptr ps)) [
        | inr (j, d) ↦
            (j, rw (e, d) refl, (primera_bajo _ ptr ps j d).0, (primera_bajo _ ptr ps j d).1)
        | inl d ↦ elim (Option-cases (primera (λ p. not p.bit_de_modificacion) ptr ps)) [
          | inr (j, f) ↦
              (j, rw (e, d, f) refl, (primera_bajo _ ptr ps j f).0, (primera_bajo _ ptr ps j f).1)
          | inl f ↦ (ptr, rw (e, d, f) (ground arith), omega arith, h)
        ]
      ]
    ]

elegida_fuera : (ptr : ℕ) (ps : List Pagina) → length ps ≤ ptr → elegida ptr ps ≡ none
elegida_fuera ptr ps h =
    rw
      (
        primera_fuera (λ p. not p.bit_de_uso && not p.bit_de_modificacion) ptr ps h,
        primera_fuera (λ p. not p.bit_de_uso) ptr ps h,
        primera_fuera (λ p. not p.bit_de_modificacion) ptr ps h,
      )
      (ground arith)

get_elem?_dentro {ℓ} :
    {A : Type ℓ} (xs : List A) (i : ℕ) → i < length xs → (x : A) × (get_elem? xs i ≡ some x)
get_elem?_dentro [] i h = absurd (omega arith)
get_elem?_dentro (x ∷ xs) zero h = (x, refl)
get_elem?_dentro (x ∷ xs) (suc i) h = get_elem?_dentro xs i (omega arith)

-- What a search from the pointer gives.
pub data Busqueda (ptr : ℕ) (ps : List Pagina) : Option (List Pagina × Pagina × ℕ) → Type 0 where
  encuentra :
      (qs : List Pagina) (p : Pagina) (ptr' j : ℕ)
      → ptr < length ps
      → elegida ptr ps ≡ some j
      → ptr ≤ j
      → get_elem? qs j ≡ some p
      → length qs ≡ length ps
      → ptr' < length ps
      → Busqueda ptr ps (some (qs, p, ptr'))
  falla : length ps ≤ ptr → Busqueda ptr ps none

-- If the pointer is among the pages, M-CLOCK gives the page at the chosen position, which is not
-- before the pointer, leaves as many pages, and its new pointer is among them; if it is not,
-- M-CLOCK ends without a page.
pub m_clock-Busqueda : (ptr : ℕ) (ps : List Pagina) → Busqueda ptr ps (m_clock ptr ps)
unfolding m_clock
m_clock-Busqueda ptr ps = elim (Bool-cases (ltb ptr (length ps))) [
  | inl b ↦
      let h : ptr < length ps = ground arith in
      let (j, e, lo, hi) = elegida_dentro ptr ps h in
      let r = vueltas ptr 0 false 4 ps in
      let largo = length-vueltas ptr 0 false 4 ps in
      let (p, g) = get_elem?_dentro r.0 j (omega (arith, largo, hi)) in
      rw (vueltas-elegida ptr ps ∙ e, m_clock, g)
        (encuentra r.0 p _ j h e lo g largo (ground (arith, h)))
  | inr b ↦
      let h : length ps ≤ ptr = ground arith in
      rw (vueltas-elegida ptr ps ∙ elegida_fuera ptr ps h, m_clock) (falla h)
]
