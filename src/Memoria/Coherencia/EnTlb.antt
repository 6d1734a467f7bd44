-- ===== src/Memoria/Coherencia/EnTlb.antt =====
-- The entry of a page in the TLB of memoria/src/memory.c, and its frame.
use exitos_con_esto.Prelude.{
  ℕ, zero, suc, ◌<◌, ◌≡◌, refl, ◌∙◌, inl, inr, Bool, true, false, ◌&&◌, List, [], ◌∷◌, some, arith,
  ◌==◌, Bool-cases, Option-cases, ℤ, negsuc, eq_ℤ, get_elem?, set, if◌then◌else◌,
}
use exitos_con_esto.Memoria.Tlb.{
  Ordenar, Tlb, TlbItem, actualizar_tlb, cargar_pagina_pagina_tlb, get_next_free_tlb_item,
  is_marco_in_tlb, menor_entrada, menor_timestamp, pagina_is_in_tlb,
  proxima_pagina_a_sacar_tlb_by_fifo, proxima_pagina_a_sacar_tlb_by_lru, reemplazar_tlb,
  vaciar_pagina_tlb,
}
use exitos_con_esto.Memoria.Paginas.{get_tlb_item}
use exitos_con_esto.Memoria.Cuentas.{
  Cumple, Cumple-bind, Cumple-bind_eq, Cumple-if, cuenta, cuenta-set,
}
use exitos_con_esto.Memoria.Coherencia.Entradas.{vacia}
use exitos_con_esto.Memoria.Coherencia.Cargar.{Cuenta}

-- The entry that get_tlb_item gives for the page names the frame.
abbrev pub EnTlb : List TlbItem → ℕ → ℕ → ℤ → Type 0
EnTlb items pid pagina marco =
    (k : ℕ) × (x : TlbItem) × (get_tlb_item items pid pagina ≡ some k)
    × (get_elem? items k ≡ some x)
    × (x.marco ≡ marco)

abbrev pub es_entrada : ℕ → ℕ → TlbItem → Bool
es_entrada pid pagina x = x.pagina == pagina && x.pid == pid

pub sin_entrada :
    (items : List TlbItem) (pid pagina : ℕ)
    → pagina_is_in_tlb items pid pagina ≡ false
    → cuenta (es_entrada pid pagina) items ≡ 0
unfolding pagina_is_in_tlb
sin_entrada [] pid pagina h = refl
sin_entrada (x ∷ xs) pid pagina h = elim (Bool-cases (es_entrada pid pagina x)) [
  | inl e ↦ absurd (ground (arith, e, h))
  | inr e ↦
      let h' : pagina_is_in_tlb xs pid pagina ≡ false = ground (arith, h) in
      rw e (omega (arith, sin_entrada xs pid pagina h'))
]

pub get_tlb_item-pagina_is_in_tlb :
    (items : List TlbItem) (pid pagina k : ℕ)
    → get_tlb_item items pid pagina ≡ some k
    → pagina_is_in_tlb items pid pagina ≡ true
unfolding get_tlb_item pagina_is_in_tlb
get_tlb_item-pagina_is_in_tlb [] pid pagina k e = cc
get_tlb_item-pagina_is_in_tlb (x ∷ xs) pid pagina k e =
    elim (Bool-cases (es_entrada pid pagina x)) [
      | inl h ↦ ground (arith, h)
      | inr h ↦ elim (Option-cases (get_tlb_item xs pid pagina)) [
        | inl d ↦ let e' = rw (h, d) at e in cc
        | inr (j, d) ↦ let r = get_tlb_item-pagina_is_in_tlb xs pid pagina j d in ground (arith, r)
      ]
    ]

-- The entry of the page is changed, and stays the one of the page.
pub get_tlb_item-set :
    (items : List TlbItem) (pid pagina k : ℕ) (y : TlbItem)
    → get_tlb_item items pid pagina ≡ some k
    → es_entrada pid pagina y ≡ true
    → (get_tlb_item (set items k y) pid pagina ≡ some k) × (get_elem? (set items k y) k ≡ some y)
unfolding get_tlb_item
get_tlb_item-set [] pid pagina k y e d = cc
get_tlb_item-set (x ∷ xs) pid pagina k y e d = elim (Bool-cases (es_entrada pid pagina x)) [
  | inl h ↦ let e' = rw h at e in let z : k ≡ 0 = cc in rw z (rw d refl, refl)
  | inr h ↦ elim (Option-cases (get_tlb_item xs pid pagina)) [
    | inl f ↦ let e' = rw (h, f) at e in cc
    | inr (j, f) ↦
        let e' = rw (h, f) at e in
        let z : k ≡ suc j = cc in
        let r = get_tlb_item-set xs pid pagina j y f d in rw z (rw h (rw r.0 refl), r.1)
  ]
]

-- No entry is that of the page, and one becomes it.
entrada_nueva :
    (items : List TlbItem) (pid pagina k : ℕ) (x y : TlbItem)
    → cuenta (es_entrada pid pagina) items ≡ 0
    → get_elem? items k ≡ some x
    → es_entrada pid pagina y ≡ true
    → (get_tlb_item (set items k y) pid pagina ≡ some k) × (get_elem? (set items k y) k ≡ some y)
unfolding get_tlb_item
entrada_nueva [] pid pagina k x y z g d = cc
entrada_nueva (w ∷ ws) pid pagina zero x y z g d = (rw d refl, refl)
entrada_nueva (w ∷ ws) pid pagina (suc k) x y z g d = elim (Bool-cases (es_entrada pid pagina w)) [
  | inl h ↦ let z' = rw h at z in absurd (omega (arith, z'))
  | inr h ↦
      let z' = rw h at z in
      let r = entrada_nueva ws pid pagina k x y (omega (arith, z')) g d in (rw h (rw r.0 refl), r.1)
]

-- No entry is that of the page.
abbrev pub Ausente : ℕ → ℕ → List TlbItem → Type 0
Ausente pid pagina items = cuenta (es_entrada pid pagina) items ≡ 0

module _ (pid pagina : ℕ) (h : 0 < pagina) where
  pub vaciar-Ausente :
      (items : List TlbItem) (k : ℕ)
      → Ausente pid pagina items
      → Cumple (Ausente pid pagina) (vaciar_pagina_tlb items k)
  unfolding vaciar_pagina_tlb
  vaciar-Ausente items k z = Cumple-bind_eq _ (get_elem? items k) _ λ x g.
      (let v : es_entrada pid pagina (vacia x) ≡ false = ground (arith, h) in
        let r = cuenta-set (es_entrada pid pagina) items k x (vacia x) g in
        let r' = rw v at r in omega (arith, r', z))

  module _ (ordenar : Ordenar) (cuentas : Cuenta ordenar) (marco : ℤ) where
    cargar-EnTlb :
        (t : Tlb)
        → Ausente pid pagina t.items
        → Cumple (λ u. EnTlb u.items pid pagina marco) (cargar_pagina_pagina_tlb t pid pagina marco)
    unfolding cargar_pagina_pagina_tlb
    cargar-EnTlb t z = Cumple-bind_eq _ (get_next_free_tlb_item t.items) _ λ k e.
        Cumple-bind_eq _ (get_elem? t.items k) _ λ x g.
          (let y : TlbItem = record x {
            pid = pid;
            pagina = pagina;
            marco = marco;
            timestamp = t.contador;
          } in
            let d : es_entrada pid pagina y ≡ true = ground arith in
            let r = entrada_nueva t.items pid pagina k x y z g d in (k, y, r.0, r.1, refl))

    reemplazar-EnTlb :
        (r : Tlb × ℕ)
        → Ausente pid pagina (r.0).items
        → Cumple (λ u. EnTlb u.items pid pagina marco) (reemplazar_tlb r pid pagina marco)
    unfolding reemplazar_tlb
    reemplazar-EnTlb r z =
        Cumple-bind _ _ (vaciar_pagina_tlb (r.0).items (r.1)) _ (vaciar-Ausente (r.0).items (r.1) z)
          λ items v. cargar-EnTlb (record (r.0) { items = items }) v

    lru-Ausente :
        (t : Tlb)
        → Ausente pid pagina t.items
        → Ausente pid pagina ((proxima_pagina_a_sacar_tlb_by_lru ordenar t).0).items
    unfolding proxima_pagina_a_sacar_tlb_by_lru
    lru-Ausente t z = elim (Option-cases (get_next_free_tlb_item t.items)) [
      | inr (i, e) ↦ rw (e, proxima_pagina_a_sacar_tlb_by_lru) z
      | inl e ↦
          rw (e, proxima_pagina_a_sacar_tlb_by_lru)
            (cuentas.misma menor_timestamp (es_entrada pid pagina) (ordenar menor_entrada t.items)
              ∙ cuentas.misma menor_entrada (es_entrada pid pagina) t.items
              ∙ z)
    ]

    fifo-Ausente :
        (cantidad : ℕ) (t : Tlb)
        → Ausente pid pagina t.items
        → Ausente pid pagina ((proxima_pagina_a_sacar_tlb_by_fifo ordenar cantidad t).0).items
    unfolding proxima_pagina_a_sacar_tlb_by_fifo
    fifo-Ausente cantidad t z = elim (Option-cases (get_next_free_tlb_item t.items)) [
      | inr (i, e) ↦ rw (e, proxima_pagina_a_sacar_tlb_by_fifo) z
      | inl e ↦
          rw (e, proxima_pagina_a_sacar_tlb_by_fifo)
            (cuentas.misma menor_entrada (es_entrada pid pagina) t.items ∙ z)
    ]

    -- actualizar_tlb with a frame that is not -1.
    pub actualizar_tlb-EnTlb :
        (lru : Bool) (cantidad : ℕ) (t : Tlb)
        → Ausente pid pagina t.items
        → eq_ℤ marco (negsuc 0) ≡ false
        → Cumple
            (λ u. EnTlb u.items pid pagina marco)
            (actualizar_tlb ordenar lru cantidad t pid pagina marco)
    unfolding actualizar_tlb
    actualizar_tlb-EnTlb lru cantidad t z n =
        rw n (Cumple-if _ (is_marco_in_tlb t.items marco) _ _ (λ h. tt) (λ h. reemplazo lru))
      where
        reemplazo :
            (lru : Bool)
            → Cumple
                (λ u. EnTlb u.items pid pagina marco)
                (reemplazar_tlb
                  (if lru
                    then proxima_pagina_a_sacar_tlb_by_lru ordenar t
                    else proxima_pagina_a_sacar_tlb_by_fifo ordenar cantidad t)
                  pid
                  pagina
                  marco)
        reemplazo true =
            reemplazar-EnTlb (proxima_pagina_a_sacar_tlb_by_lru ordenar t) (lru-Ausente t z)
        reemplazo false =
            reemplazar-EnTlb (proxima_pagina_a_sacar_tlb_by_fifo ordenar cantidad t)
              (fifo-Ausente cantidad t z)
