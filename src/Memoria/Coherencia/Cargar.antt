-- ===== src/Memoria/Coherencia/Cargar.antt =====
-- actualizar_tlb of memoria/src/memory.c puts a true entry into the TLB.
use exitos_con_esto.Prelude.{
  ℕ, ◌≤◌, ◌≡◌, refl, inl, inr, ◌∙◌, Bool, true, false, List, some, arith, ◌==◌, ==→eq, Bool-cases,
  Option-cases, pos, get_elem?, set, if◌then◌else◌,
}
use exitos_con_esto.Memoria.Tlb.{
  Ordenar, Tlb, TlbItem, actualizar_tlb, cargar_pagina_pagina_tlb, get_next_free_tlb_item,
  is_marco_in_tlb, menor_entrada, menor_timestamp, proxima_pagina_a_sacar_tlb_by_fifo,
  proxima_pagina_a_sacar_tlb_by_lru, reemplazar_tlb, vaciar_pagina_tlb,
}
use exitos_con_esto.Memoria.Marcos.{Marco, es_de}
use exitos_con_esto.Memoria.Cuentas.{
  Cumple, Cumple-bind, Cumple-bind_eq, Cumple-if, cuenta, cuenta-set,
}
use exitos_con_esto.Memoria.Coherencia.{Coherente, en_marco, miente, miente_en}
use exitos_con_esto.Memoria.Coherencia.Entradas.{is_marco_in_tlb-cuenta, vaciar-Coherente}

-- What the code relies on in list_sort: as many entries pass a test after it as before.
pub record Cuenta (ordenar : Ordenar) : Type 0 where
  pub misma :
      (menor : TlbItem → TlbItem → Bool) (q : TlbItem → Bool) (xs : List TlbItem)
      → cuenta q (ordenar menor xs) ≡ cuenta q xs

module _ (ordenar : Ordenar) (cuentas : Cuenta ordenar) where
  ordenar-Coherente :
      (ms : List Marco) (menor : TlbItem → TlbItem → Bool) (items : List TlbItem)
      → Coherente ms items
      → Coherente ms (ordenar menor items)
  ordenar-Coherente ms menor items c = record {
    bien = c.bien;
    veraz = cuentas.misma menor (miente ms) items ∙ c.veraz;
    unicos = λ i. omega (arith, cuentas.misma menor (en_marco (pos i)) items, c.unicos i);
  }

  -- What the search for the entry that goes out leaves.
  abbrev Igual : List Marco → List TlbItem → Tlb × ℕ → Type 0
  Igual ms items r =
      Coherente ms (r.0).items
      × ((i : ℕ) → cuenta (en_marco (pos i)) (r.0).items ≡ cuenta (en_marco (pos i)) items)

  lru-Igual :
      (ms : List Marco) (t : Tlb)
      → Coherente ms t.items
      → Igual ms t.items (proxima_pagina_a_sacar_tlb_by_lru ordenar t)
  unfolding proxima_pagina_a_sacar_tlb_by_lru
  lru-Igual ms t c = elim (Option-cases (get_next_free_tlb_item t.items)) [
    | inr (i, e) ↦ rw (e, proxima_pagina_a_sacar_tlb_by_lru) (c, λ i. refl)
    | inl e ↦
        rw (e, proxima_pagina_a_sacar_tlb_by_lru)
          (
            ordenar-Coherente ms menor_timestamp (ordenar menor_entrada t.items)
                (ordenar-Coherente ms menor_entrada t.items c),
            λ i.
                cuentas.misma menor_timestamp (en_marco (pos i)) (ordenar menor_entrada t.items)
                ∙ cuentas.misma menor_entrada (en_marco (pos i)) t.items,
          )
  ]

  fifo-Igual :
      (ms : List Marco) (cantidad : ℕ) (t : Tlb)
      → Coherente ms t.items
      → Igual ms t.items (proxima_pagina_a_sacar_tlb_by_fifo ordenar cantidad t)
  unfolding proxima_pagina_a_sacar_tlb_by_fifo
  fifo-Igual ms cantidad t c = elim (Option-cases (get_next_free_tlb_item t.items)) [
    | inr (i, e) ↦ rw (e, proxima_pagina_a_sacar_tlb_by_fifo) (c, λ i. refl)
    | inl e ↦
        rw (e, proxima_pagina_a_sacar_tlb_by_fifo)
          (
            ordenar-Coherente ms menor_entrada t.items c,
            λ i. cuentas.misma menor_entrada (en_marco (pos i)) t.items,
          )
  ]

  module _ (ms : List Marco) (pid pagina i : ℕ) (m : Marco) (g : get_elem? ms i ≡ some m)
      (ocupado : m.is_free ≡ false) (suyo : es_de pid pagina m ≡ true) where
    abbrev cargada : TlbItem → ℕ → TlbItem
    cargada x t = record x { pid = pid; pagina = pagina; marco = pos i; timestamp = t }

    dice_verdad : (x : TlbItem) (t : ℕ) → miente ms (cargada x t) ≡ false
    dice_verdad x t = rw (g, miente_en) (rw (ocupado, suyo) refl)

    uno_solo :
        (items : List TlbItem) (k j t : ℕ) (x : TlbItem)
        → Coherente ms items
        → cuenta (en_marco (pos i)) items ≡ 0
        → get_elem? items k ≡ some x
        → cuenta (en_marco (pos j)) (set items k (cargada x t)) ≤ 1
    uno_solo items k j t x c z h =
        let r = cuenta-set (en_marco (pos j)) items k x (cargada x t) h in
        elim (Bool-cases (i == j)) [
          | inl e ↦
              let r' = rw e at r in
              let p : i ≡ j = ==→eq i j e in
              let z' : cuenta (en_marco (pos j)) items ≡ 0 = rw p at z in omega (arith, r', z')
          | inr e ↦ let r' = rw e at r in omega (arith, r', c.unicos j)
        ]

    -- The frame is in no entry, and goes into a free one.
    cargar-Coherente :
        (t : Tlb)
        → Coherente ms t.items
        → cuenta (en_marco (pos i)) t.items ≡ 0
        → Cumple (λ u. Coherente ms u.items) (cargar_pagina_pagina_tlb t pid pagina (pos i))
    unfolding cargar_pagina_pagina_tlb
    cargar-Coherente t c z = Cumple-bind_eq _ (get_next_free_tlb_item t.items) _ λ k e.
        Cumple-bind_eq _ (get_elem? t.items k) _ λ x h. record {
          bien = c.bien;
          veraz =
              let r = cuenta-set (miente ms) t.items k x (cargada x t.contador) h in
              let r' = rw (dice_verdad x t.contador) at r in omega (arith, r', c.veraz);
          unicos = λ j. uno_solo t.items k j t.contador x c z h;
        }

    reemplazar-Coherente :
        (r : Tlb × ℕ)
        → Coherente ms (r.0).items
        → cuenta (en_marco (pos i)) (r.0).items ≡ 0
        → Cumple (λ u. Coherente ms u.items) (reemplazar_tlb r pid pagina (pos i))
    unfolding reemplazar_tlb
    reemplazar-Coherente r c z =
        Cumple-bind _ _ (vaciar_pagina_tlb (r.0).items (r.1)) _
          (vaciar-Coherente ms (r.0).items (r.1) c)
          λ items v. cargar-Coherente (record (r.0) { items = items }) v.0 (omega (arith, v.1 i, z))

    -- actualizar_tlb with the frame of the page.
    pub actualizar_tlb-Coherente :
        (lru : Bool) (cantidad : ℕ) (t : Tlb)
        → Coherente ms t.items
        → Cumple
            (λ u. Coherente ms u.items)
            (actualizar_tlb ordenar lru cantidad t pid pagina (pos i))
    unfolding actualizar_tlb
    actualizar_tlb-Coherente lru cantidad t c =
        Cumple-if _ (is_marco_in_tlb t.items (pos i)) _ _ (λ h. tt)
          λ h. reemplazo lru (is_marco_in_tlb-cuenta t.items (pos i) h)
      where
        reemplazo :
            (lru : Bool)
            → cuenta (en_marco (pos i)) t.items ≡ 0
            → Cumple
                (λ u. Coherente ms u.items)
                (reemplazar_tlb
                  (if lru
                    then proxima_pagina_a_sacar_tlb_by_lru ordenar t
                    else proxima_pagina_a_sacar_tlb_by_fifo ordenar cantidad t)
                  pid
                  pagina
                  (pos i))
        reemplazo true z =
            let q = lru-Igual ms t c in
            reemplazar-Coherente (proxima_pagina_a_sacar_tlb_by_lru ordenar t) q.0 (q.1 i ∙ z)
        reemplazo false z =
            let q = fifo-Igual ms cantidad t c in
            reemplazar-Coherente (proxima_pagina_a_sacar_tlb_by_fifo ordenar cantidad t) q.0
              (q.1 i ∙ z)
