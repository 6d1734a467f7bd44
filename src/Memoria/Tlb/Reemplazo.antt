-- ===== src/Memoria/Tlb/Reemplazo.antt =====
-- Which entry of the TLB goes out, and actualizar_tlb whole (memoria/src/memory.c).
use exitos_con_esto.Prelude.{
  ℕ, ◌≤◌, ◌<◌, ◌≡◌, ◌∙◌, inl, inr, Bool, true, false, List, [], ◌∷◌, none, some, arith, ℤ, negsuc,
  eq_ℤ, get_elem?, length, All, Option-cases,
}
use exitos_con_esto.Memoria.Tlb.{
  Ordenar, Tlb, TlbItem, actualizar_tlb, get_next_free_tlb_item, is_marco_in_tlb, menor_entrada,
  menor_timestamp, proxima_pagina_a_sacar_tlb_by_fifo, proxima_pagina_a_sacar_tlb_by_lru,
}
use exitos_con_esto.Memoria.Tlb.Entrar.{Entrada, TlbValida, libre-bajo, reemplazar_tlb-Entrada}

-- What a comparator of list_sort has to be: asymmetric, and not being less is transitive.
pub record Comparador (menor : TlbItem → TlbItem → Bool) : Type 0 where
  pub asimetrico : (a b : TlbItem) → menor a b ≡ true → menor b a ≡ false
  pub no_menor : (a b c : TlbItem) → menor a b ≡ false → menor b c ≡ false → menor a c ≡ false

-- What the code relies on in list_sort, for each comparator: the elements stay, and the first one
-- is one that no other has to stand before.
pub record Ordena (ordenar : Ordenar) : Type 1 where
  pub largo :
      (menor : TlbItem → TlbItem → Bool) (xs : List TlbItem) → length (ordenar menor xs) ≡ length xs
  pub mismos :
      (menor : TlbItem → TlbItem → Bool) (xs : List TlbItem) (P : TlbItem → Type 0)
      → All P (ordenar menor xs)
      → All P xs
  pub primero :
      (menor : TlbItem → TlbItem → Bool) (xs : List TlbItem) (x : TlbItem)
      → Comparador menor
      → get_elem? (ordenar menor xs) 0 ≡ some x
      → All (λ y. menor y x ≡ false) (ordenar menor xs)

menor_timestamp-Comparador : Comparador menor_timestamp
menor_timestamp-Comparador = record {
  asimetrico = λ a b h. ground (arith, h);
  no_menor = λ a b c h k. ground (arith, h, k);
}

le_timestamp :
    (x : TlbItem) (xs : List TlbItem)
    → All (λ y. menor_timestamp y x ≡ false) xs
    → All (λ y. x.timestamp ≤ y.timestamp) xs
le_timestamp x [] h = tt
le_timestamp x (y ∷ ys) h = (ground (arith, h.0), le_timestamp x ys h.1)

module _ (ordenar : Ordenar) (ordena : Ordena ordenar) (cantidad : ℕ) where
  -- The search keeps the TLB valid and gives one of its entries.
  abbrev Sacable : Tlb × ℕ → Type 0
  Sacable r = TlbValida cantidad r.0 × (r.1 < cantidad)

  lru-Sacable :
      (t : Tlb) → TlbValida cantidad t → Sacable (proxima_pagina_a_sacar_tlb_by_lru ordenar t)
  unfolding proxima_pagina_a_sacar_tlb_by_lru
  lru-Sacable t v = elim (Option-cases (get_next_free_tlb_item t.items)) [
    | inr (i, e) ↦
        rw (e, proxima_pagina_a_sacar_tlb_by_lru)
          (v, omega (arith, libre-bajo t.items i e, v.entradas))
    | inl e ↦
        rw (e, proxima_pagina_a_sacar_tlb_by_lru)
          (
            record {
              entradas =
                  ordena.largo menor_timestamp (ordenar menor_entrada t.items)
                  ∙ ordena.largo menor_entrada t.items
                  ∙ v.entradas;
              puntero = v.puntero;
            },
            omega (arith, v.puntero),
          )
  ]

  fifo-Sacable :
      (t : Tlb)
      → TlbValida cantidad t
      → Sacable (proxima_pagina_a_sacar_tlb_by_fifo ordenar cantidad t)
  unfolding proxima_pagina_a_sacar_tlb_by_fifo
  fifo-Sacable t v = elim (Option-cases (get_next_free_tlb_item t.items)) [
    | inr (i, e) ↦
        rw (e, proxima_pagina_a_sacar_tlb_by_fifo)
          (v, omega (arith, libre-bajo t.items i e, v.entradas))
    | inl e ↦
        rw (e, proxima_pagina_a_sacar_tlb_by_fifo)
          (
            record {
              entradas = ordena.largo menor_entrada t.items ∙ v.entradas;
              puntero = ground (arith, v.puntero);
            },
            v.puntero,
          )
  ]

  -- If list_sort keeps the elements and puts first one that its comparator puts none before, the
  -- TLB has its entries with the FIFO pointer among them, and the frame is not -1 and not in the
  -- TLB, then actualizar_tlb returns, under LRU and under FIFO, and the TLB has its entries, the
  -- pointer among them, the page and the frame.
  pub actualizar_tlb-Entrada :
      (lru : Bool) (t : Tlb) (pid pagina : ℕ) (marco : ℤ)
      → TlbValida cantidad t
      → eq_ℤ marco (negsuc 0) ≡ false
      → is_marco_in_tlb t.items marco ≡ false
      → (u : Tlb) × (actualizar_tlb ordenar lru cantidad t pid pagina marco ≡ some u)
        × Entrada cantidad u pid pagina marco
  unfolding actualizar_tlb
  actualizar_tlb-Entrada true t pid pagina marco v m n =
      let s = lru-Sacable t v in
      let r = proxima_pagina_a_sacar_tlb_by_lru ordenar t in
      let (u, e, h) = reemplazar_tlb-Entrada cantidad r.0 r.1 pid pagina marco s.0 s.1 in
      (u, rw (m, n) e, h)
  actualizar_tlb-Entrada false t pid pagina marco v m n =
      let s = fifo-Sacable t v in
      let r = proxima_pagina_a_sacar_tlb_by_fifo ordenar cantidad t in
      let (u, e, h) = reemplazar_tlb-Entrada cantidad r.0 r.1 pid pagina marco s.0 s.1 in
      (u, rw (m, n) e, h)

  -- If list_sort keeps the elements and puts first one that its comparator puts none before, and
  -- no entry of the TLB is free, then no entry has a lower timestamp than the one that LRU takes
  -- out.
  pub lru-menor :
      (t : Tlb) (x : TlbItem)
      → get_next_free_tlb_item t.items ≡ none
      → let r = proxima_pagina_a_sacar_tlb_by_lru ordenar t in
        get_elem? r.0.items r.1 ≡ some x → All (λ y. x.timestamp ≤ y.timestamp) t.items
  unfolding proxima_pagina_a_sacar_tlb_by_lru
  lru-menor t x e g =
      let por_entrada = ordenar menor_entrada t.items in
      let g' : get_elem? (ordenar menor_timestamp por_entrada) 0 ≡ some x =
        rw (e, proxima_pagina_a_sacar_tlb_by_lru) at g in
      let ninguno = ordena.primero menor_timestamp por_entrada x menor_timestamp-Comparador g' in
      le_timestamp x t.items (
        ordena.mismos menor_entrada t.items (λ y. menor_timestamp y x ≡ false)
          (ordena.mismos menor_timestamp por_entrada (λ y. menor_timestamp y x ≡ false) ninguno))
