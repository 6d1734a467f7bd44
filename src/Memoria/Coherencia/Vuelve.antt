-- ===== src/Memoria/Coherencia/Vuelve.antt =====
-- obtener_marco_para_pagina of memoria/src/memory.c returns for a page in memory, whether the TLB has
-- it or not.
use mathlib.Core.Path.{subst}
use exitos_con_esto.Prelude.{
  ℕ, suc, ◌<◌, ◌≡◌, refl, sym, inl, inr, ◌∙◌, ap, true, false, List, [], ◌∷◌, some, arith,
  Bool-cases, ℤ, pos, eq_ℤ, eq_ℤ→eq, get_elem?, if◌then◌else◌, length,
}
use exitos_con_esto.Memoria.Datos.{Carpincho}
use exitos_con_esto.Memoria.Carpinchos.{buscar}
use exitos_con_esto.Memoria.Tlb.{Tlb, TlbItem, actualizar_tlb, is_marco_in_tlb, pagina_is_in_tlb}
use exitos_con_esto.Memoria.Tlb.Entrar.{TlbValida}
use exitos_con_esto.Memoria.Tlb.Reemplazo.{Ordena, actualizar_tlb-Entrada}
use exitos_con_esto.Memoria.Marcos.{
  Globales, Marco, Opciones, Swap, obtener_marco_de_cache, pagina_is_in_cache,
}
use exitos_con_esto.Memoria.Paginas.{
  con_tlb, fechar_tlb, get_tlb_item, obtener_marco, obtener_marco_para_pagina, tlb_hit, tlb_miss,
  traer_pagina,
}
use exitos_con_esto.Memoria.Cuentas.{Devuelve, Devuelve-bind, Devuelve-if, cuenta}
use exitos_con_esto.Memoria.Coherencia.{Coherente, Tiene, miente, miente_en}
use exitos_con_esto.Memoria.Coherencia.Obtener.{
  en_memoria-Tiene, get_marco_de_tlb-Tiene, get_tlb_item-get_elem?, pagina_is_in_tlb-get_tlb_item,
}

-- An entry that names the frame of a page is the entry of the page.
dueno_en_tlb :
    (ms : List Marco) (items : List TlbItem) (i pid pagina : ℕ)
    → cuenta (miente ms) items ≡ 0
    → Tiene ms i pid pagina
    → pagina_is_in_tlb items pid pagina ≡ false
    → is_marco_in_tlb items (pos i) ≡ false
unfolding is_marco_in_tlb pagina_is_in_tlb
dueno_en_tlb ms [] i pid pagina v t n = refl
dueno_en_tlb ms (x ∷ xs) i pid pagina v t n =
    let (m, g, f, suyo) = t in
    elim (Bool-cases (miente ms x)) [
      | inl e ↦ let v' = rw e at v in absurd (omega (arith, v'))
      | inr e ↦ elim (Bool-cases (eq_ℤ x.marco (pos i))) [
        | inr d ↦
            let v' = rw e at v in
            rw d (dueno_en_tlb ms xs i pid pagina (omega (arith, v')) t (ground (arith, n)))
        | inl d ↦
            let e' : miente_en ms (pos i) x.pid x.pagina ≡ false =
              rw (eq_ℤ→eq x.marco (pos i) d) at e in
            let e'' = rw (g, miente_en) at e' in absurd (ground (arith, e'', suyo, n))
      ]
    ]

fechar_tlb_vuelve :
    {Sw : Type 0} (P : List Marco → Type 0) (pid pagina : ℕ) (s : Globales Sw)
    → P s.marcos
    → pagina_is_in_tlb s.tlb.items pid pagina ≡ true
    → Devuelve (λ r. P r.marcos) (fechar_tlb pid pagina s)
unfolding fechar_tlb
fechar_tlb_vuelve P pid pagina s v h =
    let (k, e) = pagina_is_in_tlb-get_tlb_item s.tlb.items pid pagina h in
    let (x, g, p, q) = get_tlb_item-get_elem? s.tlb.items pid pagina k e in
    Devuelve-bind (λ j. j ≡ k) _ (get_tlb_item s.tlb.items pid pagina) _ (k, e, refl)
      λ j w.
        Devuelve-bind (λ y. Unit {0}) _ (get_elem? s.tlb.items j) _
          (x, ap (get_elem? s.tlb.items) w ∙ g, tt) λ y z. (_, refl, v)

module _ {Sw : Type 0} (P : List Marco → Tlb → Type 0) (pid : ℕ) (s : Globales Sw) (c : Carpincho)
    (v : P s.marcos s.tlb) (b : buscar s.carpinchos.lista pid ≡ some c) where
  tlb_hit_vuelve : Devuelve (λ r. P r.marcos r.tlb) (tlb_hit pid s)
  unfolding tlb_hit
  tlb_hit_vuelve =
      Devuelve-bind (λ d. Unit {0}) _ (buscar s.carpinchos.lista pid) _ (c, b, tt)
        λ d w. (_, refl, v)

  tlb_miss_vuelve : Devuelve (λ r. P r.marcos r.tlb) (tlb_miss pid s)
  unfolding tlb_miss
  tlb_miss_vuelve =
      Devuelve-bind (λ d. Unit {0}) _ (buscar s.carpinchos.lista pid) _ (c, b, tt)
        λ d w. (_, refl, v)

-- The page is in a frame, which is not -1.
abbrev pub EnMarco : {Sw : Type 0} → ℕ → ℕ → Globales Sw × ℤ → Type 0
EnMarco pid pagina r = (i : ℕ) × (r.1 ≡ pos i) × Tiene (r.0).marcos i pid pagina

module _ (swap : Swap) (o : Opciones) (ordena : Ordena o.ordenar_tlb) (pid pagina : ℕ)
    (h : 0 < pagina) (s : Globales (swap.Estado)) (c : Carpincho)
    (v : Coherente s.marcos s.tlb.items) (b : buscar s.carpinchos.lista pid ≡ some c) where
  de_tlb_vuelve :
      (n : ℕ)
      → pagina_is_in_tlb s.tlb.items pid pagina ≡ true
      → Devuelve (EnMarco pid pagina) (obtener_marco swap o (suc n) pid pagina s)
  unfolding obtener_marco
  de_tlb_vuelve n e = rw e (
      Devuelve-bind _ _ (tlb_hit pid s) _
        (tlb_hit_vuelve
          (λ ms t. Coherente ms t.items × (pagina_is_in_tlb t.items pid pagina ≡ true)) pid s c
          (v, e) b)
        λ t w.
          (let (i, q, d, w') =
              get_marco_de_tlb-Tiene (obtener_marco swap o n pid pagina) pid pagina t w.0 w.1 h in
            rw q (
              Devuelve-bind (λ r. Tiene r.marcos i pid pagina) _
                (if o.tlb_lru then fechar_tlb pid pagina t else some t) _
                (Devuelve-if _ o.tlb_lru _ _
                  (λ l. fechar_tlb_vuelve (λ ms. Tiene ms i pid pagina) pid pagina t d w.1)
                  λ l. (t, refl, d))
                λ r z. (_, refl, (i, refl, z)))))

  -- The page is in memory, and the TLB is as it was.
  abbrev Traida : ℕ → Globales (swap.Estado) × ℤ → Type 0
  Traida i r = (r.1 ≡ pos i) × Tiene (r.0).marcos i pid pagina × ((r.0).tlb ≡ s.tlb)

  traer_vuelve :
      pagina_is_in_cache s.marcos pid pagina ≡ true
      → (i : ℕ) × Tiene s.marcos i pid pagina
        × Devuelve (Traida i) (traer_pagina swap o pid pagina s)
  unfolding traer_pagina
  traer_vuelve m =
      let (i, q, d) = en_memoria-Tiene s.marcos pid pagina v.bien h m in
      (
        i,
        d,
        rw m (
            Devuelve-bind _ _ (tlb_miss pid s) _
              (tlb_miss_vuelve (λ ms t. (ms ≡ s.marcos) × (t ≡ s.tlb)) pid s c (refl, refl) b)
              λ t z. (
                _,
                refl,
                (
                  ap (λ ms. obtener_marco_de_cache ms pid pagina) z.0 ∙ q,
                  subst (λ ms. Tiene ms i pid pagina) (sym z.0) d,
                  z.1,
                ),
              )),
      )

  de_memoria_vuelve :
      (n : ℕ)
      → TlbValida o.cantidad_entradas_tlb s.tlb
      → pagina_is_in_tlb s.tlb.items pid pagina ≡ false
      → pagina_is_in_cache s.marcos pid pagina ≡ true
      → Devuelve (EnMarco pid pagina) (obtener_marco swap o (suc n) pid pagina s)
  unfolding obtener_marco con_tlb
  de_memoria_vuelve n t e m =
      let (i, d, tr) = traer_vuelve m in
      let libre = dueno_en_tlb s.marcos s.tlb.items i pid pagina v.veraz d e in
      let entra = λ (tl : Tlb) (k : ℤ).
        actualizar_tlb o.ordenar_tlb o.tlb_lru o.cantidad_entradas_tlb tl pid pagina k in
      let (u, a, w) =
        actualizar_tlb-Entrada o.ordenar_tlb ordena o.cantidad_entradas_tlb o.tlb_lru s.tlb pid
          pagina (pos i) t refl libre in
      rw e (
        Devuelve-bind _ _ (traer_pagina swap o pid pagina s) _ tr λ r z.
          Devuelve-bind (λ x. Unit {0}) _ (entra (r.0).tlb (r.1)) _
            (u, ap (λ tl. entra tl (r.1)) z.2 ∙ ap (entra s.tlb) z.0 ∙ a, tt)
            λ x y. (_, refl, (i, z.0, z.1)))

  -- If list_sort keeps the elements and puts first one that its comparator puts none before, the
  -- frames and the TLB agree, the TLB has its entries with the FIFO pointer among them, the
  -- process is known, and a frame holds the page, whose number is from 1 on, then
  -- obtener_marco_para_pagina returns a frame that is not free and holds the page.
  pub obtener_marco_para_pagina_vuelve :
      TlbValida o.cantidad_entradas_tlb s.tlb
      → pagina_is_in_cache s.marcos pid pagina ≡ true
      → Devuelve (EnMarco pid pagina) (obtener_marco_para_pagina swap o pid pagina s)
  unfolding obtener_marco_para_pagina
  obtener_marco_para_pagina_vuelve t m =
      elim (Bool-cases (pagina_is_in_tlb s.tlb.items pid pagina)) [
        | inl e ↦ de_tlb_vuelve (length s.tlb.items) e
        | inr e ↦ de_memoria_vuelve (length s.tlb.items) t e m
      ]
