-- ===== src/Memoria/Coherencia/Anotar.antt =====
-- The frame that obtener_marco_para_pagina of memoria/src/memory.c gives is the one that the TLB names
-- for the page from then on.
use exitos_con_esto.Prelude.{
  ℕ, zero, suc, ◌<◌, ◌≡◌, refl, sym, ◌∙◌, ap, true, List, Option, some, arith, ℤ, pos, negsuc, eq_ℤ,
  get_elem?, length, if◌then◌else◌, ◌>>=◌,
}
use exitos_con_esto.Memoria.Datos.{Pagina}
use exitos_con_esto.Memoria.Tlb.{TlbItem, actualizar_tlb, is_marco_in_tlb, pagina_is_in_tlb}
use exitos_con_esto.Memoria.Cache.{limpiar_marco}
use exitos_con_esto.Memoria.Marcos.{
  Globales, Marco, Opciones, Swap, get_marco_by_marco_number, pagina_is_in_cache,
}
use exitos_con_esto.Memoria.Swampear.{
  ceder_marco, elegir_pagina, get_tlb_item_by_marco_number, guardar_en_swap, indice, lectura_swamp,
  olvidar_marco, swampear_pagina, vaciar_marco_en_cache,
}
use exitos_con_esto.Memoria.Paginas.{
  cambiar_pagina, con_tlb, fechar_si_esta, fechar_tlb, get_marco_de_tlb, get_tlb_item,
  obtener_marco, obtener_marco_para_pagina, tlb_hit, tlb_miss, traer_pagina, ubicar_pagina,
}
use exitos_con_esto.Memoria.Cuentas.{Cumple, Cumple-bind, Cumple-bind_eq, Cumple-if}
use exitos_con_esto.Memoria.Coherencia.{Coherente}
use exitos_con_esto.Memoria.Coherencia.Accesos.{fechar_si_esta-Coherente}
use exitos_con_esto.Memoria.Coherencia.Cargar.{Cuenta}
use exitos_con_esto.Memoria.Coherencia.Ceder.{
  elegir_pagina-Vale, guardar_en_swap-Vale, lectura_swamp-Vale,
}
use exitos_con_esto.Memoria.Coherencia.EnTlb.{
  Ausente, EnTlb, actualizar_tlb-EnTlb, es_entrada, get_tlb_item-set, sin_entrada, vaciar-Ausente,
}
use exitos_con_esto.Memoria.Coherencia.Obtener.{
  cambiar_pagina-Vale, fechada, get_marco_de_tlb-Tiene, get_tlb_item-get_elem?, tlb_hit-Vale,
  tlb_miss-Vale,
}

-- A frame that is not -1 is the one that the TLB names.
abbrev pub Anotada : ℕ → ℕ → ℤ → List TlbItem → Type 0
Anotada pid pagina (pos i) items = EnTlb items pid pagina (pos i)
Anotada pid pagina (negsuc n) items = Unit {0}

-- A new date in the entry.
pub fechar_tlb-EnTlb :
    {Sw : Type 0} (pid pagina : ℕ) (marco : ℤ) (s : Globales Sw)
    → EnTlb s.tlb.items pid pagina marco
    → Cumple (λ r. EnTlb r.tlb.items pid pagina marco) (fechar_tlb pid pagina s)
unfolding fechar_tlb
fechar_tlb-EnTlb pid pagina marco s (k, x, e, g, m) =
    Cumple-bind_eq _ (get_tlb_item s.tlb.items pid pagina) _ λ j f.
      Cumple-bind_eq _ (get_elem? s.tlb.items j) _ λ y d.
        (let p : j ≡ k = cc in
          let q : y ≡ x = (let g' : get_elem? s.tlb.items j ≡ some x = rw p g in cc) in
          let (z, d', a, b) = get_tlb_item-get_elem? s.tlb.items pid pagina j f in
          let w : z ≡ y = cc in
          let t = s.contador_timestamp in
          let c : es_entrada pid pagina (fechada y t) ≡ true = misma y z w a b in
          let r = get_tlb_item-set s.tlb.items pid pagina j (fechada y t) f c in
          (j, fechada y t, r.0, r.1, ap (λ (i : TlbItem). i.marco) q ∙ m))
  where
    misma :
        (y z : TlbItem) → z ≡ y → z.pid ≡ pid → z.pagina ≡ pagina → es_entrada pid pagina y ≡ true
    misma y z w a b =
        let a' : y.pid ≡ pid = ap (λ (i : TlbItem). i.pid) (sym w) ∙ a in
        let b' : y.pagina ≡ pagina = ap (λ (i : TlbItem). i.pagina) (sym w) ∙ b in
        ground (arith, a', b')

module _ (swap : Swap) (o : Opciones) (cuentas : Cuenta o.ordenar_tlb) (pid pagina : ℕ)
    (h : 0 < pagina) where
  open swap use {Estado}

  abbrev AnotadaEn : Globales Estado × ℤ → Type 0
  AnotadaEn r = Anotada pid pagina r.1 (r.0).tlb.items

  abbrev Falta : List Marco → List TlbItem → Type 0
  Falta ms items = Ausente pid pagina items

  olvidar_marco-Ausente :
      (items : List TlbItem) (marco : ℤ)
      → Ausente pid pagina items
      → Cumple (Ausente pid pagina) (olvidar_marco items marco)
  unfolding olvidar_marco
  olvidar_marco-Ausente items marco z =
      Cumple-if _ (is_marco_in_tlb items marco) _ _
        (λ e.
          Cumple-bind_eq _ (get_tlb_item_by_marco_number items marco) _
            λ k f. vaciar-Ausente pid pagina h items k z)
        λ e. z

  ceder_marco-Ausente :
      (s : Globales Estado) (p : Pagina) (n m : ℕ)
      → Ausente pid pagina s.tlb.items
      → Cumple (λ r. Ausente pid pagina (r.0).tlb.items) (ceder_marco swap o s p n m)
  unfolding ceder_marco vaciar_marco_en_cache
  ceder_marco-Ausente s p n m z =
      Cumple-bind (λ t. Ausente pid pagina t.tlb.items) _ (vaciar_marco_en_cache o s p.marco) _
        (Cumple-bind_eq _ (indice p.marco) _ λ i e. Cumple-bind_eq _ (get_elem? s.marcos i) _ λ x f.
          Cumple-bind_eq _ (limpiar_marco o.config s.cache p.marco) _ λ c g.
            Cumple-bind _ _ (olvidar_marco s.tlb.items p.marco) _
              (olvidar_marco-Ausente s.tlb.items p.marco z) λ items v. v)
        λ t v. Cumple-bind_eq _ (get_marco_by_marco_number t.marcos p.marco) _ λ x e. v

  swampear_pagina-Ausente :
      (s : Globales Estado)
      → Ausente pid pagina s.tlb.items
      → Cumple (λ r. Ausente pid pagina (r.0).tlb.items) (swampear_pagina swap o s pid pagina)
  unfolding swampear_pagina
  swampear_pagina-Ausente s z =
      Cumple-bind _ _ (elegir_pagina o s pid) _ (elegir_pagina-Vale Falta o s pid z) λ r v.
        Cumple-if _ (pagina_is_in_cache (r.0).marcos (r.1).carpincho_pid (r.1).pagina) _ _
          (λ e.
            Cumple-bind _ _ (guardar_en_swap swap o (r.0) (r.1)) _
              (guardar_en_swap-Vale swap Falta o (r.0) (r.1) v)
              λ s2 v2.
                Cumple-bind _ _ (ceder_marco swap o s2 (r.1) pid pagina) _
                  (ceder_marco-Ausente s2 (r.1) pid pagina v2)
                  λ t v3.
                    Cumple-bind _ _ (lectura_swamp swap o (t.0) pid pagina (pos t.1)) _
                      (lectura_swamp-Vale swap Falta o (t.0) pid pagina (pos t.1) v3) λ u v4. v4)
          λ e. v

  traer_pagina-Ausente :
      (s : Globales Estado)
      → Ausente pid pagina s.tlb.items
      → Cumple (λ r. Ausente pid pagina (r.0).tlb.items) (traer_pagina swap o pid pagina s)
  unfolding traer_pagina
  traer_pagina-Ausente s z =
      Cumple-if _ (pagina_is_in_cache s.marcos pid pagina) _ _
        (λ e. Cumple-bind _ _ (tlb_miss pid s) _ (tlb_miss-Vale Falta pid s z) λ t v. v)
        λ e.
          Cumple-bind _ _ (tlb_hit pid s) _ (tlb_hit-Vale Falta pid s z)
            λ t v. swampear_pagina-Ausente t v

  con_tlb-Anotada :
      (s : Globales Estado) (marco : ℤ)
      → Ausente pid pagina s.tlb.items
      → Cumple AnotadaEn (con_tlb swap o pid pagina (s, marco))
  unfolding con_tlb
  con_tlb-Anotada s (pos i) z =
      Cumple-bind _ _
        (actualizar_tlb o.ordenar_tlb o.tlb_lru o.cantidad_entradas_tlb s.tlb pid pagina (pos i)) _
        (actualizar_tlb-EnTlb pid pagina h o.ordenar_tlb cuentas (pos i) o.tlb_lru
          o.cantidad_entradas_tlb s.tlb z refl)
        λ u v. v
  con_tlb-Anotada s (negsuc n) z =
      Cumple-bind_eq _
        (actualizar_tlb o.ordenar_tlb o.tlb_lru o.cantidad_entradas_tlb s.tlb pid pagina (negsuc n))
        _ λ u v. tt

  de_tlb-Anotada :
      (otra_vez : Globales Estado → Option (Globales Estado × ℤ)) (s : Globales Estado)
      → Coherente s.marcos s.tlb.items
      → pagina_is_in_tlb s.tlb.items pid pagina ≡ true
      → Cumple AnotadaEn (do
        s1 ← tlb_hit pid s
        (s2, marco) ← get_marco_de_tlb otra_vez pid pagina s1
        s3 ← if o.tlb_lru then fechar_tlb pid pagina s2 else some s2
        some (s3, marco))
  de_tlb-Anotada otra_vez s c e =
      Cumple-bind _ _ (tlb_hit pid s) _
        (tlb_hit-Vale (λ ms items. Coherente ms items × (pagina_is_in_tlb items pid pagina ≡ true))
          pid s (c, e))
        λ t v.
          (let (i, q, d, w) = get_marco_de_tlb-Tiene otra_vez pid pagina t v.0 v.1 h in
            rw q (
              Cumple-bind _ _ (if o.tlb_lru then fechar_tlb pid pagina t else some t) _
                (Cumple-if _ o.tlb_lru _ _ (λ l. fechar_tlb-EnTlb pid pagina (pos i) t w) λ l. w)
                λ r z. z))

  obtener_marco-Anotada :
      (n : ℕ) (s : Globales Estado)
      → Coherente s.marcos s.tlb.items
      → Cumple AnotadaEn (obtener_marco swap o n pid pagina s)
  unfolding obtener_marco
  obtener_marco-Anotada zero s c = tt
  obtener_marco-Anotada (suc n) s c =
      Cumple-if _ (pagina_is_in_tlb s.tlb.items pid pagina) _ _
        (λ e. de_tlb-Anotada (obtener_marco swap o n pid pagina) s c e)
        λ e.
          Cumple-bind _ _ (traer_pagina swap o pid pagina s) _
            (traer_pagina-Ausente s (sin_entrada s.tlb.items pid pagina e))
            λ r v. con_tlb-Anotada (r.0) (r.1) v

  pub ubicar_pagina-Anotada :
      (s : Globales Estado)
      → Coherente s.marcos s.tlb.items
      → Cumple AnotadaEn (ubicar_pagina swap o pid pagina s)
  unfolding ubicar_pagina obtener_marco_para_pagina
  ubicar_pagina-Anotada s c =
      Cumple-bind _ _ (fechar_si_esta o pid pagina s) _
        (fechar_si_esta-Coherente swap o cuentas pid pagina h s c)
        λ s1 c1.
          Cumple-bind _ _ (obtener_marco swap o (suc (length s1.tlb.items)) pid pagina s1) _
            (obtener_marco-Anotada (suc (length s1.tlb.items)) s1 c1)
            λ r c2.
              Cumple-bind _ _ (cambiar_pagina _ pid pagina (r.0)) _
                (cambiar_pagina-Vale (λ ms items. Anotada pid pagina (r.1) items) pid (r.0) c2 _
                  pagina)
                λ s3 c3.
                  Cumple-if _ (eq_ℤ (r.1) (negsuc 0)) _ _ (λ e. c3)
                    λ e.
                      Cumple-bind _ _ (cambiar_pagina _ pid pagina s3) _
                        (cambiar_pagina-Vale (λ ms items. Anotada pid pagina (r.1) items) pid s3 c3
                          _ pagina)
                        λ s4 c4. c4
