-- ===== src/Memoria/Coherencia/Conserva.antt =====
-- escribir_en_pagina of memoria/src/memory.c leaves the processes, their blocks and the numbers of
-- their pages as they were.
use exitos_con_esto.Prelude.{
  ℕ, zero, suc, ◌∙◌, inl, inr, true, false, not, ◌&&◌, List, ◌++◌, some, take, Option-cases, ℤ, pos,
  negsuc, eq_ℤ, get_elem?, length, if◌then◌else◌,
}
use exitos_con_esto.Memoria.Datos.{Alloc, Pagina}
use exitos_con_esto.Memoria.Tlb.{actualizar_tlb, pagina_is_in_tlb}
use exitos_con_esto.Memoria.Cache.{escribir_en_cache, limpiar_marco, retornar_contenido}
use exitos_con_esto.Memoria.Marcos.{
  Globales, Opciones, Swap, get_marco_by_marco_number, pagina_is_in_cache,
}
use exitos_con_esto.Memoria.Swampear.{
  cadena, ceder_marco, elegir_pagina, enviar_pagina, guardar_en_swap, indice, lectura_swamp,
  olvidar_marco, swampear_pagina, vaciar_marco_en_cache,
}
use exitos_con_esto.Memoria.Paginas.{
  accesible, cambiar_pagina, con_tlb, escribir_en_pagina, fechar_si_esta, fechar_tlb,
  get_marco_de_tlb, marcar, obtener_marco, obtener_marco_para_pagina, tlb_hit, tlb_miss,
  traer_pagina, ubicar_pagina,
}
use exitos_con_esto.Memoria.Cuentas.{Cumple, Cumple-bind, Cumple-bind_eq, Cumple-if}
use exitos_con_esto.Memoria.Coherencia.Forma.{
  Con, cambiar_pagina-Con, elegir_pagina-Con, fechar_tlb-Con, forma-asentar_pagina,
  get_marco_de_tlb-Con, marcar-Con, tlb_hit-Con, tlb_miss-Con,
}

module _ (swap : Swap) (o : Opciones) (f : List (ℕ × List Alloc × List (ℕ × ℕ))) where
  open swap use {Estado, leer}

  abbrev ConR : {A : Type 0} → Globales Estado × A → Type 0
  ConR r = Con f (r.0)

  vaciar_marco_en_cache-Con :
      (s : Globales Estado) (marco : ℤ) → Con f s → Cumple (Con f) (vaciar_marco_en_cache o s marco)
  unfolding vaciar_marco_en_cache
  vaciar_marco_en_cache-Con s marco v = Cumple-bind_eq _ (indice marco) _ λ i e.
      Cumple-bind_eq _ (get_elem? s.marcos i) _ λ m g.
        Cumple-bind_eq _ (limpiar_marco o.config s.cache marco) _
          λ c h. Cumple-bind_eq _ (olvidar_marco s.tlb.items marco) _ λ items k. v

  ceder_marco-Con :
      (s : Globales Estado) (p : Pagina) (pid pagina : ℕ)
      → Con f s
      → Cumple ConR (ceder_marco swap o s p pid pagina)
  unfolding ceder_marco
  ceder_marco-Con s p pid pagina v =
      Cumple-bind _ _ (vaciar_marco_en_cache o s p.marco) _ (vaciar_marco_en_cache-Con s p.marco v)
        λ t w. Cumple-bind_eq _ (get_marco_by_marco_number t.marcos p.marco) _ λ m e.
          forma-asentar_pagina (record p { bit_presencia = false; marco = pos 0 })
            t.carpinchos.lista
          ∙ w

  guardar_en_swap-Con :
      (s : Globales Estado) (p : Pagina) → Con f s → Cumple (Con f) (guardar_en_swap swap o s p)
  unfolding guardar_en_swap enviar_pagina
  guardar_en_swap-Con s p v =
      Cumple-if _ (o.m_clock && not p.bit_de_modificacion) _ _ (λ h. v)
        λ h. Cumple-bind_eq _ (retornar_contenido o.config s.cache p.marco 0 _) _ λ leido e.
          Cumple-bind_eq _ leido _
            λ bytes g. Cumple-bind_eq _ (cadena (bytes ++ swap.detras s.swap)) _ λ msg k. v

  lectura_swamp-Con :
      (s : Globales Estado) (pid pagina : ℕ) (marco : ℤ)
      → Con f s
      → Cumple ConR (lectura_swamp swap o s pid pagina marco)
  unfolding lectura_swamp
  lectura_swamp-Con s pid pagina marco v = elim (Option-cases (leer s.swap pid pagina).1) [
    | inl e ↦ rw (e, lectura_swamp) v
    | inr (bytes, e) ↦
        rw (e, lectura_swamp)
          (Cumple-bind_eq _
            (escribir_en_cache o.config s.cache marco (take o.config.tamanio_pagina bytes) 0) _
            λ c g. v)
  ]

  swampear_pagina-Con :
      (s : Globales Estado) (pid pagina : ℕ)
      → Con f s
      → Cumple ConR (swampear_pagina swap o s pid pagina)
  unfolding swampear_pagina
  swampear_pagina-Con s pid pagina v =
      Cumple-bind _ _ (elegir_pagina o s pid) _ (elegir_pagina-Con f o s pid v) λ r w.
        Cumple-if _ (pagina_is_in_cache (r.0).marcos (r.1).carpincho_pid (r.1).pagina) _ _
          (λ e.
            Cumple-bind _ _ (guardar_en_swap swap o (r.0) (r.1)) _
              (guardar_en_swap-Con (r.0) (r.1) w)
              λ s2 w2.
                Cumple-bind _ _ (ceder_marco swap o s2 (r.1) pid pagina) _
                  (ceder_marco-Con s2 (r.1) pid pagina w2)
                  λ t w3.
                    Cumple-bind _ _ (lectura_swamp swap o (t.0) pid pagina (pos t.1)) _
                      (lectura_swamp-Con (t.0) pid pagina (pos t.1) w3) λ u w4. w4)
          λ e. w

  module _ (pid pagina : ℕ) where
    traer_pagina-Con :
        (s : Globales Estado) → Con f s → Cumple ConR (traer_pagina swap o pid pagina s)
    unfolding traer_pagina
    traer_pagina-Con s v =
        Cumple-if _ (pagina_is_in_cache s.marcos pid pagina) _ _
          (λ e. Cumple-bind _ _ (tlb_miss pid s) _ (tlb_miss-Con f pid s v) λ t w. w)
          λ e.
            Cumple-bind _ _ (tlb_hit pid s) _ (tlb_hit-Con f pid s v)
              λ t w. swampear_pagina-Con t pid pagina w

    con_tlb-Con :
        (s : Globales Estado) (marco : ℤ)
        → Con f s
        → Cumple ConR (con_tlb swap o pid pagina (s, marco))
    unfolding con_tlb
    con_tlb-Con s marco v =
        Cumple-bind_eq _
          (actualizar_tlb o.ordenar_tlb o.tlb_lru o.cantidad_entradas_tlb s.tlb pid pagina marco) _
          λ t e. v

    obtener_marco-Con :
        (n : ℕ) (s : Globales Estado) → Con f s → Cumple ConR (obtener_marco swap o n pid pagina s)
    unfolding obtener_marco
    obtener_marco-Con zero s v = tt
    obtener_marco-Con (suc n) s v =
        Cumple-if _ (pagina_is_in_tlb s.tlb.items pid pagina) _ _
          (λ e. Cumple-bind _ _ (tlb_hit pid s) _ (tlb_hit-Con f pid s v) λ t w.
            Cumple-bind _ _ (get_marco_de_tlb (obtener_marco swap o n pid pagina) pid pagina t) _
              (get_marco_de_tlb-Con f (obtener_marco swap o n pid pagina) pid pagina t
                (obtener_marco-Con n) w)
              λ r w2.
                Cumple-bind _ _ (if o.tlb_lru then fechar_tlb pid pagina (r.0) else some (r.0)) _
                  (Cumple-if (Con f) o.tlb_lru _ _ (λ l. fechar_tlb-Con f pid pagina (r.0) w2)
                    λ l. w2)
                  λ u w3. w3)
          λ e.
            Cumple-bind _ _ (traer_pagina swap o pid pagina s) _ (traer_pagina-Con s v)
              λ r w. con_tlb-Con (r.0) (r.1) w

    ubicar_pagina-Con :
        (s : Globales Estado) → Con f s → Cumple ConR (ubicar_pagina swap o pid pagina s)
    unfolding ubicar_pagina fechar_si_esta obtener_marco_para_pagina
    ubicar_pagina-Con s v =
        Cumple-bind _ _ (fechar_si_esta o pid pagina s) _
          (Cumple-if (Con f) (pagina_is_in_tlb s.tlb.items pid pagina && o.tlb_lru) _ _
            (λ e. fechar_tlb-Con f pid pagina s v) λ e. v)
          λ s1 w1.
            Cumple-bind _ _ (obtener_marco_para_pagina swap o pid pagina s1) _
              (obtener_marco-Con (suc (length s1.tlb.items)) s1 w1)
              λ r w2.
                Cumple-bind _ _ (cambiar_pagina _ pid pagina (r.0)) _
                  (cambiar_pagina-Con f _ pid pagina (r.0) w2)
                  λ s3 w3.
                    Cumple-if _ (eq_ℤ (r.1) (negsuc 0)) _ _ (λ e. w3)
                      λ e.
                        Cumple-bind _ _ (cambiar_pagina _ pid pagina s3) _
                          (cambiar_pagina-Con f _ pid pagina s3 w3) λ s4 w4. w4

    pub escribir_en_pagina-Con :
        (buffer : List ℕ) (offset : ℕ) (s : Globales Estado)
        → Con f s
        → Cumple ConR (escribir_en_pagina swap o pid pagina buffer offset s)
    unfolding escribir_en_pagina
    escribir_en_pagina-Con buffer offset s v =
        Cumple-bind _ _ (ubicar_pagina swap o pid pagina s) _ (ubicar_pagina-Con s v) λ r w.
          Cumple-if _ (not (eq_ℤ (r.1) (negsuc 0)) && accesible swap o pid pagina (r.0)) _ _
            (λ e.
              Cumple-bind_eq _ (escribir_en_cache o.config (r.0).cache (r.1) buffer offset) _ λ q g.
                Cumple-bind _ _ (marcar o true pid pagina (record (r.0) { cache = q.0 })) _
                  (marcar-Con f o true pid pagina (record (r.0) { cache = q.0 }) w) λ s2 w2. w2)
            λ e. w
