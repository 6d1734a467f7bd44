-- ===== src/Memoria/Coherencia/Operaciones.antt =====
-- obtener_marco_para_pagina, leer_en_pagina, escribir_en_pagina, create_pagina and vaciar_pagina of
-- memoria/src/memory.c keep the frames and the TLB in agreement.
use mathlib.Core.Path.{subst}
use exitos_con_esto.Prelude.{
  ℕ, zero, suc, ◌<◌, ◌≡◌, sym, true, Option, some, ℤ, pos, negsuc, if◌then◌else◌, ◌>>=◌, length,
}
use exitos_con_esto.Memoria.Tlb.{actualizar_tlb, pagina_is_in_tlb}
use exitos_con_esto.Memoria.Marcos.{Globales, Opciones, Swap, pagina_is_in_cache}
use exitos_con_esto.Memoria.Paginas.{
  con_tlb, fechar_tlb, get_marco_de_tlb, obtener_marco, obtener_marco_para_pagina, tlb_hit,
  tlb_miss, traer_pagina,
}
use exitos_con_esto.Memoria.Cuentas.{Cumple, Cumple-bind, Cumple-if, Cumple-mono}
use exitos_con_esto.Memoria.Coherencia.{Coherente, Ubicada}
use exitos_con_esto.Memoria.Coherencia.Cargar.{Cuenta, actualizar_tlb-Coherente}
use exitos_con_esto.Memoria.Coherencia.Ceder.{Encontrada, swampear_pagina-Encontrada}
use exitos_con_esto.Memoria.Coherencia.Obtener.{
  en_memoria-Tiene, fechar_tlb-Coherente, get_marco_de_tlb-Tiene, tlb_hit-Vale, tlb_miss-Vale,
}

module _ (swap : Swap) (o : Opciones) (cuentas : Cuenta o.ordenar_tlb) (pid pagina : ℕ)
    (h : 0 < pagina) where
  open swap use {Estado}

  -- The page is found, and all agree.
  abbrev Hallada : Globales Estado × ℤ → Type 0
  Hallada r = Encontrada pid pagina r.1 (r.0).marcos (r.0).tlb.items

  traer_pagina-Hallada :
      (s : Globales Estado)
      → Coherente s.marcos s.tlb.items
      → Cumple Hallada (traer_pagina swap o pid pagina s)
  unfolding traer_pagina
  traer_pagina-Hallada s c =
      Cumple-if _ (pagina_is_in_cache s.marcos pid pagina) _ _
        (λ e.
          Cumple-bind _ _ (tlb_miss pid s) _
            (tlb_miss-Vale
              (λ ms items. Coherente ms items × (pagina_is_in_cache ms pid pagina ≡ true)) pid s
              (c, e))
            λ t v.
              (let (i, q, d) = en_memoria-Tiene t.marcos pid pagina (v.0).bien h v.1 in
                rw q (v.0, d)))
        λ e.
          Cumple-bind _ _ (tlb_hit pid s) _ (tlb_hit-Vale Coherente pid s c)
            λ t v. swampear_pagina-Encontrada swap o t pid pagina v

  con_tlb-Hallada :
      (s : Globales Estado) (marco : ℤ)
      → Encontrada pid pagina marco s.marcos s.tlb.items
      → Cumple Hallada (con_tlb swap o pid pagina (s, marco))
  unfolding con_tlb
  con_tlb-Hallada s (pos i) (c, t) =
      let (m, g, f, d) = t in
      Cumple-bind _ _
        (actualizar_tlb o.ordenar_tlb o.tlb_lru o.cantidad_entradas_tlb s.tlb pid pagina (pos i)) _
        (actualizar_tlb-Coherente o.ordenar_tlb cuentas s.marcos pid pagina i m g f d o.tlb_lru
          o.cantidad_entradas_tlb s.tlb c)
        λ u c'. (c', t)
  con_tlb-Hallada s (negsuc zero) (c, t) = (c, tt)
  con_tlb-Hallada s (negsuc (suc n)) (c, t) = absurd t

  fechar_hallada :
      (s : Globales Estado) (marco : ℤ)
      → Encontrada pid pagina marco s.marcos s.tlb.items
      → Cumple
          (λ r. Encontrada pid pagina marco r.marcos r.tlb.items)
          (if o.tlb_lru then fechar_tlb pid pagina s else some s)
  fechar_hallada s marco e =
      Cumple-if _ o.tlb_lru _ _
        (λ l.
          Cumple-mono _ _ (fechar_tlb pid pagina s) (fechar_tlb-Coherente pid pagina s e.0)
            λ r v. (v.0, subst (λ ms. Ubicada ms marco pid pagina) (sym v.1) e.1))
        λ l. e

  de_tlb-Hallada :
      (otra_vez : Globales Estado → Option (Globales Estado × ℤ)) (s : Globales Estado)
      → Coherente s.marcos s.tlb.items
      → pagina_is_in_tlb s.tlb.items pid pagina ≡ true
      → Cumple Hallada (do
        s1 ← tlb_hit pid s
        (s2, marco) ← get_marco_de_tlb otra_vez pid pagina s1
        s3 ← if o.tlb_lru then fechar_tlb pid pagina s2 else some s2
        some (s3, marco))
  de_tlb-Hallada otra_vez s c e =
      Cumple-bind _ _ (tlb_hit pid s) _
        (tlb_hit-Vale (λ ms items. Coherente ms items × (pagina_is_in_tlb items pid pagina ≡ true))
          pid s (c, e))
        λ t v.
          (let (i, q, d, w') = get_marco_de_tlb-Tiene otra_vez pid pagina t v.0 v.1 h in
            rw q (
              Cumple-bind _ _ (if o.tlb_lru then fechar_tlb pid pagina t else some t) _
                (fechar_hallada t (pos i) (v.0, d)) λ r w. w))

  -- On any fuel.
  obtener_marco-Hallada :
      (n : ℕ) (s : Globales Estado)
      → Coherente s.marcos s.tlb.items
      → Cumple Hallada (obtener_marco swap o n pid pagina s)
  unfolding obtener_marco
  obtener_marco-Hallada zero s c = tt
  obtener_marco-Hallada (suc n) s c =
      Cumple-if _ (pagina_is_in_tlb s.tlb.items pid pagina) _ _
        (λ e. de_tlb-Hallada (obtener_marco swap o n pid pagina) s c e)
        λ e.
          Cumple-bind _ _ (traer_pagina swap o pid pagina s) _ (traer_pagina-Hallada s c)
            λ r v. con_tlb-Hallada (r.0) (r.1) v

  -- obtener_marco_para_pagina
  pub obtener_marco_para_pagina-Hallada :
      (s : Globales Estado)
      → Coherente s.marcos s.tlb.items
      → Cumple Hallada (obtener_marco_para_pagina swap o pid pagina s)
  unfolding obtener_marco_para_pagina
  obtener_marco_para_pagina-Hallada s c = obtener_marco-Hallada (suc (length s.tlb.items)) s c
