-- ===== src/Memoria/Coherencia/Accesos.antt =====
-- leer_en_pagina, escribir_en_pagina and vaciar_pagina of memoria/src/memory.c keep the frames and
-- the TLB in agreement.
use exitos_con_esto.Prelude.{ℕ, ◌+◌, ◌<◌, Bool, true, false, not, ◌&&◌, List, ℤ, pos, negsuc, eq_ℤ}
use exitos_con_esto.Memoria.Cache.{escribir_en_cache, retornar_contenido}
use exitos_con_esto.Memoria.Tlb.{TlbItem, pagina_is_in_tlb}
use exitos_con_esto.Memoria.Marcos.{Globales, Marco, Opciones, Swap}
use exitos_con_esto.Memoria.Swampear.{vaciar_marco_en_cache}
use exitos_con_esto.Memoria.Paginas.{
  accesible, cambiar_pagina, escribir_en_pagina, fechar_si_esta, fechar_tlb, get_page_by_ints,
  leer_en_pagina, marcar, obtener_marco_para_pagina, ubicar_pagina, vaciar_pagina,
}
use exitos_con_esto.Memoria.Cuentas.{Cumple, Cumple-bind, Cumple-bind_eq, Cumple-if, Cumple-mono}
use exitos_con_esto.Memoria.Coherencia.{Coherente}
use exitos_con_esto.Memoria.Coherencia.Cargar.{Cuenta}
use exitos_con_esto.Memoria.Coherencia.Ceder.{Encontrada, Vaciado, vaciar_marco_en_cache-Vaciado}
use exitos_con_esto.Memoria.Coherencia.Obtener.{cambiar_pagina-Vale, fechar_tlb-Coherente}
use exitos_con_esto.Memoria.Coherencia.Operaciones.{obtener_marco_para_pagina-Hallada}

marcar-Vale :
    {Sw : Type 0} (P : List Marco → List TlbItem → Type 0) (o : Opciones) (escritura : Bool)
    (pid pagina : ℕ) (s : Globales Sw)
    → P s.marcos s.tlb.items
    → Cumple (λ r. P r.marcos r.tlb.items) (marcar o escritura pid pagina s)
unfolding marcar
marcar-Vale P o escritura pid pagina s v =
    Cumple-if _ o.m_clock _ _ (λ e. cambiar_pagina-Vale P pid s v _ pagina)
      λ e.
        cambiar_pagina-Vale P pid (record s { contador_timestamp = s.contador_timestamp + 1 }) v _
          pagina

Vaciado-Coherente :
    (marco : ℤ) (ms : List Marco) (items : List TlbItem)
    → Vaciado marco ms items
    → Coherente ms items
Vaciado-Coherente (pos i) ms items v = v.0
Vaciado-Coherente (negsuc n) ms items v = absurd v

-- vaciar_pagina
pub vaciar_pagina-Coherente :
    {Sw : Type 0} (o : Opciones) (pid pagina : ℕ) (s : Globales Sw)
    → Coherente s.marcos s.tlb.items
    → Cumple (λ r. Coherente (r.0).marcos (r.0).tlb.items) (vaciar_pagina o pid pagina s)
unfolding vaciar_pagina
vaciar_pagina-Coherente o pid pagina s c = Cumple-bind_eq _ (get_page_by_ints s pid pagina) _ λ p e.
    Cumple-if _ p.bit_presencia _ _
      (λ h.
        Cumple-bind _ _ (vaciar_marco_en_cache o s p.marco) _
          (vaciar_marco_en_cache-Vaciado o s p.marco c)
          λ t v.
            Cumple-bind _ _ (cambiar_pagina _ pid pagina t) _
              (cambiar_pagina-Vale Coherente pid t
                (Vaciado-Coherente p.marco t.marcos t.tlb.items v) _ pagina)
              λ u w. w)
      λ h. c

module _ (swap : Swap) (o : Opciones) (cuentas : Cuenta o.ordenar_tlb) (pid pagina : ℕ)
    (h : 0 < pagina) where
  open swap use {Estado}

  pub fechar_si_esta-Coherente :
      (s : Globales Estado)
      → Coherente s.marcos s.tlb.items
      → Cumple (λ r. Coherente r.marcos r.tlb.items) (fechar_si_esta o pid pagina s)
  unfolding fechar_si_esta
  fechar_si_esta-Coherente s c =
      Cumple-if _ (pagina_is_in_tlb s.tlb.items pid pagina && o.tlb_lru) _ _
        (λ e.
          Cumple-mono _ _ (fechar_tlb pid pagina s) (fechar_tlb-Coherente pid pagina s c)
            λ r v. v.0)
        λ e. c

  -- The frame of the page, before a read or a write.
  pub ubicar_pagina-Encontrada :
      (s : Globales Estado)
      → Coherente s.marcos s.tlb.items
      → Cumple
          (λ r. Encontrada pid pagina r.1 (r.0).marcos (r.0).tlb.items)
          (ubicar_pagina swap o pid pagina s)
  unfolding ubicar_pagina
  ubicar_pagina-Encontrada s c =
      Cumple-bind _ _ (fechar_si_esta o pid pagina s) _ (fechar_si_esta-Coherente s c) λ s1 c1.
        Cumple-bind _ _ (obtener_marco_para_pagina swap o pid pagina s1) _
          (obtener_marco_para_pagina-Hallada swap o cuentas pid pagina h s1 c1)
          λ r c2.
            Cumple-bind _ _ (cambiar_pagina _ pid pagina (r.0)) _
              (cambiar_pagina-Vale (Encontrada pid pagina (r.1)) pid (r.0) c2 _ pagina)
              λ s3 c3.
                Cumple-if _ (eq_ℤ (r.1) (negsuc 0)) _ _ (λ e. c3)
                  λ e.
                    Cumple-bind _ _ (cambiar_pagina _ pid pagina s3) _
                      (cambiar_pagina-Vale (Encontrada pid pagina (r.1)) pid s3 c3 _ pagina)
                      λ s4 c4. c4

  pub leer_en_pagina-Coherente :
      (tamanio offset : ℕ) (s : Globales Estado)
      → Coherente s.marcos s.tlb.items
      → Cumple
          (λ r. Coherente (r.0).marcos (r.0).tlb.items)
          (leer_en_pagina swap o pid pagina tamanio offset s)
  unfolding leer_en_pagina
  leer_en_pagina-Coherente tamanio offset s c =
      Cumple-bind _ _ (ubicar_pagina swap o pid pagina s) _ (ubicar_pagina-Encontrada s c) λ r c1.
        Cumple-if _ (not (eq_ℤ (r.1) (negsuc 0)) && accesible swap o pid pagina (r.0)) _ _
          (λ e.
            Cumple-bind_eq _ (retornar_contenido o.config (r.0).cache (r.1) offset tamanio) _
              λ result f.
                Cumple-bind _ _ (marcar o false pid pagina (r.0)) _
                  (marcar-Vale Coherente o false pid pagina (r.0) c1.0) λ s2 c2. c2)
          λ e. c1.0

  pub escribir_en_pagina-Coherente :
      (buffer : List ℕ) (offset : ℕ) (s : Globales Estado)
      → Coherente s.marcos s.tlb.items
      → Cumple
          (λ r. Coherente (r.0).marcos (r.0).tlb.items)
          (escribir_en_pagina swap o pid pagina buffer offset s)
  unfolding escribir_en_pagina
  escribir_en_pagina-Coherente buffer offset s c =
      Cumple-bind _ _ (ubicar_pagina swap o pid pagina s) _ (ubicar_pagina-Encontrada s c) λ r c1.
        Cumple-if _ (not (eq_ℤ (r.1) (negsuc 0)) && accesible swap o pid pagina (r.0)) _ _
          (λ e.
            Cumple-bind_eq _ (escribir_en_cache o.config (r.0).cache (r.1) buffer offset) _ λ q f.
              Cumple-bind _ _ (marcar o true pid pagina (record (r.0) { cache = q.0 })) _
                (marcar-Vale Coherente o true pid pagina (record (r.0) { cache = q.0 }) c1.0)
                λ s2 c2. c2)
          λ e. c1.0
