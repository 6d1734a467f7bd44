-- ===== src/Memoria/Swampear.antt =====
-- Page replacement in memoria/src/memory.c: a page goes to the swap process, and its frame to
-- another (swampear_pagina, swampear_pagina_when_create_page). `none` is a fault.
use exitos_con_esto.Prelude.{
  ℕ, suc, Bool, true, false, not, ◌&&◌, List, [], ◌∷◌, ◌++◌, Option, none, some, ltb, ◌==◌,
  if◌then◌else◌, ◌>>=◌, ℤ, pos, negsuc, eq_ℤ, get_elem?, set, take,
}
use exitos_con_esto.Memoria.Datos.{Carpincho, Pagina}
use exitos_con_esto.Memoria.Carpinchos.{buscar, reemplazar}
use exitos_con_esto.Memoria.Tlb.{TlbItem, is_marco_in_tlb, vaciar_pagina_tlb}
use exitos_con_esto.Memoria.Reloj.{m_clock, menor_marco}
use exitos_con_esto.Memoria.Cache.{escribir_en_cache, limpiar_marco, retornar_contenido}
use exitos_con_esto.Memoria.Marcos.{
  Globales, Marco, Opciones, Swap, get_all_pages_in_cache, get_marco_by_marco_number,
  get_pages_in_cache_by_carpincho_pid, guardar_marco, asentar_pagina, asentar_paginas,
  pagina_is_in_cache,
}

-- A list_get of a signed index: NULL for a negative one.
abbrev pub indice : ℤ → Option ℕ
indice (pos i) = some i
indice (negsuc n) = none

-- The position of the entry that get_tlb_item_by_marco_number gives.
unfoldable pub get_tlb_item_by_marco_number : List TlbItem → ℤ → Option ℕ
get_tlb_item_by_marco_number [] marco = none
get_tlb_item_by_marco_number (x ∷ xs) marco =
    if eq_ℤ x.marco marco
    then some 0
    else (get_tlb_item_by_marco_number xs marco >>= λ i. some (suc i))

-- Its part on the TLB.
unfoldable pub olvidar_marco : List TlbItem → ℤ → Option (List TlbItem)
unfolding is_marco_in_tlb get_tlb_item_by_marco_number vaciar_pagina_tlb
olvidar_marco items marco =
    if is_marco_in_tlb items marco
    then (get_tlb_item_by_marco_number items marco >>= λ k. vaciar_pagina_tlb items k)
    else some items

abbrev pub libre : Marco → Marco
libre m = record m { is_free = true; pagina = 0; pid = 0 }

abbrev pub pagina_mas_vieja : Pagina → Pagina → Bool
pagina_mas_vieja a b = ltb a.timestamp b.timestamp

unfoldable pub get_proxima_a_swampear_by_lru : Opciones → List Pagina → Option Pagina
get_proxima_a_swampear_by_lru o paginas = get_elem? (o.ordenar_paginas pagina_mas_vieja paginas) 0

module _ {Sw : Type 0} where
  -- The frame is taken by its index in the list.
  unfoldable pub vaciar_marco_en_cache : Opciones → Globales Sw → ℤ → Option (Globales Sw)
  unfolding limpiar_marco olvidar_marco
  vaciar_marco_en_cache o s marco = do
    i ← indice marco
    m ← get_elem? s.marcos i
    cache ← limpiar_marco o.config s.cache marco
    items ← olvidar_marco s.tlb.items marco
    some (record s {
      cache = cache;
      tlb = record (s.tlb) { items = items };
      marcos = set s.marcos i (libre m);
    })

  abbrev pub con_lista : List Carpincho → Globales Sw → Globales Sw
  con_lista cs s = record s { carpinchos = record (s.carpinchos) { lista = cs } }

  -- The pointer of the clock is that of the process of the first page, or the global one.
  unfoldable pub get_proxima_a_swampear_by_m_clock :
      Opciones → Globales Sw → List Pagina → Option (Globales Sw × Pagina)
  unfolding m_clock buscar reemplazar asentar_paginas
  get_proxima_a_swampear_by_m_clock o s paginas =
      let ps = o.ordenar_paginas menor_marco paginas in
      let lista = s.carpinchos.lista in
      if o.config.fija
      then (do
        primera ← get_elem? ps 0
        c ← buscar lista primera.carpincho_pid
        (qs, p, ptr) ← m_clock c.algoritm_stack_pointer ps
        c' ← buscar (asentar_paginas qs lista) primera.carpincho_pid
        some (
          con_lista
              (reemplazar (asentar_paginas qs lista) (record c' { algoritm_stack_pointer = ptr }))
              s,
          p,
        ))
      else (do
        (qs, p, ptr) ← m_clock s.algoritm_stack_pointer ps
        some (record (con_lista (asentar_paginas qs lista) s) { algoritm_stack_pointer = ptr }, p))

  -- The choice of the page that goes: both functions start with it.
  unfoldable pub elegir_pagina : Opciones → Globales Sw → ℕ → Option (Globales Sw × Pagina)
  unfolding get_proxima_a_swampear_by_lru get_proxima_a_swampear_by_m_clock
      get_pages_in_cache_by_carpincho_pid get_all_pages_in_cache
  elegir_pagina o s carpincho = do
    paginas ←
        if o.config.fija
        then get_pages_in_cache_by_carpincho_pid s.marcos s.carpinchos.lista carpincho
        else some (get_all_pages_in_cache s.carpinchos.lista)
    if o.m_clock
        then get_proxima_a_swampear_by_m_clock o s paginas
        else (get_proxima_a_swampear_by_lru o paginas >>= λ p. some (s, p))

-- strlen(msg) + 1 bytes from `msg` on: without a 0 the read does not end in memory of its own.
unfoldable pub cadena : List ℕ → Option (List ℕ)
cadena [] = none
cadena (b ∷ bs) = if b == 0 then some (0 ∷ []) else (cadena bs >>= λ r. some (b ∷ r))

module _ (swap : Swap) where
  open swap use {Estado, escribir, leer, detras}

  -- enviar_escritura_swap with the page that retornar_contenido gives.
  unfoldable pub enviar_pagina : Opciones → Globales Estado → Pagina → Option (Globales Estado)
  unfolding retornar_contenido cadena
  enviar_pagina o s p = do
    leido ← retornar_contenido o.config s.cache p.marco 0 o.config.tamanio_pagina
    bytes ← leido
    msg ← cadena (bytes ++ detras s.swap)
    some (record s { swap = escribir s.swap p.carpincho_pid p.pagina msg })

  -- Under M-CLOCK a page that was not modified is not sent.
  unfoldable pub guardar_en_swap : Opciones → Globales Estado → Pagina → Option (Globales Estado)
  unfolding enviar_pagina
  guardar_en_swap o s p =
      if o.m_clock && not p.bit_de_modificacion then some s else enviar_pagina o s p

  -- The frame of the page goes to the page `pagina` of `carpincho`.
  unfoldable pub ceder_marco :
      Opciones → Globales Estado → Pagina → ℕ → ℕ → Option (Globales Estado × ℕ)
  unfolding vaciar_marco_en_cache get_marco_by_marco_number
  ceder_marco o s p carpincho pagina = do
    s' ← vaciar_marco_en_cache o s p.marco
    m ← get_marco_by_marco_number s'.marcos p.marco
    let cs = asentar_pagina (record p { bit_presencia = false; marco = pos 0 }) s'.carpinchos.lista
    let marcos =
        guardar_marco (record m { pagina = pagina; pid = carpincho; is_free = false }) s'.marcos
    some (record (con_lista cs s') { marcos = marcos }, m.marco)

  -- `leer` gives as many bytes as a page has; what escribir_en_cache returns is not looked at.
  unfoldable pub lectura_swamp :
      Opciones → Globales Estado → ℕ → ℕ → ℤ → Option (Globales Estado × ℤ)
  unfolding escribir_en_cache
  lectura_swamp o s pid pagina marco =
      let r = leer s.swap pid pagina in
      let s' = record s { swap = r.0 } in
      elim (r.1) [
        | none ↦ some (s', negsuc 0)
        | some bytes ↦
            escribir_en_cache o.config s.cache marco (take o.config.tamanio_pagina bytes) 0 >>= λ c.
            some (record s' { cache = c.0 }, pos 0)
      ]

  unfoldable pub swampear_pagina : Opciones → Globales Estado → ℕ → ℕ → Option (Globales Estado × ℤ)
  unfolding elegir_pagina guardar_en_swap ceder_marco lectura_swamp pagina_is_in_cache
  swampear_pagina o s carpincho pagina = do
    (s1, p) ← elegir_pagina o s carpincho
    let seguir = do
      s2 ← guardar_en_swap o s1 p
      (s3, marco) ← ceder_marco o s2 p carpincho pagina
      (s4, r) ← lectura_swamp o s3 carpincho pagina (pos marco)
      some (s4, if eq_ℤ r (negsuc 0) then negsuc 0 else pos marco)
    if pagina_is_in_cache s1.marcos p.carpincho_pid p.pagina then seguir else some (s1, negsuc 0)

  unfoldable pub swampear_pagina_when_create_page :
      Opciones → Globales Estado → ℕ → ℕ → Option (Globales Estado × ℕ)
  unfolding elegir_pagina guardar_en_swap ceder_marco
  swampear_pagina_when_create_page o s carpincho pagina = do
    (s1, p) ← elegir_pagina o s carpincho
    s2 ← guardar_en_swap o s1 p
    ceder_marco o s2 p carpincho pagina
