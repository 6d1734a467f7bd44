-- ===== src/Memoria/Paginas.antt =====
-- The pages of memoria/src/memory.c: create_pagina, obtener_marco_para_pagina, leer_en_pagina and
-- escribir_en_pagina. A pointer to a page is a pid and the number of the page. `none` is a fault.
use exitos_con_esto.Prelude.{
  ℕ, zero, suc, ◌+◌, Bool, true, false, not, ◌&&◌, List, [], ◌∷◌, ◌++◌, Option, none, some, ltb,
  leb, ◌==◌, if◌then◌else◌, ◌>>=◌, ℤ, pos, negsuc, eq_ℤ, get_elem?, set, length,
}
use exitos_con_esto.Memoria.Datos.{Carpincho, Pagina}
use exitos_con_esto.Memoria.Metadatos.{get_page}
use exitos_con_esto.Memoria.Carpinchos.{buscar, reemplazar}
use exitos_con_esto.Memoria.Tlb.{TlbItem, actualizar_tlb, pagina_is_in_tlb, vaciar_pagina_tlb}
use exitos_con_esto.Memoria.Cache.{escribir_en_cache, retornar_contenido}
use exitos_con_esto.Memoria.Marcos.{
  Globales, Marco, Opciones, Swap, amount_frame_used_by_carpincho, any_marco_free, es_de,
  get_all_pages_in_cache, get_amount_marcos, get_free_marco, get_marco_by_marco_number,
  guardar_marco, asentar_pagina, obtener_marco_de_cache, pagina_is_in_cache,
}
use exitos_con_esto.Memoria.Swampear.{
  con_lista, swampear_pagina, swampear_pagina_when_create_page, vaciar_marco_en_cache,
}

-- The position of the entry that get_tlb_item gives.
unfoldable pub get_tlb_item : List TlbItem → ℕ → ℕ → Option ℕ
get_tlb_item [] pid pagina = none
get_tlb_item (x ∷ xs) pid pagina =
    if x.pagina == pagina && x.pid == pid
    then some 0
    else (get_tlb_item xs pid pagina >>= λ i. some (suc i))

module _ {Sw : Type 0} where
  -- get_page_by_ints.
  unfoldable pub get_page_by_ints : Globales Sw → ℕ → ℕ → Option Pagina
  unfolding buscar get_page
  get_page_by_ints s pid pagina = do
    c ← buscar s.carpinchos.lista pid
    get_page c.paginas pid pagina

  -- Writes to the fields of a page.
  unfoldable pub cambiar_pagina : (Pagina → Pagina) → ℕ → ℕ → Globales Sw → Option (Globales Sw)
  unfolding get_page_by_ints asentar_pagina
  cambiar_pagina f pid pagina s = do
    p ← get_page_by_ints s pid pagina
    some (con_lista (asentar_pagina (f p) s.carpinchos.lista) s)

  unfoldable pub can_carpincho_add_marco_to_page : Opciones → Globales Sw → Carpincho → Bool
  unfolding get_all_pages_in_cache get_amount_marcos any_marco_free amount_frame_used_by_carpincho
  can_carpincho_add_marco_to_page o s c =
      leb (length (get_all_pages_in_cache s.carpinchos.lista)) (get_amount_marcos o)
      && any_marco_free s.marcos
      && (if o.dinamica
          then true
          else ltb (amount_frame_used_by_carpincho s.marcos c.pid) o.config.marcos_por_carpincho)

  unfoldable pub tlb_hit : ℕ → Globales Sw → Option (Globales Sw)
  unfolding buscar reemplazar
  tlb_hit pid s = do
    c ← buscar s.carpinchos.lista pid
    let cs = reemplazar s.carpinchos.lista (record c { tlb_hits = c.tlb_hits + 1 })
    some (record (con_lista cs s) { tlb_hits_totales = s.tlb_hits_totales + 1 })

  unfoldable pub tlb_miss : ℕ → Globales Sw → Option (Globales Sw)
  unfolding buscar reemplazar
  tlb_miss pid s = do
    c ← buscar s.carpinchos.lista pid
    let cs = reemplazar s.carpinchos.lista (record c { tlb_miss = c.tlb_miss + 1 })
    some (record (con_lista cs s) { tlb_miss_totales = s.tlb_miss_totales + 1 })

  -- get_tlb_item(pagina)->timestamp = obtenerTimeStamp().
  unfoldable pub fechar_tlb : ℕ → ℕ → Globales Sw → Option (Globales Sw)
  unfolding get_tlb_item
  fechar_tlb pid pagina s = do
    k ← get_tlb_item s.tlb.items pid pagina
    x ← get_elem? s.tlb.items k
    let items = set s.tlb.items k (record x { timestamp = s.contador_timestamp })
    some (record s {
      tlb = record (s.tlb) { items = items };
      contador_timestamp = s.contador_timestamp + 1;
    })

  -- The page is in the TLB. An entry whose frame holds another page is emptied, and the search
  -- starts again.
  unfoldable pub get_marco_de_tlb :
      (Globales Sw → Option (Globales Sw × ℤ)) → ℕ → ℕ → Globales Sw → Option (Globales Sw × ℤ)
  unfolding get_tlb_item get_marco_by_marco_number vaciar_pagina_tlb
  get_marco_de_tlb obtener pid pagina s = do
    k ← get_tlb_item s.tlb.items pid pagina
    x ← get_elem? s.tlb.items k
    m ← get_marco_by_marco_number s.marcos x.marco
    let recupero = do
      items ← vaciar_pagina_tlb s.tlb.items k
      obtener (record s { tlb = record (s.tlb) { items = items } })
    if es_de pid pagina m then some (s, x.marco) else recupero

  -- What both writes and reads do first to an entry of the TLB.
  unfoldable pub fechar_si_esta : Opciones → ℕ → ℕ → Globales Sw → Option (Globales Sw)
  unfolding fechar_tlb pagina_is_in_tlb
  fechar_si_esta o pid pagina s =
      if pagina_is_in_tlb s.tlb.items pid pagina && o.tlb_lru
      then fechar_tlb pid pagina s
      else some s

  -- The bits of the page after an access, or its time.
  unfoldable pub marcar : Opciones → Bool → ℕ → ℕ → Globales Sw → Option (Globales Sw)
  unfolding cambiar_pagina
  marcar o escritura pid pagina s =
      let bits = λ (p : Pagina). record p {
        bit_de_uso = true;
        bit_de_modificacion = if escritura then true else p.bit_de_modificacion;
      } in
      let fecha = λ (p : Pagina). record p { timestamp = s.contador_timestamp } in
      if o.m_clock
      then cambiar_pagina bits pid pagina s
      else cambiar_pagina fecha pid pagina
          (record s { contador_timestamp = s.contador_timestamp + 1 })

  -- vaciar_pagina, with what it returns.
  unfoldable pub vaciar_pagina : Opciones → ℕ → ℕ → Globales Sw → Option (Globales Sw × ℕ)
  unfolding get_page_by_ints vaciar_marco_en_cache cambiar_pagina
  vaciar_pagina o pid pagina s = do
    p ← get_page_by_ints s pid pagina
    let vaciar = do
      s' ← vaciar_marco_en_cache o s p.marco
      s'' ← cambiar_pagina (λ p. record p { bit_presencia = false }) pid pagina s'
      some (s'', 1)
    if p.bit_presencia then vaciar else some (s, 0)

module _ (swap : Swap) (o : Opciones) where
  open swap use {Estado}

  -- A page that is not in memory is brought from the swap process, and counted as a hit.
  unfoldable pub traer_pagina : ℕ → ℕ → Globales Estado → Option (Globales Estado × ℤ)
  unfolding pagina_is_in_cache obtener_marco_de_cache tlb_hit tlb_miss swampear_pagina
  traer_pagina pid pagina s =
      let en_memoria =
        tlb_miss pid s >>= λ s'. some (s', obtener_marco_de_cache s'.marcos pid pagina) in
      let en_swap = tlb_hit pid s >>= λ s'. swampear_pagina swap o s' pid pagina in
      if pagina_is_in_cache s.marcos pid pagina then en_memoria else en_swap

  unfoldable pub con_tlb : ℕ → ℕ → Globales Estado × ℤ → Option (Globales Estado × ℤ)
  unfolding actualizar_tlb
  con_tlb pid pagina (s, marco) =
      actualizar_tlb o.ordenar_tlb o.tlb_lru o.cantidad_entradas_tlb s.tlb pid pagina marco >>= λ t.
      some (record s { tlb = t }, marco)

  -- On fuel: each round but the last empties an entry of the TLB.
  unfoldable pub obtener_marco : ℕ → ℕ → ℕ → Globales Estado → Option (Globales Estado × ℤ)
  unfolding pagina_is_in_tlb tlb_hit get_marco_de_tlb fechar_tlb traer_pagina con_tlb
  obtener_marco zero pid pagina s = none
  obtener_marco (suc n) pid pagina s =
      let otra_vez = obtener_marco n pid pagina in
      let de_tlb = (do
        s1 ← tlb_hit pid s
        (s2, marco) ← get_marco_de_tlb otra_vez pid pagina s1
        s3 ← if o.tlb_lru then fechar_tlb pid pagina s2 else some s2
        some (s3, marco)) in
      if pagina_is_in_tlb s.tlb.items pid pagina
      then de_tlb
      else (traer_pagina pid pagina s >>= con_tlb pid pagina)

  unfoldable pub obtener_marco_para_pagina : ℕ → ℕ → Globales Estado → Option (Globales Estado × ℤ)
  unfolding obtener_marco
  obtener_marco_para_pagina pid pagina s = obtener_marco (suc (length s.tlb.items)) pid pagina s

  -- What leer_en_pagina and escribir_en_pagina share: the frame of the page, or -1.
  unfoldable pub ubicar_pagina : ℕ → ℕ → Globales Estado → Option (Globales Estado × ℤ)
  unfolding fechar_si_esta obtener_marco_para_pagina cambiar_pagina
  ubicar_pagina pid pagina s = do
    s1 ← fechar_si_esta o pid pagina s
    (s2, marco) ← obtener_marco_para_pagina pid pagina s1
    s3 ← cambiar_pagina (λ p. record p { marco = marco }) pid pagina s2
    let presente = cambiar_pagina (λ p. record p { bit_presencia = true }) pid pagina s3 >>= λ s4.
        some (s4, marco)
    if eq_ℤ marco (negsuc 0) then some (s3, marco) else presente

  -- Their test after it; the bit of presence has just been set.
  unfoldable pub accesible : ℕ → ℕ → Globales Estado → Bool
  unfolding pagina_is_in_cache pagina_is_in_tlb
  accesible pid pagina s =
      pagina_is_in_cache s.marcos pid pagina && pagina_is_in_tlb s.tlb.items pid pagina

  -- The inner `none` is an error result.
  unfoldable pub leer_en_pagina :
      ℕ → ℕ → ℕ → ℕ → Globales Estado → Option (Globales Estado × Option (List ℕ))
  unfolding ubicar_pagina accesible retornar_contenido marcar
  leer_en_pagina pid pagina tamanio offset s = do
    (s1, marco) ← ubicar_pagina pid pagina s
    let leer = do
      result ← retornar_contenido o.config s1.cache marco offset tamanio
      s2 ← marcar o false pid pagina s1
      some (s2, result)
    if not (eq_ℤ marco (negsuc 0)) && accesible pid pagina s1 then leer else some (s1, none)

  -- `buffer` holds `size` bytes.
  unfoldable pub escribir_en_pagina :
      ℕ → ℕ → List ℕ → ℕ → Globales Estado → Option (Globales Estado × ℤ)
  unfolding ubicar_pagina accesible escribir_en_cache marcar
  escribir_en_pagina pid pagina buffer offset s = do
    (s1, marco) ← ubicar_pagina pid pagina s
    let escribir = do
      (cache, result) ← escribir_en_cache o.config s1.cache marco buffer offset
      s2 ← marcar o true pid pagina (record s1 { cache = cache })
      some (s2, result)
    if not (eq_ℤ marco (negsuc 0)) && accesible pid pagina s1 then escribir else some (s1, negsuc 0)

  -- The frame that a new page takes.
  unfoldable pub marco_para_nueva :
      Carpincho → ℕ → Globales Estado → Option (Globales Estado × Marco)
  unfolding can_carpincho_add_marco_to_page get_free_marco get_marco_by_marco_number
      swampear_pagina_when_create_page
  marco_para_nueva c pagina s =
      let libre = get_free_marco o.ordenar_marcos s.marcos >>= λ m. some (s, m) in
      let cedido = (do
        (s', k) ← swampear_pagina_when_create_page swap o s c.pid pagina
        m ← get_marco_by_marco_number s'.marcos (pos k)
        some (s', m)) in
      if can_carpincho_add_marco_to_page o s c then libre else cedido

  abbrev pub nueva_pagina : Carpincho → ℕ → ℕ → ℕ → Pagina
  nueva_pagina c pagina marco timestamp = record {
    marco = pos marco;
    carpincho_pid = c.pid;
    pagina = pagina;
    bit_presencia = true;
    bit_de_uso = if o.m_clock then true else o.pagina_fresca.bit_de_uso;
    bit_de_modificacion = if o.m_clock then false else o.pagina_fresca.bit_de_modificacion;
    carp_num = c.numero;
    timestamp = if o.m_clock then o.pagina_fresca.timestamp else timestamp;
  }

  -- create_pagina for the process of the pid.
  unfoldable pub create_pagina : ℕ → Globales Estado → Option (Globales Estado × Pagina)
  unfolding buscar reemplazar marco_para_nueva guardar_marco actualizar_tlb
  create_pagina pid s = do
    c ← buscar s.carpinchos.lista pid
    let numero = length c.paginas + 1
    (s1, m) ← marco_para_nueva c numero s
    let ocupado = record m { pid = c.pid; pagina = numero; is_free = false }
    t ←
        actualizar_tlb o.ordenar_tlb o.tlb_lru o.cantidad_entradas_tlb s1.tlb c.pid numero
          (pos m.marco)
    let p = nueva_pagina c numero m.marco s1.contador_timestamp
    c' ← buscar s1.carpinchos.lista pid
    let cs = reemplazar s1.carpinchos.lista (record c' { paginas = c'.paginas ++ p ∷ [] })
    some (
      record (con_lista cs s1) {
        marcos = guardar_marco ocupado s1.marcos;
        tlb = t;
        contador_timestamp = if o.m_clock then s1.contador_timestamp else s1.contador_timestamp + 1;
      },
      p,
    )
