-- ===== src/Memoria/Marcos.antt =====
-- The frames of memoria/src/memory.c. list_sort is an argument; `none` is a fault: a null pointer is
-- read, or the -1 that stands for one.
use exitos_con_esto.Prelude.{
  ℕ, zero, suc, ◌/◌, Bool, true, false, ◌&&◌, ◌||◌, List, [], ◌∷◌, ◌++◌, Option, none, some, ltb,
  ◌==◌, if◌then◌else◌, ◌>>=◌, ℤ, pos, negsuc, eq_ℤ, get_elem?, length,
}
use exitos_con_esto.Memoria.Datos.{Carpincho, Config, Pagina}
use exitos_con_esto.Memoria.Carpinchos.{Carpinchos, buscar}
use exitos_con_esto.Memoria.Tlb.{Ordenar, Tlb}
use exitos_con_esto.Memoria.Reloj.{OrdenarPaginas}

pub record Marco : Type 0 where
  pub marco : ℕ
  pub is_free : Bool
  pub pagina : ℕ
  pub pid : ℕ

abbrev pub OrdenarMarcos : Type 0
OrdenarMarcos = (Marco → Marco → Bool) → List Marco → List Marco

-- The swap process, as the memory process sees it: the answer to a request to write a page is not
-- looked at, and a page that is not there is refused. `detras` is what stands behind the block that
-- retornar_contenido allocates.
pub record Swap : Type 1 where
  pub Estado : Type 0
  pub escribir : Estado → ℕ → ℕ → List ℕ → Estado
  pub leer : Estado → ℕ → ℕ → Estado × Option (List ℕ)
  pub detras : Estado → List ℕ

-- The rest of the configuration, list_sort, and what malloc leaves in a page. `dinamica` is the test
-- strcmp(tipo_asignacion, "DINAMICA") == 0, `m_clock` that of algoritmo_reemplazo_mmu with "M-CLOCK",
-- `tlb_lru` that of algoritmo_reemplazo_tlb with "LRU".
pub record Opciones : Type 0 where
  pub config : Config
  pub tamanio : ℕ
  pub dinamica : Bool
  pub m_clock : Bool
  pub tlb_lru : Bool
  pub cantidad_entradas_tlb : ℕ
  pub ordenar_tlb : Ordenar
  pub ordenar_paginas : OrdenarPaginas
  pub ordenar_marcos : OrdenarMarcos
  pub pagina_fresca : Pagina

-- The globals of memory.c, and the state of the swap process.
pub record Globales (Sw : Type 0) : Type 0 where
  pub carpinchos : Carpinchos
  pub marcos : List Marco
  pub cache : List ℕ
  pub tlb : Tlb
  pub contador_timestamp : ℕ
  pub algoritm_stack_pointer : ℕ
  pub tlb_hits_totales : ℕ
  pub tlb_miss_totales : ℕ
  pub swap : Sw

unfoldable pub get_amount_marcos : Opciones → ℕ
get_amount_marcos o = o.tamanio / o.config.tamanio_pagina

unfoldable pub create_marcos : ℕ → ℕ → List Marco
create_marcos marco_number zero = []
create_marcos marco_number (suc n) =
    record { marco = marco_number; is_free = true; pagina = 0; pid = 0 }
    ∷ create_marcos (suc marco_number) n

abbrev pub es_de : ℕ → ℕ → Marco → Bool
es_de pid pagina m = m.pid == pid && m.pagina == pagina

abbrev pub filtrar {ℓ} : {A : Type ℓ} → (A → Bool) → List A → List A
filtrar q [] = []
filtrar q (x ∷ xs) = if q x then x ∷ filtrar q xs else filtrar q xs

abbrev pub alguno {ℓ} : {A : Type ℓ} → (A → Bool) → List A → Bool
alguno q [] = false
alguno q (x ∷ xs) = q x || alguno q xs

abbrev pub primero_con {ℓ} : {A : Type ℓ} → (A → Bool) → List A → Option A
primero_con q [] = none
primero_con q (x ∷ xs) = if q x then some x else primero_con q xs

unfoldable pub any_marco_free : List Marco → Bool
any_marco_free marcos = alguno (λ m. m.is_free) marcos

unfoldable pub pagina_is_in_cache : List Marco → ℕ → ℕ → Bool
pagina_is_in_cache marcos pid pagina = alguno (es_de pid pagina) marcos

unfoldable pub amount_frame_used_by_carpincho : List Marco → ℕ → ℕ
amount_frame_used_by_carpincho marcos pid = length (filtrar (λ m. m.pid == pid) marcos)

abbrev pub menor_numero : Marco → Marco → Bool
menor_numero a b = ltb a.marco b.marco

unfoldable pub get_free_marco : OrdenarMarcos → List Marco → Option Marco
get_free_marco ordenar marcos = get_elem? (ordenar menor_numero (filtrar (λ m. m.is_free) marcos)) 0

-- -1 if there is none.
unfoldable pub obtener_marco_de_cache : List Marco → ℕ → ℕ → ℤ
obtener_marco_de_cache marcos pid pagina = elim (primero_con (es_de pid pagina) marcos) [
  | some m ↦ pos m.marco
  | none ↦ negsuc 0
]

unfoldable pub get_marco_by_marco_number : List Marco → ℤ → Option Marco
get_marco_by_marco_number marcos marco_number =
    primero_con (λ m. eq_ℤ (pos m.marco) marco_number) marcos

-- A write through a pointer to a frame: the frame of its number.
unfoldable pub guardar_marco : Marco → List Marco → List Marco
guardar_marco m [] = []
guardar_marco m (x ∷ xs) = if x.marco == m.marco then m ∷ xs else x ∷ guardar_marco m xs

-- A write through a pointer to a page: the page of its number in the process of its pid.
unfoldable pub asentar_en_lista : Pagina → List Pagina → List Pagina
asentar_en_lista p [] = []
asentar_en_lista p (x ∷ xs) =
    if x.carpincho_pid == p.carpincho_pid && x.pagina == p.pagina
    then p ∷ xs
    else x ∷ asentar_en_lista p xs

unfoldable pub asentar_pagina : Pagina → List Carpincho → List Carpincho
unfolding asentar_en_lista
asentar_pagina p [] = []
asentar_pagina p (c ∷ cs) =
    if c.pid == p.carpincho_pid
    then record c { paginas = asentar_en_lista p c.paginas } ∷ cs
    else c ∷ asentar_pagina p cs

unfoldable pub asentar_paginas : List Pagina → List Carpincho → List Carpincho
unfolding asentar_pagina
asentar_paginas [] cs = cs
asentar_paginas (p ∷ ps) cs = asentar_paginas ps (asentar_pagina p cs)

unfoldable pub get_all_pages_in_cache : List Carpincho → List Pagina
get_all_pages_in_cache [] = []
get_all_pages_in_cache (c ∷ cs) =
    filtrar (λ p. p.bit_presencia) c.paginas ++ get_all_pages_in_cache cs

-- A pid without a process is a null pointer.
unfoldable pub get_pages_in_cache_by_carpincho_pid :
    List Marco → List Carpincho → ℕ → Option (List Pagina)
unfolding pagina_is_in_cache
get_pages_in_cache_by_carpincho_pid marcos cs pid = do
  c ← buscar cs pid
  some (filtrar (λ p. pagina_is_in_cache marcos p.carpincho_pid p.pagina) c.paginas)
