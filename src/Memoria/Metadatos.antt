-- ===== src/Memoria/Metadatos.antt =====
-- Writing the metadata of a block through the pages: escribir_heap_memoria_fisica and
-- persistir_metadata_heap of memoria/src/memory.c. What it asks of escribir_en_pagina is the list of
-- the calls, in order.
use exitos_con_esto.Prelude.{
  ℕ, zero, suc, ◌+◌, ◌/◌, ◌%◌, Bool, ◌&&◌, List, [], ◌∷◌, ◌++◌, Option, none, some, ◌==◌,
  if◌then◌else◌, ◌>>=◌, length, get_elem?, take, drop, u32,
}
use exitos_con_esto.Memoria.Datos.{Alloc, Carpincho, Config, HeapMetadata, Pagina, PaginaAccion}
use exitos_con_esto.Memoria.Allocs.{obtener_indice_de_alloc}

-- A call escribir_en_pagina(pagina, buffer, size, offset).
pub record Escritura : Type 0 where
  pub pagina : Pagina
  pub buffer : List ℕ
  pub offset : ℕ

-- The bytes of a uint32_t, little endian.
abbrev pub bytes_u32 : ℕ → List ℕ
bytes_u32 n = n % 256 ∷ n / 256 % 256 ∷ n / 65536 % 256 ∷ n / 16777216 % 256 ∷ []

abbrev pub byte_bool : Bool → ℕ
byte_bool b = if b then 1 else 0

-- The packed struct.
unfoldable pub bytes_metadata : HeapMetadata → List ℕ
bytes_metadata heap =
    bytes_u32 heap.prev_alloc ++ (bytes_u32 heap.next_alloc ++ (byte_bool heap.is_free ∷ []))

-- The node of the page gets the offset, and is added at the end if there is none.
unfoldable pub anotar : ℕ → ℕ → List PaginaAccion → List PaginaAccion
anotar pag offset [] = record { pagina = pag; direcciones = offset ∷ [] } ∷ []
anotar pag offset (nodo ∷ nodos) =
    if nodo.pagina == pag
    then record nodo { direcciones = nodo.direcciones ++ offset ∷ [] } ∷ nodos
    else nodo ∷ anotar pag offset nodos

-- The loop that groups the bytes from `abs` on by their page; `n` of them are left.
unfoldable pub agrupar : ℕ → ℕ → ℕ → ℕ → List PaginaAccion → List PaginaAccion
unfolding anotar
agrupar p abs i zero nodos = nodos
agrupar p abs i (suc n) nodos =
    agrupar p abs (suc i) n (anotar (u32 (abs + i) / p) (u32 (abs + i) % p) nodos)

-- The loop that copies each group: `anterior` is the size of the group before. A value that is too
-- short gives shorter pieces, where memcpy reads past its block.
unfoldable pub trozos : List ℕ → ℕ → List PaginaAccion → List (ℕ × List ℕ × ℕ)
trozos valor anterior [] = []
trozos valor anterior (nodo ∷ nodos) =
    let n = length nodo.direcciones in
    (nodo.pagina, take n (drop anterior valor), primero nodo.direcciones) ∷ trozos valor n nodos
  where
    primero : List ℕ → ℕ
    primero [] = 0
    primero (d ∷ ds) = d

-- get_page: the first page of the process with that number.
unfoldable pub get_page : List Pagina → ℕ → ℕ → Option Pagina
get_page [] pid pagina = none
get_page (p ∷ paginas) pid pagina =
    if p.carpincho_pid == pid && p.pagina == pagina then some p else get_page paginas pid pagina

-- A page that is not there is a null pointer, which escribir_en_pagina reads.
unfoldable pub escribir_trozos : Carpincho → List (ℕ × List ℕ × ℕ) → Option (List Escritura)
unfolding get_page
escribir_trozos c [] = some []
escribir_trozos c ((pag, bytes, offset) ∷ ts) = do
  page ← get_page c.paginas c.pid (pag + 1)
  resto ← escribir_trozos c ts
  some (record { pagina = page; buffer = bytes; offset = offset } ∷ resto)

unfoldable pub escribir_heap_memoria_fisica :
    Config → HeapMetadata → ℕ → Carpincho → Option (List Escritura)
unfolding bytes_metadata agrupar trozos escribir_trozos
escribir_heap_memoria_fisica config heap abs c =
    escribir_trozos c (trozos (bytes_metadata heap) 0 (agrupar config.tamanio_pagina abs 0 9 []))

abbrev direccion_en : List Alloc → ℕ → ℕ
direccion_en allocs i = elim (get_elem? allocs i) [ none ↦ 0 | some a ↦ a.direccion ]

abbrev direccion_previa : List Alloc → ℕ → ℕ
direccion_previa allocs zero = 0
direccion_previa allocs (suc i) = direccion_en allocs i

unfoldable pub persistir_metadata_heap : Config → Carpincho → Alloc → Option (List Escritura)
unfolding escribir_heap_memoria_fisica obtener_indice_de_alloc
persistir_metadata_heap config c alloc = do
  i ← obtener_indice_de_alloc c.allocs alloc
  escribir_heap_memoria_fisica config
      (record {
        prev_alloc = direccion_previa c.allocs i;
        next_alloc = direccion_en c.allocs (suc i);
        is_free = alloc.is_free;
      })
      alloc.direccion c
