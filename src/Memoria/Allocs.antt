-- ===== src/Memoria/Allocs.antt =====
-- The block list of a process: memoria/src/memory.c, the searches and the space counts on
-- `carpincho->allocs`. A pointer into the list is an index.
use exitos_con_esto.Prelude.{
  ℕ, suc, ◌+◌, ◌*◌, ◌/◌, ◌%◌, Bool, ◌&&◌, List, [], ◌∷◌, Option, none, some, leb, ◌==◌,
  if◌then◌else◌, length, u32, ℤ, pos, negsuc, pos_part, neg_part, sub_ℕ,
}
use exitos_con_esto.Memoria.Datos.{Alloc, Carpincho, Config}

unfoldable pub crear_alloc : ℕ → ℕ → Bool → Alloc
crear_alloc dir data_size is_free = record {
  direccion = dir;
  is_free = is_free;
  tamanio_data = data_size;
}

-- The space that blocks take, each with its 9 bytes of metadata.
unfoldable pub espacio_ocupado : List Alloc → ℕ
espacio_ocupado [] = 0
espacio_ocupado (a ∷ allocs) = a.tamanio_data + 9 + espacio_ocupado allocs

unfoldable pub espacio_total : Config → Carpincho → ℕ
espacio_total config c = length c.paginas * config.tamanio_pagina

-- buscar_alloc_libre_con_espacio.
unfoldable pub libre_con_espacio : ℕ → Alloc → Bool
libre_con_espacio size a = a.is_free && leb size a.tamanio_data

-- list_filter, then element 0: the first free block that fits, with its index.
unfoldable pub primer_libre_con_espacio : ℕ → ℕ → List Alloc → Option (ℕ × Alloc)
unfolding libre_con_espacio
primer_libre_con_espacio size i [] = none
primer_libre_con_espacio size i (a ∷ allocs) =
    if libre_con_espacio size a then some (i, a) else primer_libre_con_espacio size (suc i) allocs

-- The loop declares a second `alloc`, which hides the argument, and compares it with itself.
unfoldable pub list_get_index_alloc : List Alloc → Alloc → ℤ
list_get_index_alloc [] alloc = negsuc 0
list_get_index_alloc (a ∷ allocs) alloc = if a.direccion == a.direccion then pos 0 else negsuc 0

-- The loop runs one past the end, where it reads a null pointer: `none`.
unfoldable pub obtener_indice_desde : ℕ → List Alloc → ℕ → Option ℕ
obtener_indice_desde i [] direccion = none
obtener_indice_desde i (a ∷ allocs) direccion =
    if a.direccion == direccion then some i else obtener_indice_desde (suc i) allocs direccion

unfoldable pub obtener_indice_de_alloc : List Alloc → Alloc → Option ℕ
unfolding obtener_indice_desde
obtener_indice_de_alloc allocs alloc = obtener_indice_desde 0 allocs alloc.direccion

-- Is an address one of the data bytes of a block?
unfoldable pub en_rango : ℕ → Alloc → Bool
en_rango abs a =
    let inicio = u32 (a.direccion + 9) in
    leb inicio abs && leb abs (u32 (inicio + a.tamanio_data + 4294967295))

unfoldable pub obtener_alloc_de_un_carpincho : List Alloc → ℕ → Option Alloc
unfolding en_rango
obtener_alloc_de_un_carpincho [] abs = none
obtener_alloc_de_un_carpincho (a ∷ allocs) abs =
    if en_rango abs a then some a else obtener_alloc_de_un_carpincho allocs abs

-- obtener_alloc_con_inicio_de_direccion_de_dato_de_un_carpincho, with the index of the block.
unfoldable pub obtener_alloc_con_inicio : ℕ → List Alloc → ℕ → Option (ℕ × Alloc)
obtener_alloc_con_inicio i [] abs = none
obtener_alloc_con_inicio i (a ∷ allocs) abs =
    if abs == u32 (a.direccion + 9)
    then some (i, a)
    else obtener_alloc_con_inicio (suc i) allocs abs

-- int division of C, which rounds towards zero, by a positive size.
unfoldable pub div_int : ℤ → ℕ → ℤ
div_int (pos a) p = pos (a / p)
div_int (negsuc a) p = sub_ℕ 0 (suc a / p)

unfoldable pub calcular_cantidad_paginas_necesaria : Config → ℤ → ℕ → ℤ
unfolding div_int
calcular_cantidad_paginas_necesaria config libre dato =
    let necesario = sub_ℕ (dato + 9 + neg_part libre) (pos_part libre) in
    let entero = div_int necesario config.tamanio_pagina in
    if (pos_part necesario + neg_part necesario) % config.tamanio_pagina == 0
    then entero
    else sub_ℕ (pos_part entero + 1) (neg_part entero)
