-- ===== src/Memoria/Memalloc.antt =====
-- memory_memalloc of memoria/src/memory.c: the choice of a strategy (check_alloc), the three ways to
-- place a block, and the creation of a process. `none` is a fault. What create_pagina does to the
-- frames is a `Paginador`; the answer of the swap process is an argument.
use exitos_con_esto.Prelude.{
  ℕ, zero, suc, ◌+◌, ◌-◌, ◌*◌, ◌≡◌, Bool, true, false, ◌&&◌, List, [], ◌∷◌, ◌++◌, Option, none,
  some, leb, ltb, if◌then◌else◌, ◌>>=◌, length, set, insert_at, u32, sub_u32, ℤ, pos_part, sub_ℕ,
}
use exitos_con_esto.Memoria.Datos.{
  Alloc, Carpincho, CheckAllocRespuesta, Config, Pagina, alloc_heap, alloc_pagina,
  alloc_sin_espacio, alloc_solicitar_pagina,
}
use exitos_con_esto.Memoria.Allocs.{
  calcular_cantidad_paginas_necesaria, crear_alloc, espacio_ocupado, espacio_total,
  list_get_index_alloc, primer_libre_con_espacio,
}
use exitos_con_esto.Memoria.Metadatos.{Escritura, persistir_metadata_heap}

-- The frame side of create_pagina, which gives the new page; the number of the page is the
-- process's page count plus one.
pub record Paginador : Type 1 where
  pub Marcos : Type 0
  pub ocupar_marco : Marcos → Carpincho → Option (Marcos × Pagina)
  pub ocupar_marco_numero :
      (m m' : Marcos) (c : Carpincho) (p : Pagina)
      → ocupar_marco m c ≡ some (m', p)
      → p.pagina ≡ length c.paginas + 1

-- The swap process: may the process with this pid write so many pages?
abbrev pub Swamp : Type 0
Swamp = ℕ → ℤ → Bool

-- The while loop of check_alloc: `none` if it returns ALLOC_HEAP, else the space taken.
unfoldable pub recorrer_allocs : ℕ → ℕ → List Alloc → Option ℕ
recorrer_allocs size ocupado [] = some ocupado
recorrer_allocs size ocupado (a ∷ allocs) =
    let resto = recorrer_allocs size (ocupado + a.tamanio_data + 9) allocs in
    if a.is_free && leb size a.tamanio_data then none else resto

-- The tests that subtract are written with sums on both sides.
unfoldable pub check_paginas : Config → Swamp → Carpincho → ℕ → ℕ → CheckAllocRespuesta
check_paginas config swamp c size ocupado =
    let total = length c.paginas * config.tamanio_pagina in
    let cant = calcular_cantidad_paginas_necesaria config (sub_ℕ total ocupado) size in
    let pedir = if swamp c.pid cant then alloc_solicitar_pagina else alloc_sin_espacio in
    if leb (size + 9 + ocupado) total
    then alloc_pagina
    else if config.fija
    then (if leb (size + 9 + ocupado + total)
          (config.marcos_por_carpincho * config.tamanio_pagina + total)
        then pedir
        else alloc_sin_espacio)
    else pedir

unfoldable pub check_alloc : Config → Swamp → Carpincho → ℕ → CheckAllocRespuesta
unfolding recorrer_allocs check_paginas
check_alloc config swamp c size = elim (recorrer_allocs size 0 c.allocs) [
  | none ↦ alloc_heap
  | some ocupado ↦ check_paginas config swamp c size ocupado
]

-- The block `k` is cut: it keeps `size` bytes, and a free block with the rest goes into the list
-- behind the index that list_get_index_alloc gives.
unfoldable pub truncar : List Alloc → ℕ → Alloc → ℕ → List Alloc × Alloc
unfolding list_get_index_alloc crear_alloc
truncar allocs k alloc size =
    let nuevo =
      crear_alloc (u32 (alloc.direccion + size + 9)) (alloc.tamanio_data - size - 9) true in
    let usado = record alloc { tamanio_data = size; is_free = false } in
    let indice = pos_part (list_get_index_alloc allocs alloc) in
    (insert_at (set allocs k usado) (indice + 1) nuevo, nuevo)

abbrev pub Colocado : Type 0
Colocado = Carpincho × ℕ × List Escritura

unfoldable pub memalloc_asignar_en_heap_libre : Config → Carpincho → ℕ → Option Colocado
unfolding truncar primer_libre_con_espacio
memalloc_asignar_en_heap_libre config c size = do
  (k, alloc) ← primer_libre_con_espacio size 0 c.allocs
  let entero = record c { allocs = set c.allocs k (record alloc { is_free = false }) }
  let partido = truncar c.allocs k alloc size
  let cortado = record c { allocs = partido.0 }
  if ltb size alloc.tamanio_data && ltb 9 (alloc.tamanio_data - size)
      then (persistir_metadata_heap config cortado partido.1 >>= λ es.
          some (cortado, u32 (alloc.direccion + 9), es))
      else some (entero, u32 (alloc.direccion + 9), [])

-- The data address behind the last block.
unfoldable pub direccion_libre : List Alloc → ℕ
direccion_libre [] = 9
direccion_libre (a ∷ []) = u32 (a.direccion + 9 + a.tamanio_data + 9)
direccion_libre (a ∷ b ∷ allocs) = direccion_libre (b ∷ allocs)

unfoldable pub memalloc_asignar_en_pagina_con_espacio : Carpincho → ℕ → Carpincho × ℕ
unfolding direccion_libre crear_alloc
memalloc_asignar_en_pagina_con_espacio c size =
    let dato = direccion_libre c.allocs in
    (record c { allocs = c.allocs ++ crear_alloc (sub_u32 dato 9) size false ∷ [] }, dato)

module _ (paginador : Paginador) where
  open paginador use {Marcos, ocupar_marco}

  unfoldable pub create_pagina : Marcos → Carpincho → Option (Marcos × Carpincho)
  create_pagina m c = do
    (m', p) ← ocupar_marco m c
    some (m', record c { paginas = c.paginas ++ p ∷ [] })

  unfoldable pub asignar_paginas_carpincho : ℕ → Marcos → Carpincho → Option (Marcos × Carpincho)
  unfolding create_pagina
  asignar_paginas_carpincho zero m c = some (m, c)
  asignar_paginas_carpincho (suc n) m c =
      create_pagina m c >>= λ r. asignar_paginas_carpincho n r.0 r.1

  unfoldable pub memalloc_asignar_en_paginas_nuevas :
      Config → Marcos → Carpincho → ℕ → Option (Marcos × Colocado)
  unfolding asignar_paginas_carpincho
  memalloc_asignar_en_paginas_nuevas config m c size = do
    let libre = sub_ℕ (espacio_total config c) (espacio_ocupado c.allocs)
    let cant = calcular_cantidad_paginas_necesaria config libre size
    (m', c') ← asignar_paginas_carpincho (pos_part cant) m c
    let (c'', dato) = memalloc_asignar_en_pagina_con_espacio c' size
    some (m', (c'', dato, []))

  -- The switch of memory_memalloc; the result holds the address, if there is one.
  unfoldable pub colocar :
      CheckAllocRespuesta
      → Config
      → Marcos
      → Carpincho
      → ℕ
      → Option (Marcos × Carpincho × Option (ℕ × List Escritura))
  colocar alloc_sin_espacio config m c size = some (m, c, none)
  colocar alloc_heap config m c size = do
    (c', dir, es) ← memalloc_asignar_en_heap_libre config c size
    some (m, c', some (dir, es))
  colocar alloc_pagina config m c size =
      let r = memalloc_asignar_en_pagina_con_espacio c size in some (m, r.0, some (r.1, []))
  colocar alloc_solicitar_pagina config m c size = do
    (m', colocado) ← memalloc_asignar_en_paginas_nuevas config m c size
    some (m', colocado.0, some (colocado.1, colocado.2))
