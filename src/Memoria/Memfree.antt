-- ===== src/Memoria/Memfree.antt =====
-- memory_memfree of memoria/src/memory.c: the merge with the free neighbours, and the compaction.
-- `none` is a fault.
use exitos_con_esto.Prelude.{
  ℕ, zero, suc, ◌+◌, ◌-◌, ◌/◌, Bool, true, false, List, [], ◌∷◌, Option, none, some, ltb, ◌==◌,
  if◌then◌else◌, ◌>>=◌, length, get_elem?, set, remove_at, u32, sub_u32,
}
use exitos_con_esto.Memoria.Datos.{
  Alloc, Carpincho, Config, Pagina, StatusMemoryOp, direccion_invalida, exito,
}
use exitos_con_esto.Memoria.Allocs.{obtener_alloc_con_inicio, obtener_indice_de_alloc}
use exitos_con_esto.Memoria.Metadatos.{Escritura, persistir_metadata_heap}
use exitos_con_esto.Memoria.Direcciones.{validar_direccion_logica}

-- The merge with the block on the left: the block (at `i`) takes its address and its space.
unfoldable pub unificar_izq : List Alloc → ℕ → Alloc → List Alloc × ℕ × Alloc
unificar_izq allocs zero alloc = (allocs, 0, alloc)
unificar_izq allocs (suc i) alloc = elim (get_elem? allocs i) [
  | none ↦ (allocs, suc i, alloc)
  | some previo ↦
      let unido = record alloc {
        direccion = previo.direccion;
        tamanio_data = previo.tamanio_data + alloc.tamanio_data + 9;
      } in
      if previo.is_free
      then (remove_at (set allocs (suc i) unido) i, i, unido)
      else (allocs, suc i, alloc)
]

-- The merge with the block on the right.
unfoldable pub unificar_der : List Alloc → ℕ → Alloc → List Alloc × Alloc
unificar_der allocs i alloc = elim (get_elem? allocs (suc i)) [
  | none ↦ (allocs, alloc)
  | some siguiente ↦
      let unido = record alloc { tamanio_data = siguiente.tamanio_data + alloc.tamanio_data + 9 } in
      if siguiente.is_free then (remove_at (set allocs i unido) (suc i), unido) else (allocs, alloc)
]

-- The block at `i` becomes free and is merged.
unfoldable pub liberar : List Alloc → ℕ → Alloc → List Alloc × Alloc
unfolding unificar_izq unificar_der
liberar allocs i alloc =
    let libre = record alloc { is_free = true } in
    let (allocs', j, unido) = unificar_izq (set allocs i libre) i libre in
    unificar_der allocs' j unido

-- The loop of alloc_esta_en_pagina over the bytes from `dir + i` on, `n` of them left.
unfoldable pub algun_byte_en_pagina : ℕ → ℕ → ℕ → ℕ → ℕ → Bool
algun_byte_en_pagina p num_pag dir i zero = false
algun_byte_en_pagina p num_pag dir i (suc n) =
    let resto = algun_byte_en_pagina p num_pag dir (suc i) n in
    if u32 (dir + i) / p == num_pag then true else resto

-- Its bound counts from 0 up to the last address of the block, so it reads past the block's end.
unfoldable pub alloc_esta_en_pagina : Config → Alloc → ℕ → Bool
unfolding algun_byte_en_pagina
alloc_esta_en_pagina config alloc num_pag =
    algun_byte_en_pagina config.tamanio_pagina num_pag alloc.direccion 0
      (u32 (alloc.direccion + 9 + alloc.tamanio_data))

unfoldable pub allocs_de_pagina : Config → ℕ → List Alloc → List Alloc
unfolding alloc_esta_en_pagina
allocs_de_pagina config pag [] = []
allocs_de_pagina config pag (a ∷ allocs) =
    let resto = allocs_de_pagina config pag allocs in
    if alloc_esta_en_pagina config a pag then a ∷ resto else resto

unfoldable pub todos_libres : List Alloc → Bool
todos_libres [] = true
todos_libres (a ∷ allocs) = if a.is_free then todos_libres allocs else false

unfoldable pub todos_los_allocs_estan_libres : List Alloc → Bool
unfolding todos_libres
todos_los_allocs_estan_libres [] = false
todos_los_allocs_estan_libres (a ∷ allocs) = todos_libres (a ∷ allocs)

-- The loop that removes the blocks of the page: the list, and the space of the last one.
unfoldable pub borrar_allocs : List Alloc → ℕ → List Alloc → Option (List Alloc × ℕ)
unfolding obtener_indice_de_alloc
borrar_allocs allocs acum [] = some (allocs, acum)
borrar_allocs allocs acum (a ∷ borrados) = obtener_indice_de_alloc allocs a >>= λ i.
    borrar_allocs (remove_at allocs i) (a.tamanio_data + 9) borrados

-- The addresses from index `desde` on go down by `acum`.
unfoldable pub desplazar : ℕ → ℕ → List Alloc → List Alloc
desplazar desde acum [] = []
desplazar zero acum (a ∷ allocs) =
    record a { direccion = sub_u32 a.direccion acum } ∷ desplazar zero acum allocs
desplazar (suc desde) acum (a ∷ allocs) = a ∷ desplazar desde acum allocs

-- The code frees the page that follows the removed one and leaves it in the list.
unfoldable pub compactar_pagina : Carpincho → Pagina → List Alloc → Option Carpincho
unfolding borrar_allocs desplazar
compactar_pagina c pag borrados = do
  (allocs, acum) ← borrar_allocs c.allocs 0 borrados
  let movidos = desplazar (length borrados - 1) acum allocs
  some (record c {
    allocs = if ltb 0 acum then movidos else allocs;
    paginas = remove_at c.paginas (pag.pagina - 1);
  })

-- The loop of compactar returns in its first round; with no page the function ends with no value.
-- The Boolean is the value returned.
unfoldable pub compactar : Config → Carpincho → Option (Carpincho × Bool)
unfolding allocs_de_pagina todos_los_allocs_estan_libres compactar_pagina
compactar config c = do
  pag ← get_elem? c.paginas 0
  let suyos = allocs_de_pagina config 0 c.allocs
  let hecho = compactar_pagina c pag suyos >>= λ c'. some (c', true)
  if todos_los_allocs_estan_libres suyos then hecho else some (c, false)

-- while (resultado_compactar == 1), on fuel.
unfoldable pub compactar_todo : ℕ → Config → Carpincho → Option Carpincho
unfolding compactar
compactar_todo zero config c = none
compactar_todo (suc fuel) config c = elim (compactar config c) [
  | none ↦ none
  | some (c', true) ↦ compactar_todo fuel config c'
  | some (c', false) ↦ some c'
]

-- The block is found at index `i` and is in use.
unfoldable pub liberar_y_compactar :
    Config → Carpincho → ℕ → Alloc → Option (Carpincho × List Escritura)
unfolding liberar compactar_todo
liberar_y_compactar config c i alloc = do
  let unido = liberar c.allocs i alloc
  let c' = record c { allocs = unido.0 }
  es ← persistir_metadata_heap config c' unido.1
  c'' ← compactar_todo (suc (suc (length c.allocs))) config c'
  some (c'', es)

-- memory_memfree on the process that get_carpincho gives. The state stays as it was on an error.
unfoldable pub memory_memfree :
    Config → Carpincho → ℕ → Option (Carpincho × StatusMemoryOp × List Escritura)
unfolding validar_direccion_logica obtener_alloc_con_inicio
memory_memfree config c abs =
    let invalida = some (c, direccion_invalida, []) in
    if validar_direccion_logica config c abs
    then elim (obtener_alloc_con_inicio 0 c.allocs abs) [
      | none ↦ invalida
      | some (i, alloc) ↦
          let hecho = liberar_y_compactar config c i alloc >>= λ r. some (r.0, exito, r.1) in
          if alloc.is_free then invalida else hecho
    ]
    else invalida
