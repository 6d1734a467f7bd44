-- ===== src/Memoria/Invariante/Memfree.antt =====
-- memory_memfree of memoria/src/memory.c, on every request.
use exitos_con_esto.Prelude.{
  ℕ, ◌+◌, ◌*◌, ◌/◌, ◌%◌, ◌<◌, ◌≡◌, sym, inl, inr, true, false, List, [], some, arith, get_elem?,
  length, u32, Bool-cases, Option-cases,
}
use native.Mathlib.Nat.{div-lt_iff_lt-mul, mod-lt}
use exitos_con_esto.Memoria.Datos.{Alloc, Carpincho, Config, direccion_invalida, exito}
use exitos_con_esto.Memoria.Allocs.{obtener_alloc_con_inicio}
use exitos_con_esto.Memoria.Metadatos.{Escritura}
use exitos_con_esto.Memoria.Direcciones.{validar_direccion_logica}
use exitos_con_esto.Memoria.Memfree.{liberar, liberar_y_compactar, memory_memfree}
use exitos_con_esto.Memoria.Bloques.Buscar.{
  Contiguos-Esta, liberar-Esta, obtener_alloc_con_inicio-Esta, obtener_alloc_con_inicio-correcto,
}
use exitos_con_esto.Memoria.Bloques.Liberar.{Libera, liberar-Libera}
use exitos_con_esto.Memoria.Escrituras.{PaginasNumeradas, persistir_metadata_heap_total}
use exitos_con_esto.Memoria.Invariante.{HeapValido, compactar_todo-HeapValido}

-- An address below the end of the pages is valid.
pub validar_direccion_logica-valida :
    (config : Config) (c : Carpincho) (abs : ℕ)
    → 0 < config.tamanio_pagina
    → abs < length c.paginas * config.tamanio_pagina
    → length c.paginas < 4294967296
    → validar_direccion_logica config c abs ≡ true
unfolding validar_direccion_logica
validar_direccion_logica-valida config c abs z h b =
    let q : abs / config.tamanio_pagina < length c.paginas = (div-lt_iff_lt-mul z).1 h in
    let r : abs % config.tamanio_pagina < config.tamanio_pagina = mod-lt abs z in ground arith

-- Freeing on a valid heap with two pages: the result, with a valid heap.
liberar_y_compactar-HeapValido :
    (config : Config) (c : Carpincho) (i : ℕ) (a : Alloc)
    → 0 < config.tamanio_pagina
    → 1 < length c.paginas
    → HeapValido config c
    → PaginasNumeradas c
    → get_elem? c.allocs i ≡ some a
    → a.is_free ≡ false
    → (c' : Carpincho) × (es : List Escritura) × (liberar_y_compactar config c i a ≡ some (c', es))
      × HeapValido config c'
unfolding liberar_y_compactar
liberar_y_compactar-HeapValido config c i a z n v pn e u =
    let unido : List Alloc × Alloc = liberar c.allocs i a in
    let c' : Carpincho = record c { allocs = unido.0 } in
    let l : Libera false 0 c.allocs unido.0 =
      liberar-Libera c.allocs 0 i a e u v.contiguos v.separados in
    let v' : HeapValido config c' = record {
      contiguos = l.contiguos;
      separados = l.separados;
      capacidad = omega (arith, l.ocupado, v.capacidad);
      acotado = omega (arith, l.ocupado, v.acotado);
    } in
    let (j, en) = liberar-Esta c.allocs i a e in
    let dentro = Contiguos-Esta unido.0 0 j unido.1 en l.contiguos in
    let (es, f) =
      persistir_metadata_heap_total config c' unido.1 z pn (j, en)
        (omega (arith, dentro.1, v'.capacidad)) (omega (arith, dentro.1, v'.acotado)) in
    let (c'', g, v'') = compactar_todo-HeapValido config c' (length c.allocs) z n v' in
    (c'', es, rw f (rw g), v'')

memory_memfree_paso :
    (config : Config) (c c' : Carpincho) (abs j : ℕ) (a : Alloc) (es : List Escritura)
    → validar_direccion_logica config c abs ≡ true
    → obtener_alloc_con_inicio 0 c.allocs abs ≡ some (j, a)
    → a.is_free ≡ false
    → liberar_y_compactar config c j a ≡ some (c', es)
    → memory_memfree config c abs ≡ some (c', exito, es)
unfolding memory_memfree
memory_memfree_paso config c c' abs j a es p q r s = rw p (rw (q, memory_memfree) (rw s (rw r)))

-- If the pages have a size, the process has at least two and fewer than 2^32 pages, numbered from
-- 1 on, and its heap is valid, then memory_memfree of the data address of a block in use that is
-- not empty returns, with success and a valid heap.
pub memfree_exito :
    (config : Config) (c : Carpincho) (i : ℕ) (a : Alloc)
    → 0 < config.tamanio_pagina
    → 1 < length c.paginas
    → length c.paginas < 4294967296
    → HeapValido config c
    → PaginasNumeradas c
    → get_elem? c.allocs i ≡ some a
    → a.is_free ≡ false
    → 0 < a.tamanio_data
    → (c' : Carpincho) × (es : List Escritura) × (memory_memfree config c (a.direccion + 9)
        ≡ some (c', exito, es))
      × HeapValido config c'
memfree_exito config c i a z n n' v pn e u t =
    let dentro = Contiguos-Esta c.allocs 0 i a e v.contiguos in
    let ok =
      validar_direccion_logica-valida config c (a.direccion + 9) z
        (omega (arith, dentro.1, v.capacidad)) n' in
    let (j, f, g) =
      obtener_alloc_con_inicio-Esta c.allocs 0 0 i a e v.contiguos (omega (arith, v.acotado)) in
    let j' : j ≡ i = omega (arith, g) in
    let (c', es, h, v') = liberar_y_compactar-HeapValido config c j a z n v pn (rw j' e) u in
    (c', es, memory_memfree_paso config c c' (a.direccion + 9) j a es ok f u h, v')

-- If every block whose data address is the given one is free, memory_memfree refuses it as an
-- invalid address, changes nothing and writes nothing.
pub memfree_rechaza :
    (config : Config) (c : Carpincho) (abs : ℕ)
    → ((i : ℕ) (a : Alloc)
        → get_elem? c.allocs i ≡ some a
        → u32 (a.direccion + 9) ≡ abs
        → a.is_free ≡ true)
    → memory_memfree config c abs ≡ some (c, direccion_invalida, [])
unfolding memory_memfree
memfree_rechaza config c abs h = elim (Bool-cases (validar_direccion_logica config c abs)) [
  | inr n ↦ rw n
  | inl s ↦ rw s (elim (Option-cases (obtener_alloc_con_inicio 0 c.allocs abs)) [
    | inl e ↦ rw (e, memory_memfree)
    | inr ((j, a), e) ↦
        let (i, f, _, g) = obtener_alloc_con_inicio-correcto c.allocs 0 abs j a e in
        rw (e, h i a f (sym g))
  ])
]
