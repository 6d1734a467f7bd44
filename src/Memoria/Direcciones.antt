-- ===== src/Memoria/Direcciones.antt =====
-- The checks of logical addresses in memoria/src/memory.c, and the start of memory_memwrite and
-- memory_memread: which requests they refuse, and the page groups that they make.
use exitos_con_esto.Prelude.{
  ℕ, zero, suc, ◌+◌, ◌-◌, ◌/◌, ◌%◌, Bool, true, false, List, [], ◌∷◌, Option, none, some, ltb,
  if◌then◌else◌, ◌>>=◌, length, get_elem?, u32, sub_u32,
}
use exitos_con_esto.Memoria.Datos.{
  Alloc, Carpincho, Config, StatusMemoryOp, direccion_invalida, exito,
}
use exitos_con_esto.Memoria.Allocs.{en_rango, obtener_alloc_de_un_carpincho}
use exitos_con_esto.Memoria.Metadatos.{Escritura, agrupar, trozos}

-- `list_size(paginas) - 1` is an int compared with a uint32_t, so with no pages it is 2^32 - 1.
unfoldable pub validar_direccion_logica : Config → Carpincho → ℕ → Bool
validar_direccion_logica config c abs =
    if ltb (sub_u32 (length c.paginas) 1) (abs / config.tamanio_pagina)
    then false
    else if ltb (config.tamanio_pagina - 1) (abs % config.tamanio_pagina)
    then false
    else true

unfoldable pub alguno_en_rango : ℕ → List Alloc → Bool
unfolding en_rango
alguno_en_rango abs [] = false
alguno_en_rango abs (a ∷ allocs) = if en_rango abs a then true else alguno_en_rango abs allocs

unfoldable pub validar_direccion_logica_escritura : Config → Carpincho → ℕ → Bool
unfolding validar_direccion_logica alguno_en_rango
validar_direccion_logica_escritura config c abs =
    if validar_direccion_logica config c abs then alguno_en_rango abs c.allocs else false

-- The loop of validar_direccion_logica_escritura_con_size, from `abs` on, with `n` rounds left.
unfoldable pub validar_desde : Config → Carpincho → ℕ → ℕ → ℕ → Bool
unfolding validar_direccion_logica_escritura
validar_desde config c abs i zero = true
validar_desde config c abs i (suc n) =
    let resto = validar_desde config c abs (suc i) n in
    if validar_direccion_logica_escritura config c (u32 (abs + i)) then resto else false

unfoldable pub validar_direccion_logica_escritura_con_size : Config → Carpincho → ℕ → ℕ → Bool
unfolding validar_desde
validar_direccion_logica_escritura_con_size config c abs size = validar_desde config c abs 0 size

-- ptro_pag = list_get(carpincho->paginas, escritura->pagina), by position.
unfoldable pub escribir_posiciones : Carpincho → List (ℕ × List ℕ × ℕ) → Option (List Escritura)
escribir_posiciones c [] = some []
escribir_posiciones c ((pag, bytes, offset) ∷ ts) = do
  page ← get_elem? c.paginas pag
  resto ← escribir_posiciones c ts
  some (record { pagina = page; buffer = bytes; offset = offset } ∷ resto)

-- The process is found; `valor` holds the bytes to write.
unfoldable pub escribir_en_alloc :
    Config → Carpincho → ℕ → ℕ → List ℕ → Alloc → Option (StatusMemoryOp × List Escritura)
unfolding agrupar trozos escribir_posiciones
escribir_en_alloc config c pos size valor alloc =
    let fin = u32 (alloc.direccion + 9 + alloc.tamanio_data + 4294967295) in
    let escrituras =
      escribir_posiciones c (trozos valor 0 (agrupar config.tamanio_pagina pos 0 size [])) in
    if ltb (u32 (sub_u32 fin pos + 1)) size
    then some (direccion_invalida, [])
    else (escrituras >>= λ es. some (exito, es))

unfoldable pub memory_memwrite :
    Config → Option Carpincho → ℕ → ℕ → List ℕ → Option (StatusMemoryOp × List Escritura)
unfolding validar_direccion_logica_escritura_con_size escribir_en_alloc
memory_memwrite config none pos size valor = some (direccion_invalida, [])
memory_memwrite config (some c) pos size valor =
    if validar_direccion_logica_escritura_con_size config c pos size
    then (obtener_alloc_de_un_carpincho c.allocs pos >>= escribir_en_alloc config c pos size valor)
    else some (direccion_invalida, [])
