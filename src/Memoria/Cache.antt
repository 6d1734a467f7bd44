-- ===== src/Memoria/Cache.antt =====
-- The main memory (CACHE) of memoria/src/memory.c: escribir_en_cache and retornar_contenido. A read
-- or a write out of the block is `none`.
pub mod IdaVuelta
use exitos_con_esto.Prelude.{
  ℕ, ◌+◌, ◌*◌, Bool, List, ◌++◌, Option, none, some, leb, ltb, if◌then◌else◌, ◌>>=◌, ℤ, pos, negsuc,
  length, take, drop, replicate,
}
use exitos_con_esto.Memoria.Datos.{Config}

-- memcpy and memset to the block of CACHE.
abbrev pub escribir_bytes : List ℕ → ℕ → List ℕ → Option (List ℕ)
escribir_bytes cache desde bytes =
    if leb (desde + length bytes) (length cache)
    then some (take desde cache ++ (bytes ++ drop (desde + length bytes) cache))
    else none

-- memcpy from the block of CACHE.
abbrev pub leer_bytes : List ℕ → ℕ → ℕ → Option (List ℕ)
leer_bytes cache desde n =
    if leb (desde + n) (length cache) then some (take n (drop desde cache)) else none

-- get_marco_ptr, as a position in CACHE; a negative frame stands before the block.
unfoldable pub get_marco_ptr : Config → ℤ → Option ℕ
get_marco_ptr config (pos marco) = some (marco * config.tamanio_pagina)
get_marco_ptr config (negsuc n) = none

-- `buffer` holds `size` bytes. The result is the memory and what the function returns.
unfoldable pub escribir_en_cache : Config → List ℕ → ℤ → List ℕ → ℕ → Option (List ℕ × ℤ)
unfolding get_marco_ptr
escribir_en_cache config cache marco buffer offset =
    let copia =
      (get_marco_ptr config marco >>= λ p.
      escribir_bytes cache (p + offset) buffer >>= λ cache'. some (cache', pos 0)) in
    if ltb config.tamanio_pagina (length buffer + offset) then some (cache, negsuc 0) else copia

-- The memset of vaciar_marco_en_cache; 95 is '_'.
unfoldable pub limpiar_marco : Config → List ℕ → ℤ → Option (List ℕ)
unfolding get_marco_ptr
limpiar_marco config cache marco =
    get_marco_ptr config marco >>= λ p. escribir_bytes cache p (replicate config.tamanio_pagina 95)

-- The outer `none` is a fault, the inner one the result -1.
unfoldable pub retornar_contenido : Config → List ℕ → ℤ → ℕ → ℕ → Option (Option (List ℕ))
unfolding get_marco_ptr
retornar_contenido config cache marco offset tamanio =
    let copia =
      (get_marco_ptr config marco >>= λ p.
      leer_bytes cache (p + offset) tamanio >>= λ bytes. some (some bytes)) in
    if ltb config.tamanio_pagina (offset + tamanio) then some none else copia
