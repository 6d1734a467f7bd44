-- ===== src/Swamp/Marcos.antt =====
-- The frame list of the swap process: swamp-v2/src/swamp.c. `none` is a fault (a null pointer).
use Prim.Native.String.{String}
use text.Mathlib.Text.{◌==◌ as str_eq}
use exitos_con_esto.Prelude.{
  ℕ, zero, suc, ◌+◌, ◌*◌, ◌/◌, Bool, true, false, ◌&&◌, List, [], ◌∷◌, ◌++◌, Option, none, some,
  leb, ◌==◌, if◌then◌else◌, ◌>>=◌, ℤ, pos, negsuc, eq_ℤ, inc_ℤ, dec_ℤ,
}
use exitos_con_esto.Swamp.Estado.{Config, Marco, Operacion, Proceso, escribir, leer}

-- The strtok loop: how many non-empty pieces the commas leave. `dentro` says that a piece has begun.
-- The text ends where it ends in the configuration, and the code copies it without its 0.
unfoldable pub contar_tokens : Bool → List ℕ → ℕ
contar_tokens dentro [] = 0
contar_tokens dentro (c ∷ cs) =
    if c == b',' then contar_tokens false cs else (if dentro then 0 else 1) + contar_tokens true cs

unfoldable pub obtener_cant_archivos : Config → ℕ
unfolding contar_tokens
obtener_cant_archivos config = contar_tokens false config.cant_archivos_swamp

unfoldable pub cant_marcos : Config → ℕ
cant_marcos config = config.tamanio_swamp / config.tamanio_pagina

-- The frames of one file from number `i` on, `n` of them; `fresco` is what malloc leaves in `PID`.
unfoldable pub marcos_de_archivo : (ℕ → ℤ) → String → ℕ → ℕ → List Marco
marcos_de_archivo fresco archivo i zero = []
marcos_de_archivo fresco archivo i (suc n) =
    record { archivo = archivo; marco = i; indice = negsuc 0; pid = fresco i }
    ∷ marcos_de_archivo fresco archivo (suc i) n

-- `cuantos` files are left; a file that the configuration does not name is a null pointer.
unfoldable pub iniciar_desde : (ℕ → ℤ) → ℕ → ℕ → List String → Option (List Marco)
unfolding marcos_de_archivo
iniciar_desde fresco n zero archivos = some []
iniciar_desde fresco n (suc cuantos) [] = none
iniciar_desde fresco n (suc cuantos) (archivo ∷ archivos) = do
  resto ← iniciar_desde fresco n cuantos archivos
  some (marcos_de_archivo fresco archivo 0 n ++ resto)

unfoldable pub iniciar_marcos : Config → (ℕ → ℤ) → Option (List Marco)
unfolding iniciar_desde
iniciar_marcos config fresco =
    iniciar_desde fresco (cant_marcos config) (obtener_cant_archivos config) config.archivos_swamp

unfoldable pub libre_de : String → Marco → Bool
libre_de archivo m = str_eq m.archivo archivo && eq_ℤ m.indice (negsuc 0)

-- The loop of hayEspacioArchivo with `n` rounds left: `some none` is the answer -1.
unfoldable pub buscar_libre : ℕ → List Marco → String → Option (Option ℕ)
unfolding libre_de
buscar_libre zero marcos archivo = some none
buscar_libre (suc n) [] archivo = none
buscar_libre (suc n) (m ∷ marcos) archivo =
    if libre_de archivo m then some (some m.marco) else buscar_libre n marcos archivo

-- It makes one round more than there are frames.
unfoldable pub hay_espacio_archivo : Config → List Marco → String → Option (Option ℕ)
unfolding buscar_libre
hay_espacio_archivo config marcos archivo =
    buscar_libre (suc (cant_marcos config * obtener_cant_archivos config)) marcos archivo

-- The loop of verSiHayPaginas: the free frames of the file among the first `n`.
unfoldable pub contar_libres : ℕ → List Marco → String → Option ℕ
unfolding libre_de
contar_libres zero marcos archivo = some 0
contar_libres (suc n) [] archivo = none
contar_libres (suc n) (m ∷ marcos) archivo = do
  k ← contar_libres n marcos archivo
  some (if libre_de archivo m then k + 1 else k)

unfoldable pub ver_si_hay_paginas : Config → List Marco → ℤ → String → Option Bool
unfolding contar_libres
ver_si_hay_paginas config marcos cant archivo =
    contar_libres (cant_marcos config * obtener_cant_archivos config) marcos archivo >>= λ libres.
    some (alcanzan libres cant)
  where
    alcanzan : ℕ → ℤ → Bool
    alcanzan libres (pos n) = leb n libres
    alcanzan libres (negsuc n) = true

unfoldable pub actualizar_marcos : List Marco → String → ℤ → ℤ → ℤ → List Marco
actualizar_marcos [] archivo marco pagina pid = []
actualizar_marcos (m ∷ marcos) archivo marco pagina pid =
    (if str_eq m.archivo archivo && eq_ℤ (pos m.marco) marco
      then record m { indice = pagina; pid = pid }
      else m)
    ∷ actualizar_marcos marcos archivo marco pagina pid

-- The position in the list, not the number of the frame in its file; -1 if there is none.
unfoldable pub conseguir_desde : ℕ → List Marco → ℤ → ℤ → ℤ
conseguir_desde i [] pid pagina = negsuc 0
conseguir_desde i (m ∷ marcos) pid pagina =
    if eq_ℤ m.pid pid && eq_ℤ m.indice pagina
    then pos i
    else conseguir_desde (suc i) marcos pid pagina

unfoldable pub conseguir_marco : List Marco → ℤ → ℤ → ℤ
unfolding conseguir_desde
conseguir_marco marcos pid pagina = conseguir_desde 0 marcos pid pagina

-- Every process with the pid.
unfoldable pub actualizar_carpincho : Operacion → List Proceso → ℤ → List Proceso
actualizar_carpincho op [] pid = []
actualizar_carpincho escribir (c ∷ cs) pid =
    (if eq_ℤ c.pid pid then record c { cant_marcos = inc_ℤ c.cant_marcos } else c)
    ∷ actualizar_carpincho escribir cs pid
actualizar_carpincho leer (c ∷ cs) pid =
    (if eq_ℤ c.pid pid then record c { cant_marcos = dec_ℤ c.cant_marcos } else c)
    ∷ actualizar_carpincho leer cs pid
actualizar_carpincho op (c ∷ cs) pid = c ∷ cs
