-- ===== src/Swamp/Operaciones.antt =====
-- The requests of the swap process: swamp-v2/src/swamp.c. `none` is a fault; a request that is read
-- from the socket is an argument, and what is sent is the second component.
use Prim.Native.String.{String}
use text.Mathlib.Text.{◌==◌ as str_eq}
use exitos_con_esto.Prelude.{
  ℕ, zero, suc, ◌+◌, ◌*◌, Bool, true, false, List, [], ◌∷◌, ◌++◌, Option, none, some, leb, ◌==◌,
  if◌then◌else◌, ◌>>=◌, ℤ, pos, negsuc, eq_ℤ, take, drop, length,
}
use exitos_con_esto.Swamp.Estado.{Config, Estado, escribir, leer, puede_escribir}
use exitos_con_esto.Swamp.Marcos.{
  actualizar_carpincho, actualizar_marcos, conseguir_marco, hay_espacio_archivo, ver_si_hay_paginas,
}
use exitos_con_esto.Swamp.Archivos.{chequear_asignacion, recibir_pagina}

-- The tests of puede_escribir, for the answer 1 or -1.
unfoldable pub poder : Config → Estado → ℤ → Bool → Option String → Option (Estado × ℤ)
unfolding ver_si_hay_paginas
poder config s cant true (some archivo) = ver_si_hay_paginas config s.marcos cant archivo >>= λ hay.
    some (s, (if hay then pos 1 else negsuc 0))
poder config s cant true none = some (s, negsuc 0)
poder config s cant false a = some (s, negsuc 0)

unfoldable pub puede_escribir_swap : Config → Estado → ℤ → ℤ → Option (Estado × ℤ)
unfolding recibir_pagina chequear_asignacion poder
puede_escribir_swap config s pid cant = do
  (t, archivo) ← recibir_pagina config s pid puede_escribir
  (u, ok) ← chequear_asignacion config t pid
  poder config u cant ok archivo

-- The bytes from position `p` on; the bytes that would stand past the end of the file are lost.
unfoldable pub sobrescribir : List ℕ → ℕ → List ℕ → List ℕ
sobrescribir [] p bytes = []
sobrescribir (x ∷ xs) (suc p) bytes = x ∷ sobrescribir xs p bytes
sobrescribir (x ∷ xs) zero [] = x ∷ xs
sobrescribir (x ∷ xs) zero (b ∷ bytes) = b ∷ sobrescribir xs zero bytes

-- The memcpy of 64 bytes to a frame: it may not read past `buffer` nor write past the mapping.
unfoldable pub escribir_marco : Config → List ℕ → ℕ → List ℕ → Option (List ℕ)
unfolding sobrescribir
escribir_marco config contenido marco buffer =
    if leb 64 (length buffer)
    then (if leb (config.tamanio_pagina * marco + 64) config.tamanio_swamp
        then some (sobrescribir contenido (config.tamanio_pagina * marco) (take 64 buffer))
        else none)
    else none

-- What follows the test of the assignment.
unfoldable pub guardar_pagina :
    Config → Estado → String → ℕ → ℤ → ℤ → List ℕ → Bool → Option (Estado × ℤ)
unfolding escribir_marco actualizar_marcos actualizar_carpincho
guardar_pagina config s archivo marco pid pagina buffer false = some (s, negsuc 0)
guardar_pagina config s archivo marco pid pagina buffer true = do
  contenido ← escribir_marco config (s.disco archivo) marco buffer
  some (
    record s {
      marcos = actualizar_marcos s.marcos archivo (pos marco) pagina pid;
      carpinchos = actualizar_carpincho escribir s.carpinchos pid;
      disco = λ otro. if str_eq otro archivo then contenido else s.disco otro;
    },
    pos 0,
  )

-- hayEspacioArchivo gave a frame, or -1.
unfoldable pub escribir_en :
    Config → Estado → String → ℤ → ℤ → List ℕ → Option ℕ → Option (Estado × ℤ)
unfolding chequear_asignacion guardar_pagina
escribir_en config s archivo pid pagina buffer none = some (s, negsuc 0)
escribir_en config s archivo pid pagina buffer (some marco) =
    chequear_asignacion config s pid >>= λ r.
    guardar_pagina config (r.0) archivo marco pid pagina buffer (r.1)

-- A null file name is read by strcmp.
unfoldable pub escribir_swap : Config → Estado → ℤ → ℤ → List ℕ → Option (Estado × ℤ)
unfolding recibir_pagina hay_espacio_archivo escribir_en
escribir_swap config s pid pagina buffer = recibir_pagina config s pid escribir >>= λ r.
    (r.1 >>= λ archivo.
    (hay_espacio_archivo config r.0.marcos archivo
      >>= escribir_en config (r.0) archivo pid pagina buffer))

-- The bytes up to the first newline, with it, and at most `n` of them.
unfoldable pub hasta_linea : ℕ → List ℕ → List ℕ
hasta_linea zero bytes = []
hasta_linea (suc n) [] = []
hasta_linea (suc n) (b ∷ bytes) = b ∷ (if b == 10 then [] else hasta_linea n bytes)

-- fgets with a size `n` on the rest of a file, into a buffer that holds `previo`.
unfoldable pub fgets : ℕ → List ℕ → List ℕ → List ℕ
fgets zero bytes previo = previo
fgets (suc zero) bytes previo = 0 ∷ drop 1 previo
fgets (suc (suc n)) [] previo = previo
fgets (suc (suc n)) (b ∷ bytes) previo =
    let leidos = hasta_linea (suc n) (b ∷ bytes) in leidos ++ 0 ∷ drop (length leidos + 1) previo

-- What leer_swap sends: the page, nothing, or for an unknown process a buffer that starts with `basura`.
pub data Lectura : Type 0 where
  pagina_leida : ℤ → ℤ → ℕ → List ℕ → Lectura
  sin_respuesta : Lectura
  sin_proceso : List ℕ → Lectura

-- conseguirMarco gave a position or -1; the offset of fseek is the position times the page size.
unfoldable pub leer_en : Config → Estado → String → ℤ → ℤ → List ℕ → ℤ → Option (Estado × Lectura)
unfolding fgets actualizar_marcos actualizar_carpincho
leer_en config s archivo pid pagina basura (negsuc n) = some (s, sin_respuesta)
leer_en config s archivo pid pagina basura (pos i) = some (
  record s {
    marcos = actualizar_marcos s.marcos archivo (pos i) (negsuc 0) pid;
    carpinchos = actualizar_carpincho leer s.carpinchos pid;
  },
  pagina_leida pid pagina config.tamanio_pagina
      (fgets config.tamanio_pagina (drop (i * config.tamanio_pagina) (s.disco archivo)) basura),
)

unfoldable pub leer_con :
    Config → Estado → ℤ → ℤ → List ℕ → Option String → Option (Estado × Lectura)
unfolding conseguir_marco leer_en
leer_con config s pid pagina basura none = some (s, sin_proceso basura)
leer_con config s pid pagina basura (some archivo) =
    leer_en config s archivo pid pagina basura (conseguir_marco s.marcos pid pagina)

-- `basura` is what malloc leaves in `contenido`.
unfoldable pub leer_swap : Config → Estado → ℤ → ℤ → List ℕ → Option (Estado × Lectura)
unfolding recibir_pagina leer_con
leer_swap config s pid pagina basura =
    recibir_pagina config s pid leer >>= λ r. leer_con config (r.0) pid pagina basura (r.1)

-- The case CASO_ASIGNACION: an unknown case is answered by nothing (the length sent is 0).
unfoldable pub fijar_caso : Estado → ℤ → Estado × Option ℤ
fijar_caso s caso =
    if eq_ℤ caso (pos 0)
    then (record s { caso = pos 0 }, some (pos 0))
    else if eq_ℤ caso (pos 1)
    then (record s { caso = pos 1 }, some (pos 0))
    else (s, none)

-- noSuperaMaximo.
unfoldable pub no_supera_maximo : Config → ℕ → Bool
no_supera_maximo config total = leb total config.tamanio_swamp

-- obtenerNombre: every `letra` goes, whatever its place.
unfoldable pub obtener_nombre : List ℕ → ℕ → List ℕ
obtener_nombre [] letra = []
obtener_nombre (c ∷ cs) letra =
    if c == letra then obtener_nombre cs letra else c ∷ obtener_nombre cs letra

-- A request as server_procesar_mensaje reads it.
pub data Pedido : Type 0 where
  pedido_leer : ℤ → ℤ → List ℕ → Pedido
  pedido_escribir : ℤ → ℤ → List ℕ → Pedido
  pedido_puede : ℤ → ℤ → Pedido
  pedido_caso : ℤ → Pedido
  pedido_otro : Pedido

pub data Envio : Type 0 where
  envio_lectura : Lectura → Envio
  envio_resultado : ℤ → Envio
  envio_nada : Envio

unfoldable pub server_procesar_mensaje : Config → Estado → Pedido → Option (Estado × Envio)
unfolding leer_swap escribir_swap puede_escribir_swap fijar_caso
server_procesar_mensaje config s (pedido_leer pid pagina basura) =
    leer_swap config s pid pagina basura >>= λ r. some (r.0, envio_lectura (r.1))
server_procesar_mensaje config s (pedido_escribir pid pagina buffer) =
    escribir_swap config s pid pagina buffer >>= λ r. some (r.0, envio_resultado (r.1))
server_procesar_mensaje config s (pedido_puede pid cant) =
    puede_escribir_swap config s pid cant >>= λ r. some (r.0, envio_resultado (r.1))
server_procesar_mensaje config s (pedido_caso caso) = some (contestar (fijar_caso s caso))
  where
    contestar : Estado × Option ℤ → Estado × Envio
    contestar (t, none) = (t, envio_nada)
    contestar (t, some r) = (t, envio_resultado r)
server_procesar_mensaje config s pedido_otro = some (s, envio_nada)
