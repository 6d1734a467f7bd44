-- ===== src/Swamp/Archivos.antt =====
-- The swap files and the process table: swamp-v2/src/swamp.c. `none` is a fault (a null pointer).
use Prim.Native.String.{String}
use text.Mathlib.Text.{◌==◌ as str_eq}
use exitos_con_esto.Prelude.{
  ℕ, zero, suc, ◌+◌, ◌/◌, Bool, true, false, List, [], ◌∷◌, ◌++◌, Option, none, some, ltb, ◌==◌,
  if◌then◌else◌, ◌>>=◌, ℤ, pos, eq_ℤ, ltb_ℤ, get_elem?, replicate,
}
use exitos_con_esto.Swamp.Estado.{
  Config, Estado, Operacion, Proceso, caso_asignacion, escribir, leer, puede_escribir,
}
use exitos_con_esto.Swamp.Marcos.{cant_marcos, hay_espacio_archivo, obtener_cant_archivos}

-- The fgetc loop: `c` is a char, so that the byte 255 looks like EOF.
unfoldable pub contar_bytes : List ℕ → ℕ
contar_bytes [] = 0
contar_bytes (b ∷ bs) = if b == 255 then 0 else (if b == 0 then 0 else 1) + contar_bytes bs

-- `n` files of zeros.
unfoldable pub crear_desde : Config → ℕ → List String → (String → List ℕ) → Option (String → List ℕ)
crear_desde config zero archivos disco = some disco
crear_desde config (suc n) [] disco = none
crear_desde config (suc n) (archivo ∷ archivos) disco =
    crear_desde config n archivos
      (λ otro. if str_eq otro archivo then replicate config.tamanio_swamp 0 else disco otro)

unfoldable pub crear_archivos : Config → (String → List ℕ) → Option (String → List ℕ)
unfolding crear_desde
crear_archivos config disco =
    crear_desde config (obtener_cant_archivos config) config.archivos_swamp disco

-- contador, for `n` files.
unfoldable pub contadores : ℕ → List String → (String → List ℕ) → Option (List ℕ)
unfolding contar_bytes
contadores zero archivos disco = some []
contadores (suc n) [] disco = none
contadores (suc n) (archivo ∷ archivos) disco = do
  resto ← contadores n archivos disco
  some (contar_bytes (disco archivo) ∷ resto)

-- The second loop: position `i` holds `contador`, and `menor` holds `valor`.
unfoldable pub elegir_menor : ℕ → ℕ → ℕ → List ℕ → ℕ
elegir_menor i menor valor [] = menor
elegir_menor i menor valor (contador ∷ resto) =
    if ltb contador valor
    then elegir_menor (suc i) i contador resto
    else elegir_menor (suc i) menor valor resto

unfoldable pub menor_contador : List ℕ → ℕ
unfolding elegir_menor
menor_contador [] = 0
menor_contador (contador ∷ resto) = elegir_menor 0 0 contador (contador ∷ resto)

unfoldable pub archivo_con_mas_espacio : Config → (String → List ℕ) → Option String
unfolding contadores menor_contador
archivo_con_mas_espacio config disco =
    contadores (obtener_cant_archivos config) config.archivos_swamp disco >>= λ cs.
    get_elem? config.archivos_swamp (menor_contador cs)

unfoldable pub archivo_de : List Proceso → ℤ → Option String
archivo_de [] pid = none
archivo_de (c ∷ cs) pid = if eq_ℤ c.pid pid then some c.archivo else archivo_de cs pid

-- hayEspacioArchivo(archivoConMasEspacio()), with the file; `some none` stands for -1.
unfoldable pub archivo_libre : Config → Estado → Option (Option String)
unfolding archivo_con_mas_espacio hay_espacio_archivo
archivo_libre config s = do
  archivo ← archivo_con_mas_espacio config s.disco
  lugar ← hay_espacio_archivo config s.marcos archivo
  some (elim lugar [ none ↦ none | some i ↦ some archivo ])

-- The new process, where there is a file for it.
unfoldable pub agregar : Config → Estado → ℤ → Option String → Estado × Option String
agregar config s pid none = (s, none)
agregar config s pid (some archivo) = (
  record s {
    carpinchos = s.carpinchos ++ record { pid = pid; archivo = archivo; cant_marcos = pos 0 } ∷ [];
  },
  some archivo,
)

unfoldable pub recibir_nuevo : Config → Estado → ℤ → Operacion → Option (Estado × Option String)
unfolding archivo_libre agregar
recibir_nuevo config s pid puede_escribir = archivo_libre config s >>= λ a. some (s, a)
recibir_nuevo config s pid escribir = archivo_libre config s >>= λ a. some (agregar config s pid a)
recibir_nuevo config s pid leer = some (s, none)
recibir_nuevo config s pid caso_asignacion = some (s, none)

unfoldable pub recibir_con :
    Config → Estado → ℤ → Operacion → Option String → Option (Estado × Option String)
unfolding recibir_nuevo
recibir_con config s pid op none = recibir_nuevo config s pid op
recibir_con config s pid op (some archivo) = some (s, some archivo)

-- The state after and the file: `none` inside is the answer NULL.
unfoldable pub recibir_pagina : Config → Estado → ℤ → Operacion → Option (Estado × Option String)
unfolding archivo_de recibir_con
recibir_pagina config s pid op = recibir_con config s pid op (archivo_de s.carpinchos pid)

-- The inner loop of the FIJA case, from process `d` on: process d is compared with the file d.
unfoldable pub contar_carpinchos : List Proceso → List String → Option ℕ
contar_carpinchos [] archivos = some 0
contar_carpinchos (c ∷ cs) [] = none
contar_carpinchos (c ∷ cs) (archivo ∷ archivos) = do
  n ← contar_carpinchos cs archivos
  some (if str_eq c.archivo archivo then suc n else n)

-- The three loops of the FIJA case; each file has the same counter.
unfoldable pub hay_lugar_fija : Config → List Proceso → ℕ → Option Bool
unfolding contar_carpinchos
hay_lugar_fija config cs zero = some false
hay_lugar_fija config cs (suc n) = contar_carpinchos cs config.archivos_swamp >>= λ contador.
    (if config.marcos_maximos == 0
      then none
      else some (ltb contador (cant_marcos config / config.marcos_maximos)))

-- chequearAsignacion in the FIJA case: the loop returns in its first round.
unfoldable pub chequear_fija : Config → List Proceso → ℤ → Option Bool
unfolding hay_lugar_fija
chequear_fija config [] pid = some true
chequear_fija config (c ∷ cs) pid =
    if eq_ℤ c.pid pid
    then some (ltb_ℤ c.cant_marcos (pos config.marcos_maximos))
    else hay_lugar_fija config (c ∷ cs) (obtener_cant_archivos config)

unfoldable pub es_lugar : Option ℕ → Bool
es_lugar none = false
es_lugar (some i) = true

-- `true` is the answer 0, and `false` is -1. A null file name is read by strcmp.
unfoldable pub chequear_asignacion : Config → Estado → ℤ → Option (Estado × Bool)
unfolding chequear_fija recibir_pagina hay_espacio_archivo es_lugar
chequear_asignacion config s pid =
    if eq_ℤ s.caso (pos 0)
    then (chequear_fija config s.carpinchos pid >>= λ b. some (s, b))
    else if eq_ℤ s.caso (pos 1)
    then (recibir_pagina config s pid escribir >>= λ r.
        (r.1 >>= λ archivo.
        (hay_espacio_archivo config r.0.marcos archivo >>= λ lugar. some (r.0, es_lugar lugar))))
    else some (s, false)
