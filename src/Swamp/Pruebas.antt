-- ===== src/Swamp/Pruebas.antt =====
-- Two swap files of two frames, and runs of swamp-v2/src/swamp.c on them.
use Prim.Native.String.{String}
use exitos_con_esto.Prelude.{
  ℕ, ◌≡◌, refl, List, [], ◌∷◌, ◌++◌, Option, none, some, arith, map, replicate, take, pos, ℤ,
}
use exitos_con_esto.Swamp.Estado.{Config, Estado, Proceso}
use exitos_con_esto.Swamp.Marcos.{
  cant_marcos, conseguir_marco, iniciar_marcos, obtener_cant_archivos,
}
use exitos_con_esto.Swamp.Archivos.{archivo_de, crear_archivos}
use exitos_con_esto.Swamp.Operaciones.{
  Lectura, envio_resultado, escribir_swap, leer_swap, pagina_leida, pedido_escribir,
  server_procesar_mensaje, sin_respuesta,
}
use exitos_con_esto.Swamp.Disposicion.{clave}
use exitos_con_esto.Swamp.Disposicion.Alcanzable.{
  Alcanzable, Alcanzable-EnOrden, EnOrden, inicio, paso,
}
use exitos_con_esto.Swamp.Espacio.{Alcanzable-Espacio, Espacio}
use exitos_con_esto.Swamp.Grabado.{Respuesta, escribir_swap-Grabado}
use exitos_con_esto.Swamp.IdaVuelta.{SinSalto, leer_swap-escribir_swap}
use exitos_con_esto.Swamp.Fallas.{leer_swap-no_libera}

abbrev config : Config
config = record {
  archivos_swamp = "a" ∷ "b" ∷ [];
  cant_archivos_swamp = b'a' ∷ b',' ∷ b'b' ∷ [];
  tamanio_swamp = 128;
  tamanio_pagina = 64;
  marcos_maximos = 2;
}

abbrev sin_uso : ℕ → ℤ
sin_uso i = pos 0

abbrev vacio : String → List ℕ
vacio archivo = []

abbrev valor {ℓ} : {A : Type ℓ} → Option A → A → A
valor none d = d
valor (some a) d = a

abbrev nuevo : Estado
nuevo = record {
  marcos = valor (iniciar_marcos config sin_uso) [];
  carpinchos = [];
  caso = pos 1;
  disco = valor (crear_archivos config vacio) vacio;
}

nuevo-Alcanzable : Alcanzable config nuevo
unfolding iniciar_marcos crear_archivos cant_marcos obtener_cant_archivos
nuevo-Alcanzable =
    inicio sin_uso (valor (iniciar_marcos config sin_uso) []) vacio
      (valor (crear_archivos config vacio) vacio) (pos 1) refl refl

Alcanzable-EnOrden_example : EnOrden config (map clave nuevo.marcos)
Alcanzable-EnOrden_example = Alcanzable-EnOrden config nuevo nuevo-Alcanzable

Alcanzable-Espacio_example : Espacio config nuevo.marcos "b"
Alcanzable-Espacio_example = Alcanzable-Espacio config nuevo "b" nuevo-Alcanzable

abbrev hoja : List ℕ
hoja = replicate 64 65

abbrev escrito : Estado
escrito = (valor (escribir_swap config nuevo (pos 7) (pos 1) hoja) (nuevo, pos 0)).0

escrito_bien : escribir_swap config nuevo (pos 7) (pos 1) hoja ≡ some (escrito, pos 0)
unfolding escribir_swap iniciar_marcos crear_archivos cant_marcos obtener_cant_archivos
escrito_bien = refl

escribir_swap-Grabado_example : Respuesta config nuevo escrito (pos 7) (pos 1) hoja (pos 0)
escribir_swap-Grabado_example =
    escribir_swap-Grabado config nuevo escrito (pos 7) (pos 1) (pos 0) hoja escrito_bien

leer_swap-escribir_swap_example :
    (u : Estado) × (leer_swap config escrito (pos 7) (pos 1) []
      ≡ some (u, pagina_leida (pos 7) (pos 1) 64 (take 63 hoja ++ 0 ∷ [])))
unfolding escribir_swap iniciar_marcos crear_archivos cant_marcos obtener_cant_archivos
    conseguir_marco archivo_de
leer_swap-escribir_swap_example =
    leer_swap-escribir_swap config nuevo escrito (pos 7) (pos 1) hoja [] "a" nuevo-Alcanzable
      (omega arith) refl refl (omega arith) sin_saltos refl escrito_bien refl
  where
    sin_saltos : SinSalto hoja
    sin_saltos = ground arith

abbrev dos : Estado
dos = (valor (escribir_swap config escrito (pos 8) (pos 5) hoja) (nuevo, pos 0)).0

dos_bien : escribir_swap config escrito (pos 8) (pos 5) hoja ≡ some (dos, pos 0)
unfolding escribir_swap iniciar_marcos crear_archivos cant_marcos obtener_cant_archivos
dos_bien = refl

escrito-Alcanzable : Alcanzable config escrito
unfolding server_procesar_mensaje
escrito-Alcanzable =
    paso nuevo escrito (pedido_escribir (pos 7) (pos 1) hoja) (envio_resultado (pos 0))
      nuevo-Alcanzable (rw escrito_bien refl)

dos-Alcanzable : Alcanzable config dos
unfolding server_procesar_mensaje
dos-Alcanzable =
    paso escrito dos (pedido_escribir (pos 8) (pos 5) hoja) (envio_resultado (pos 0))
      escrito-Alcanzable (rw dos_bien refl)

abbrev leido : Estado × Lectura
leido = valor (leer_swap config dos (pos 8) (pos 5) []) (nuevo, sin_respuesta)

leer_swap-no_libera_example : leido.0.marcos ≡ dos.marcos
unfolding leer_swap escribir_swap iniciar_marcos crear_archivos cant_marcos obtener_cant_archivos
    conseguir_marco
leer_swap-no_libera_example =
    leer_swap-no_libera config dos leido.0 (pos 8) (pos 5) [] leido.1 2 dos-Alcanzable refl
      (omega arith) refl

abbrev proceso : ℤ → ℤ → Proceso
proceso pid n = record { pid = pid; archivo = "a"; cant_marcos = n }
