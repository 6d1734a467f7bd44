-- ===== src/Memoria/Lecturas.antt =====
-- memory_memread of memoria/src/memory.c over the frames, and the writes that memory_memwrite asks
-- for.
pub mod UnaPagina
pub mod TrasEscribir
pub mod Escribir
use exitos_con_esto.Prelude.{
  ℕ, zero, suc, List, [], ◌∷◌, Option, none, some, if◌then◌else◌, ◌>>=◌, get_elem?, length,
}
use exitos_con_esto.Memoria.Datos.{Pagina, PaginaAccion, StatusMemoryOp, direccion_invalida, exito}
use exitos_con_esto.Memoria.Metadatos.{Escritura, agrupar}
use exitos_con_esto.Memoria.Direcciones.{
  memory_memwrite, validar_direccion_logica_escritura_con_size,
}
use exitos_con_esto.Memoria.Carpinchos.{get_carpincho}
use exitos_con_esto.Memoria.Cache.{escribir_bytes}
use exitos_con_esto.Memoria.Marcos.{Globales, Opciones, Swap}
use exitos_con_esto.Memoria.Paginas.{escribir_en_pagina, leer_en_pagina}

abbrev pub primera_direccion : List ℕ → Option ℕ
primera_direccion [] = none
primera_direccion (d ∷ ds) = some d

module _ (swap : Swap) (o : Opciones) where
  open swap use {Estado}

  -- The loop over the groups; `anterior` is the size of the group before. A page that cannot be read
  -- is a null block, which memcpy reads.
  unfoldable pub leer_grupos :
      List Pagina
      → ℕ
      → List PaginaAccion
      → List ℕ
      → Globales Estado
      → Option (Globales Estado × List ℕ)
  unfolding leer_en_pagina
  leer_grupos paginas anterior [] buffer s = some (s, buffer)
  leer_grupos paginas anterior (nodo ∷ nodos) buffer s = do
    p ← get_elem? paginas nodo.pagina
    offset ← primera_direccion nodo.direcciones
    let tamanio = length nodo.direcciones
    (s', leido) ← leer_en_pagina swap o p.carpincho_pid p.pagina tamanio offset s
    parcial ← leido
    buffer' ← escribir_bytes buffer anterior parcial
    leer_grupos paginas tamanio nodos buffer' s'

  -- `buffer` is the block for the bytes.
  unfoldable pub memory_memread :
      Globales Estado → ℕ → ℕ → ℕ → List ℕ → Option (Globales Estado × StatusMemoryOp × List ℕ)
  unfolding get_carpincho validar_direccion_logica_escritura_con_size agrupar leer_grupos
  memory_memread s pid pos size buffer =
      let invalida = some (s, direccion_invalida, buffer) in
      elim (get_carpincho s.carpinchos pid) [
        | none ↦ invalida
        | some c ↦
            if validar_direccion_logica_escritura_con_size o.config c pos size
            then (leer_grupos c.paginas 0 (agrupar o.config.tamanio_pagina pos 0 size []) buffer s
                >>= λ r. some (r.0, exito, r.1))
            else invalida
      ]

  -- The calls of escribir_en_pagina, whose results are not looked at.
  unfoldable pub hacer_escrituras : List Escritura → Globales Estado → Option (Globales Estado)
  unfolding escribir_en_pagina
  hacer_escrituras [] s = some s
  hacer_escrituras (e ∷ es) s = do
    let p = e.pagina
    (s', r) ← escribir_en_pagina swap o p.carpincho_pid p.pagina e.buffer e.offset s
    hacer_escrituras es s'

  unfoldable pub memwrite_en_marcos :
      Globales Estado → ℕ → ℕ → ℕ → List ℕ → Option (Globales Estado × StatusMemoryOp)
  unfolding get_carpincho memory_memwrite hacer_escrituras
  memwrite_en_marcos s pid pos size valor = do
    (estado, escrituras) ← memory_memwrite o.config (get_carpincho s.carpinchos pid) pos size valor
    s' ← hacer_escrituras escrituras s
    some (s', estado)
