-- ===== src/Memoria/PruebasLecturas.antt =====
-- memory_memread of memoria/src/memory.c of a block of three bytes in a page of sixteen.
use exitos_con_esto.Prelude.{
  ℕ, ◌≡◌, refl, false, List, [], ◌∷◌, some, arith, ℤ, pos, eq_ℤ, ◌⊎◌, ◌>>=◌,
}
use exitos_con_esto.Memoria.Datos.{Carpincho, Pagina, StatusMemoryOp, direccion_invalida, exito}
use exitos_con_esto.Memoria.Carpinchos.{create_carpincho, get_carpincho}
use exitos_con_esto.Memoria.Allocs.{obtener_alloc_de_un_carpincho}
use exitos_con_esto.Memoria.Marcos.{Globales, Opciones}
use exitos_con_esto.Memoria.Paginas.{create_pagina, escribir_en_pagina}
use exitos_con_esto.Memoria.Cuentas.{Devuelve}
use exitos_con_esto.Memoria.Coherencia.Alcanzable.{
  Alcanzable, Alcanzable-Coherente, Paso, inicializar_memoria,
}
use exitos_con_esto.Memoria.Lecturas.{memory_memread, memwrite_en_marcos}
use exitos_con_esto.Memoria.Lecturas.Escribir.{memory_memread-memwrite_en_marcos}
use exitos_con_esto.Memoria.PruebasPaginas.{
  cuentas, elementos, opciones, pagina_nula, swap, valor_de,
}

abbrev grandes : Opciones
grandes = record (opciones false) {
  config = record { tamanio_pagina = 16; marcos_por_carpincho = 2; fija = false };
  tamanio = 32;
}

abbrev vacia : Globales swap.Estado
vacia = inicializar_memoria grandes (λ n. 0) []

abbrev con_proceso : Globales swap.Estado
con_proceso = record vacia { carpinchos = (create_carpincho vacia.carpinchos 7).0 }

abbrev con_pagina : Globales swap.Estado × Pagina
con_pagina = valor_de (con_proceso, pagina_nula) (create_pagina swap grandes 7 con_proceso)

con_pagina-Alcanzable : Alcanzable swap grandes con_pagina.0
unfolding create_pagina inicializar_memoria create_carpincho
con_pagina-Alcanzable =
    Alcanzable.luego con_proceso con_pagina.0
      (Alcanzable.luego vacia con_proceso (Alcanzable.inicio (λ n. 0) []) (Paso.entra 7 refl))
      (Paso.crea 7 con_pagina.1 refl)

-- The block is behind its metadata, at the addresses 9 to 11.
abbrev del_proceso : Carpincho
del_proceso =
    record (valor_de
      (record {
        pid = 0;
        tlb_hits = 0;
        tlb_miss = 0;
        algoritm_stack_pointer = 0;
        paginas = [];
        allocs = [];
        numero = 0;
      })
      (get_carpincho (con_pagina.0).carpinchos 7)) {
        allocs = record { direccion = 0; is_free = false; tamanio_data = 3 } ∷ [];
      }

abbrev con_bloque : Globales swap.Estado
con_bloque = record (con_pagina.0) {
  carpinchos = record ((con_pagina.0).carpinchos) { lista = del_proceso ∷ [] };
}

abbrev tres_bytes : List ℕ
tres_bytes = 11 ∷ 0 ∷ 13 ∷ []

abbrev con_bytes : Globales swap.Estado × StatusMemoryOp
con_bytes =
    valor_de (con_bloque, direccion_invalida)
      (memwrite_en_marcos swap grandes con_bloque 7 9 3 tres_bytes)

memory_memread-memwrite_en_marcos_example :
    ((r : ℤ) × (escribir_en_pagina swap grandes 7 1 tres_bytes 9 con_bloque ≡ some (con_bytes.0, r))
      × (eq_ℤ r (pos 0) ≡ false))
    ⊎ Devuelve
        (λ r. (r.1 ≡ exito) × (r.2 ≡ tres_bytes))
        (memory_memread swap grandes con_bytes.0 7 9 3 (0 ∷ 0 ∷ 0 ∷ []))
unfolding create_pagina memwrite_en_marcos inicializar_memoria create_carpincho get_carpincho
    obtener_alloc_de_un_carpincho
memory_memread-memwrite_en_marcos_example =
    memory_memread-memwrite_en_marcos swap grandes (cuentas false) con_bloque con_bytes.0 7 9 2
      del_proceso con_pagina.1 tres_bytes (0 ∷ 0 ∷ 0 ∷ [])
      (Alcanzable-Coherente swap grandes (cuentas false) (elementos false) con_pagina.0
        con_pagina-Alcanzable)
      refl refl (omega arith) (omega arith) (omega arith) (omega arith) refl refl refl

-- The right side is the one that holds there.
lee_lo_escrito :
    (memory_memread swap grandes con_bytes.0 7 9 3 (0 ∷ 0 ∷ 0 ∷ []) >>= λ r. some r.2)
    ≡ some tres_bytes
unfolding create_pagina memwrite_en_marcos memory_memread inicializar_memoria create_carpincho
    get_carpincho obtener_alloc_de_un_carpincho
lee_lo_escrito = refl
