-- ===== src/Memoria/PruebasReleer.antt =====
-- A write to the page of PruebasPaginas, and to a memory of two frames, read back.
use exitos_con_esto.Prelude.{ℕ, List, [], ◌∷◌, ◌≡◌, refl, false, some, arith, ℤ, pos, length}
use exitos_con_esto.Memoria.Carpinchos.{create_carpincho}
use exitos_con_esto.Memoria.Marcos.{Globales}
use exitos_con_esto.Memoria.Paginas.{create_pagina, escribir_en_pagina, leer_en_pagina}
use exitos_con_esto.Memoria.Cuentas.{Devuelve}
use exitos_con_esto.Memoria.Coherencia.Alcanzable.{Alcanzable-Coherente, inicializar_memoria}
use exitos_con_esto.Memoria.Coherencia.Releer.{leer_en_pagina-escribir_en_pagina}
use exitos_con_esto.Memoria.PruebasPaginas.{
  creado, creado-Alcanzable, cuentas, elementos, entrado, opciones, swap, valor_de,
}

abbrev dos_bytes : List ℕ
dos_bytes = 11 ∷ 12 ∷ []

abbrev escrito : Globales swap.Estado × ℤ
escrito =
    valor_de (entrado, pos 0) (escribir_en_pagina swap (opciones false) 7 1 dos_bytes 1 creado.0)

escribe_dos_bytes :
    escribir_en_pagina swap (opciones false) 7 1 dos_bytes 1 creado.0 ≡ some (escrito.0, pos 0)
unfolding create_pagina escribir_en_pagina inicializar_memoria create_carpincho
escribe_dos_bytes = refl

leer_en_pagina-escribir_en_pagina_example :
    Devuelve
      (λ r. r.1 ≡ some dos_bytes)
      (leer_en_pagina swap (opciones false) 7 1 (length dos_bytes) 1 escrito.0)
leer_en_pagina-escribir_en_pagina_example =
    leer_en_pagina-escribir_en_pagina swap (opciones false) (cuentas false) 7 1 (omega arith)
      dos_bytes 1 creado.0 escrito.0
      (Alcanzable-Coherente swap (opciones false) (cuentas false) (elementos false) creado.0
        creado-Alcanzable)
      escribe_dos_bytes
