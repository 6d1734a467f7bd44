-- ===== src/Memoria/PruebasVuelve.antt =====
-- obtener_marco_para_pagina of memoria/src/memory.c on the page of PruebasPaginas, with another sort.
use exitos_con_esto.Prelude.{refl, false, arith}
use exitos_con_esto.Memoria.Tlb.Pruebas.{ordena, por_insercion}
use exitos_con_esto.Memoria.Carpinchos.{create_carpincho}
use exitos_con_esto.Memoria.Marcos.{Opciones, pagina_is_in_cache}
use exitos_con_esto.Memoria.Paginas.{create_pagina, obtener_marco_para_pagina}
use exitos_con_esto.Memoria.Cuentas.{Devuelve}
use exitos_con_esto.Memoria.Coherencia.Alcanzable.{Alcanzable-Coherente, inicializar_memoria}
use exitos_con_esto.Memoria.Coherencia.Vuelve.{EnMarco, obtener_marco_para_pagina_vuelve}
use exitos_con_esto.Memoria.PruebasPaginas.{
  creado, creado-Alcanzable, cuentas, elementos, opciones, swap,
}

abbrev con_otro_orden : Opciones
con_otro_orden = record (opciones false) { ordenar_tlb = por_insercion }

obtener_marco_para_pagina_vuelve_example :
    Devuelve (EnMarco 7 1) (obtener_marco_para_pagina swap con_otro_orden 7 1 creado.0)
unfolding create_pagina inicializar_memoria create_carpincho pagina_is_in_cache
obtener_marco_para_pagina_vuelve_example =
    obtener_marco_para_pagina_vuelve swap con_otro_orden ordena 7 1 (omega arith) creado.0 _
      (Alcanzable-Coherente swap (opciones false) (cuentas false) (elementos false) creado.0
        creado-Alcanzable)
      refl (record { entradas = refl; puntero = omega arith }) refl
