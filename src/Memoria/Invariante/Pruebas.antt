-- ===== src/Memoria/Invariante/Pruebas.antt =====
-- A process with a heap of one block of 20 bytes, writes to it by memory_memwrite of memoria/src/memory.c, and the list of it.
use exitos_con_esto.Prelude.{
  ℕ, ◌≡◌, refl, true, false, List, [], ◌∷◌, some, arith, get_elem?, replicate, pos, All,
}
use exitos_con_esto.Memoria.Datos.{Alloc, Carpincho, Config, Pagina, exito}
use exitos_con_esto.Memoria.Allocs.{espacio_ocupado, obtener_alloc_de_un_carpincho}
use exitos_con_esto.Memoria.Metadatos.{Escritura}
use exitos_con_esto.Memoria.Direcciones.{memory_memwrite}
use exitos_con_esto.Memoria.Carpinchos.{Carpinchos, buscar, memory_memfree_all}
use exitos_con_esto.Memoria.Procesos.{Fin, PidUnicos, memory_memfree_all-Fin}
use exitos_con_esto.Memoria.Invariante.{HeapValido}
use exitos_con_esto.Memoria.Invariante.Alcance.{Alcance}
use exitos_con_esto.Memoria.Invariante.Memwrite.{
  Dentro, memory_memwrite-Dentro, memory_memwrite_exito,
}

abbrev config : Config
config = record { tamanio_pagina = 32; marcos_por_carpincho = 4; fija = false }

abbrev pagina : Pagina
pagina = record {
  marco = pos 0;
  carpincho_pid = 7;
  pagina = 1;
  bit_presencia = true;
  bit_de_uso = false;
  bit_de_modificacion = false;
  carp_num = 1;
  timestamp = 0;
}

abbrev bloque : Alloc
bloque = record { direccion = 0; is_free = false; tamanio_data = 20 }

abbrev carpincho : Carpincho
carpincho = record {
  pid = 7;
  tlb_hits = 0;
  tlb_miss = 0;
  algoritm_stack_pointer = 0;
  paginas = pagina ∷ [];
  allocs = bloque ∷ [];
  numero = 1;
}

valido : HeapValido config carpincho
unfolding espacio_ocupado
valido = record {
  contiguos = (refl, tt);
  separados = (refl, tt);
  capacidad = omega arith;
  acotado = omega arith;
}

abbrev valor : List ℕ
valor = replicate 5 65

memory_memwrite_exito_example :
    (es : List Escritura) × (memory_memwrite config (some carpincho) 12 5 valor ≡ some (exito, es))
memory_memwrite_exito_example =
    memory_memwrite_exito config carpincho 12 5 0 valor bloque (omega arith) (omega arith) valido
      refl (omega arith) (omega arith, omega arith)

memory_memwrite-Dentro_example :
    (i : ℕ) × (a : Alloc) × (get_elem? carpincho.allocs i ≡ some a)
    × Dentro a 12 5
    × All
        (Alcance config carpincho 12 5)
        (record { pagina = pagina; buffer = valor; offset = 12 } ∷ [])
unfolding memory_memwrite obtener_alloc_de_un_carpincho
memory_memwrite-Dentro_example =
    memory_memwrite-Dentro config carpincho 12 5 valor
      (record { pagina = pagina; buffer = valor; offset = 12 } ∷ []) (omega arith) valido refl

abbrev procesos : Carpinchos
procesos = record { lista = carpincho ∷ []; contador = 1 }

procesos-PidUnicos : PidUnicos procesos.lista
unfolding buscar
procesos-PidUnicos = (refl, tt)

memory_memfree_all-Fin_example : Fin procesos 7 (memory_memfree_all procesos 7)
memory_memfree_all-Fin_example = memory_memfree_all-Fin procesos 7 procesos-PidUnicos
