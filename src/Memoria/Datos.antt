-- ===== src/Memoria/Datos.antt =====
-- The data of memoria/src/memory.h. Counters, sizes and pids are numbers.
use exitos_con_esto.Prelude.{ℕ, Bool, List, ℤ}

-- lib.h: the fields of the configuration that the heap reads. `fija` is the test
-- strcmp(tipo_asignacion, "FIJA") == 0.
pub record Config : Type 0 where
  pub tamanio_pagina : ℕ
  pub marcos_por_carpincho : ℕ
  pub fija : Bool

pub data StatusMemoryOp : Type 0 where
  exito sin_espacio direccion_invalida : StatusMemoryOp

pub data CheckAllocRespuesta : Type 0 where
  alloc_heap alloc_pagina alloc_solicitar_pagina alloc_sin_espacio : CheckAllocRespuesta

-- The metadata that stands before each block.
pub record HeapMetadata : Type 0 where
  pub prev_alloc : ℕ
  pub next_alloc : ℕ
  pub is_free : Bool

pub record Alloc : Type 0 where
  pub direccion : ℕ
  pub is_free : Bool
  pub tamanio_data : ℕ

pub record Pagina : Type 0 where
  pub marco : ℤ
  pub carpincho_pid : ℕ
  pub pagina : ℕ
  pub bit_presencia : Bool
  pub bit_de_uso : Bool
  pub bit_de_modificacion : Bool
  pub carp_num : ℕ
  pub timestamp : ℕ

pub record Carpincho : Type 0 where
  pub pid : ℕ
  pub tlb_hits : ℕ
  pub tlb_miss : ℕ
  pub algoritm_stack_pointer : ℕ
  pub paginas : List Pagina
  pub allocs : List Alloc
  pub numero : ℕ

-- A group of byte offsets in one page.
pub record PaginaAccion : Type 0 where
  pub pagina : ℕ
  pub direcciones : List ℕ
