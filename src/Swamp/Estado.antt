-- ===== src/Swamp/Estado.antt =====
-- The state of the swap process: swamp-v2/src/swamp.h, and the globals of swamp.c.
use Prim.Native.String.{String}
use exitos_con_esto.Prelude.{ℕ, List, ℤ}

-- lib.h: the configuration. The count of files is the count of the tokens of a text.
pub record Config : Type 0 where
  pub archivos_swamp : List String
  pub cant_archivos_swamp : List ℕ
  pub tamanio_swamp : ℕ
  pub tamanio_pagina : ℕ
  pub marcos_maximos : ℕ

-- The typedef enum estado.
pub data Operacion : Type 0 where
  leer escribir puede_escribir caso_asignacion : Operacion

pub record Proceso : Type 0 where
  pub pid : ℤ
  pub archivo : String
  pub cant_marcos : ℤ

-- A frame is free when `indice` is -1.
pub record Marco : Type 0 where
  pub archivo : String
  pub marco : ℕ
  pub indice : ℤ
  pub pid : ℤ

-- `caso` is casoAsignacion: 0 is FIJA, 1 is GLOBAL. `disco` holds the bytes of each swap file.
pub record Estado : Type 0 where
  pub marcos : List Marco
  pub carpinchos : List Proceso
  pub caso : ℤ
  pub disco : String → List ℕ
