-- ===== src/Memoria/Carpinchos.antt =====
-- The process list of the memory, and memory_memalloc whole: memoria/src/memory.c.
use exitos_con_esto.Prelude.{
  ℕ, suc, ◌+◌, List, [], ◌∷◌, ◌++◌, Option, none, some, ◌==◌, if◌then◌else◌, ◌>>=◌, remove_at, pos,
}
use exitos_con_esto.Memoria.Datos.{
  Carpincho, CheckAllocRespuesta, Config, StatusMemoryOp, alloc_solicitar_pagina,
  direccion_invalida, exito, sin_espacio,
}
use exitos_con_esto.Memoria.Allocs.{
  calcular_cantidad_paginas_necesaria, obtener_alloc_de_un_carpincho,
}
use exitos_con_esto.Memoria.Metadatos.{Escritura, persistir_metadata_heap}
use exitos_con_esto.Memoria.Memalloc.{Paginador, Swamp, check_alloc, colocar}

-- The global carpinchos_list and contador_carpinchos.
pub record Carpinchos : Type 0 where
  pub lista : List Carpincho
  pub contador : ℕ

unfoldable pub buscar : List Carpincho → ℕ → Option Carpincho
buscar [] pid = none
buscar (c ∷ cs) pid = if c.pid == pid then some c else buscar cs pid

unfoldable pub get_carpincho : Carpinchos → ℕ → Option Carpincho
unfolding buscar
get_carpincho s pid = buscar s.lista pid

-- A write through the pointer that get_carpincho gives.
unfoldable pub reemplazar : List Carpincho → Carpincho → List Carpincho
reemplazar [] c = []
reemplazar (d ∷ cs) c = if d.pid == c.pid then c ∷ cs else d ∷ reemplazar cs c

abbrev pub nuevo_carpincho : ℕ → ℕ → Carpincho
nuevo_carpincho pid numero = record {
  pid = pid;
  tlb_hits = 0;
  tlb_miss = 0;
  algoritm_stack_pointer = 0;
  paginas = [];
  allocs = [];
  numero = numero;
}

unfoldable pub create_carpincho : Carpinchos → ℕ → Carpinchos × Carpincho
unfolding get_carpincho
create_carpincho s pid =
    let nuevo = nuevo_carpincho pid (s.contador + 1) in
    elim (get_carpincho s pid) [
      | some c ↦ (s, c)
      | none ↦ (record { lista = s.lista ++ nuevo ∷ []; contador = s.contador + 1 }, nuevo)
    ]

-- The last index of the pid, which memory_memfree_all removes.
unfoldable pub ultimo_indice : ℕ → List Carpincho → ℕ → Option ℕ
ultimo_indice i [] pid = none
ultimo_indice i (c ∷ cs) pid = elim (ultimo_indice (suc i) cs pid) [
  | some j ↦ some j
  | none ↦ if c.pid == pid then some i else none
]

unfoldable pub memory_memfree_all : Carpinchos → ℕ → Carpinchos × StatusMemoryOp
unfolding get_carpincho ultimo_indice
memory_memfree_all s pid = elim (get_carpincho s pid) [
  | none ↦ (s, direccion_invalida)
  | some c ↦ elim (ultimo_indice 0 s.lista pid) [
    | none ↦ (s, exito)
    | some i ↦ (record s { lista = remove_at s.lista i }, exito)
  ]
]

-- What memory_memalloc returns: the state, the code, `*direccion` if it was written, and the
-- metadata writes.
pub record Respuesta (Marcos : Type 0) : Type 0 where
  pub carpinchos : Carpinchos
  pub marcos : Marcos
  pub status : StatusMemoryOp
  pub direccion : Option ℕ
  pub escrituras : List Escritura

module _ (paginador : Paginador) where
  open paginador use {Marcos}

  -- From the switch on.
  unfoldable pub memalloc_con :
      Config → Carpinchos → Marcos → Carpincho → ℕ → CheckAllocRespuesta → Option (Respuesta Marcos)
  unfolding reemplazar
  memalloc_con config s m c size check = do
    (m', c', lugar) ← colocar paginador check config m c size
    let s' = record s { lista = reemplazar s.lista c' }
    elim lugar [
      | none ↦ some (record {
        carpinchos = s';
        marcos = m';
        status = sin_espacio;
        direccion = none;
        escrituras = [];
      })
      | some (dir, es) ↦ obtener_alloc_de_un_carpincho c'.allocs dir >>= λ alloc.
          persistir_metadata_heap config c' alloc >>= λ fs. some (record {
            carpinchos = s';
            marcos = m';
            status = exito;
            direccion = some dir;
            escrituras = es ++ fs;
          })
    ]

  -- The process is new: only the swap process is asked.
  unfoldable pub memalloc_nuevo :
      Config → Swamp → Carpinchos → Marcos → ℕ → ℕ → Option (Respuesta Marcos)
  memalloc_nuevo config swamp s m pid size =
      let cant = calcular_cantidad_paginas_necesaria config (pos 0) size in
      let (s', c) = create_carpincho s pid in
      if swamp pid cant
      then memalloc_con config s' m c size alloc_solicitar_pagina
      else some (record {
        carpinchos = s;
        marcos = m;
        status = sin_espacio;
        direccion = none;
        escrituras = [];
      })

  unfoldable pub memory_memalloc :
      Config → Swamp → Carpinchos → Marcos → ℕ → ℕ → Option (Respuesta Marcos)
  unfolding get_carpincho
  memory_memalloc config swamp s m pid size = elim (get_carpincho s pid) [
    | none ↦ memalloc_nuevo config swamp s m pid size
    | some c ↦ memalloc_con config s m c size (check_alloc config swamp c size)
  ]
