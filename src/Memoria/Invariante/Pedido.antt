-- ===== src/Memoria/Invariante/Pedido.antt =====
-- memory_memalloc of memoria/src/memory.c on the list of processes.
use exitos_con_esto.Prelude.{
  ℕ, ◌+◌, ◌*◌, ◌≤◌, ◌<◌, ◌≡◌, ap, ◌⊎◌, inl, inr, List, [], ◌∷◌, ◌++◌, Option, none, some, arith,
  length, ◌==◌, pos, ℤ, Bool-cases, Option-cases, All, All-append,
}
use exitos_con_esto.Memoria.Datos.{
  Alloc, Carpincho, CheckAllocRespuesta, Config, alloc_heap, alloc_pagina, alloc_sin_espacio,
  alloc_solicitar_pagina,
}
use exitos_con_esto.Memoria.Allocs.{
  calcular_cantidad_paginas_necesaria, espacio_ocupado, obtener_alloc_de_un_carpincho,
  primer_libre_con_espacio,
}
use exitos_con_esto.Memoria.Metadatos.{Escritura, persistir_metadata_heap}
use exitos_con_esto.Memoria.Memalloc.{
  Paginador, Swamp, check_alloc, colocar, memalloc_asignar_en_heap_libre,
  memalloc_asignar_en_pagina_con_espacio, memalloc_asignar_en_paginas_nuevas,
}
use exitos_con_esto.Memoria.Carpinchos.{
  Carpinchos, Respuesta, buscar, create_carpincho, get_carpincho, memalloc_con, memalloc_nuevo,
  memory_memalloc, nuevo_carpincho, reemplazar,
}
use exitos_con_esto.Memoria.Bloques.Compactar.{limite}
use exitos_con_esto.Memoria.Invariante.{HeapValido}
use exitos_con_esto.Memoria.Invariante.Memalloc.{
  en_pagina_con_espacio-HeapValido, en_paginas_nuevas-HeapValido,
}
use exitos_con_esto.Memoria.Invariante.Truncar.{en_heap_libre-HeapValido}
use exitos_con_esto.Memoria.Invariante.Estrategia.{Estrategia, check_alloc-Estrategia}

-- The first free block that fits is the first of the list, or is not cut.
abbrev pub SinCorteInterior : Carpincho → ℕ → Type 0
SinCorteInterior c size =
    (k : ℕ) (a : Alloc)
    → primer_libre_con_espacio size 0 c.allocs ≡ some (k, a)
    → (k ≡ 0) ⊎ (a.tamanio_data ≤ size + 9)

-- A request that the heap can take: the addresses stay below 2^31.
abbrev pub Pedible : Carpincho → ℕ → Type 0
Pedible c size = (size + 9 + espacio_ocupado c.allocs < limite) × SinCorteInterior c size

-- What placing a block by a strategy needs.
abbrev Colocable : Config → Carpincho → ℕ → CheckAllocRespuesta → Type 0
Colocable config c size alloc_heap =
    (k : ℕ) × (a : Alloc) × (primer_libre_con_espacio size 0 c.allocs ≡ some (k, a))
Colocable config c size alloc_pagina =
    size + 9 + espacio_ocupado c.allocs ≤ length c.paginas * config.tamanio_pagina
Colocable config c size alloc_solicitar_pagina =
    length c.paginas * config.tamanio_pagina < size + 9 + espacio_ocupado c.allocs
Colocable config c size alloc_sin_espacio = Unit {0}

Estrategia-Colocable :
    (config : Config) (swamp : Swamp) (c : Carpincho) (size : ℕ) (r : CheckAllocRespuesta)
    → Estrategia config swamp c size r
    → Colocable config c size r
Estrategia-Colocable config swamp c size alloc_heap h = h
Estrategia-Colocable config swamp c size alloc_pagina h = h.1
Estrategia-Colocable config swamp c size alloc_solicitar_pagina h = h.1
Estrategia-Colocable config swamp c size alloc_sin_espacio h = tt

-- The list in an answer.
abbrev lista_de : {M : Type 0} → Option (Respuesta M) → List Carpincho
lista_de none = []
lista_de (some o) = o.carpinchos.lista

create_carpincho-nuevo :
    (s : Carpinchos) (pid : ℕ)
    → get_carpincho s pid ≡ none
    → let nuevo = nuevo_carpincho pid (s.contador + 1) in
      create_carpincho s pid
      ≡ (record { lista = s.lista ++ nuevo ∷ []; contador = s.contador + 1 }, nuevo)
unfolding create_carpincho
create_carpincho-nuevo s pid g = rw (g, create_carpincho)

module _ (paginador : Paginador) (config : Config) (swamp : Swamp) where
  open paginador use {Marcos}

  colocar_segun :
      (r : CheckAllocRespuesta) (m m' : Marcos) (c c' : Carpincho) (size : ℕ)
      (lugar : Option (ℕ × List Escritura))
      → 0 < config.tamanio_pagina
      → HeapValido config c
      → Pedible c size
      → Colocable config c size r
      → colocar paginador r config m c size ≡ some (m', c', lugar)
      → HeapValido config c'
  unfolding colocar
  colocar_segun alloc_sin_espacio m m' c c' size lugar z v h s e = let q : c ≡ c' = cc in rw q at v
  colocar_segun alloc_heap m m' c c' size lugar z v (h, corte) (k, a, p) e =
      elim (Option-cases (memalloc_asignar_en_heap_libre config c size)) [
        | inl f ↦ let e' = rw f at e in cc
        | inr ((d, dir, es), f) ↦
            let e' = rw f at e in
            let q : d ≡ c' = cc in
            rw q at (en_heap_libre-HeapValido config c d size dir k a es v p (corte k a p) f).0
      ]
  colocar_segun alloc_pagina m m' c c' size lugar z v (h, corte) s e =
      let q : (memalloc_asignar_en_pagina_con_espacio c size).0 ≡ c' = cc in
      rw q at (en_pagina_con_espacio-HeapValido config c size v s h).0
  colocar_segun alloc_solicitar_pagina m m' c c' size lugar z v (h, corte) s e =
      elim (Option-cases (memalloc_asignar_en_paginas_nuevas paginador config m c size)) [
        | inl f ↦ let e' = rw f at e in cc
        | inr ((m'', (d, dato, es)), f) ↦
            let e' = rw f at e in
            let q : d ≡ c' = cc in
            rw q at
              (en_paginas_nuevas-HeapValido paginador config m m'' c d size dato es z v s h f).0
      ]

  -- Placing a block as check_alloc says keeps the heap valid.
  pub colocar-HeapValido :
      (m m' : Marcos) (c c' : Carpincho) (size : ℕ) (lugar : Option (ℕ × List Escritura))
      → 0 < config.tamanio_pagina
      → HeapValido config c
      → Pedible c size
      → colocar paginador (check_alloc config swamp c size) config m c size ≡ some (m', c', lugar)
      → HeapValido config c'
  colocar-HeapValido m m' c c' size lugar z v h e =
      colocar_segun (check_alloc config swamp c size) m m' c c' size lugar z v h
        (Estrategia-Colocable config swamp c size _ (check_alloc-Estrategia config swamp c size)) e

  reemplazar-All :
      (cs : List Carpincho) (c : Carpincho)
      → HeapValido config c
      → All (HeapValido config) cs
      → All (HeapValido config) (reemplazar cs c)
  unfolding reemplazar
  reemplazar-All [] c v h = tt
  reemplazar-All (d ∷ cs) c v h = elim (Bool-cases (d.pid == c.pid)) [
    | inl s ↦ rw s (v, h.1)
    | inr n ↦ rw n (h.0, reemplazar-All cs c v h.1)
  ]

  buscar-All :
      (cs : List Carpincho) (pid : ℕ) (c : Carpincho)
      → buscar cs pid ≡ some c
      → All (HeapValido config) cs
      → HeapValido config c
  unfolding buscar
  buscar-All [] pid c e h = cc
  buscar-All (d ∷ cs) pid c e h = elim (Bool-cases (d.pid == pid)) [
    | inl s ↦ let q : d ≡ c = ground arith in rw q at h.0
    | inr n ↦ buscar-All cs pid c (rw n at e) h.1
  ]

  memalloc_con-All :
      (r : CheckAllocRespuesta) (s : Carpinchos) (m : Marcos) (c : Carpincho) (size : ℕ)
      (o : Respuesta Marcos)
      → 0 < config.tamanio_pagina
      → HeapValido config c
      → Pedible c size
      → Colocable config c size r
      → All (HeapValido config) s.lista
      → memalloc_con paginador config s m c size r ≡ some o
      → All (HeapValido config) o.carpinchos.lista
  unfolding memalloc_con
  memalloc_con-All r s m c size o z v h est todos e =
      elim (Option-cases (colocar paginador r config m c size)) [
        | inl f ↦ let e' = rw f at e in cc
        | inr ((m', c', none), f) ↦
            let w = colocar_segun r m m' c c' size none z v h est f in
            let e' = rw f at e in
            let q : reemplazar s.lista c' ≡ o.carpinchos.lista = ap lista_de e' in
            rw q at (reemplazar-All s.lista c' w todos)
        | inr ((m', c', some (dir, es)), f) ↦
            let w = colocar_segun r m m' c c' size (some (dir, es)) z v h est f in
            let e' = rw f at e in
            let q : reemplazar s.lista c' ≡ o.carpinchos.lista =
              elim (Option-cases (obtener_alloc_de_un_carpincho c'.allocs dir)) [
                | inl g ↦ let e'' = rw g at e' in cc
                | inr (a, g) ↦ elim (Option-cases (persistir_metadata_heap config c' a)) [
                  | inl k ↦ let e'' = rw k at (rw g at e') in cc
                  | inr (fs, k) ↦ ap lista_de (rw k at (rw g at e'))
                ]
              ] in
            rw q at (reemplazar-All s.lista c' w todos)
      ]

  nuevo-HeapValido : (pid numero : ℕ) → HeapValido config (nuevo_carpincho pid numero)
  unfolding espacio_ocupado
  nuevo-HeapValido pid numero = record {
    contiguos = tt;
    separados = tt;
    capacidad = omega arith;
    acotado = omega arith;
  }

  memalloc_nuevo-All :
      (s : Carpinchos) (m : Marcos) (pid size : ℕ) (o : Respuesta Marcos)
      → 0 < config.tamanio_pagina
      → size + 9 < limite
      → get_carpincho s pid ≡ none
      → All (HeapValido config) s.lista
      → memalloc_nuevo paginador config swamp s m pid size ≡ some o
      → All (HeapValido config) o.carpinchos.lista
  unfolding memalloc_nuevo espacio_ocupado primer_libre_con_espacio
  memalloc_nuevo-All s m pid size o z b g todos e =
      let cant : ℤ = calcular_cantidad_paginas_necesaria config (pos 0) size in
      let nuevo : Carpincho = nuevo_carpincho pid (s.contador + 1) in
      let s' : Carpinchos = record { lista = s.lista ++ nuevo ∷ []; contador = s.contador + 1 } in
      let e' = rw (create_carpincho-nuevo s pid g) at e in
      elim (Bool-cases (swamp pid cant)) [
        | inr n ↦ let q : s.lista ≡ o.carpinchos.lista = ap lista_de (rw n at e') in rw q at todos
        | inl p ↦
            memalloc_con-All alloc_solicitar_pagina s' m nuevo size o z
              (nuevo-HeapValido pid (s.contador + 1)) (omega arith, λ k a f. cc) (omega arith)
              (All-append (HeapValido config) s.lista (nuevo ∷ []) todos
                (nuevo-HeapValido pid (s.contador + 1), tt))
              (rw p at e')
      ]

  -- If the pages have a size, all heaps are valid, the request with its 9 bytes of metadata stays
  -- below 2^31, also beside the blocks of the process, and for a known process the first free
  -- block that fits is the first of its list or is not cut, then after a call of memory_memalloc
  -- that does not fault all heaps are valid.
  pub memory_memalloc-All :
      (s : Carpinchos) (m : Marcos) (pid size : ℕ) (o : Respuesta Marcos)
      → 0 < config.tamanio_pagina
      → size + 9 < limite
      → ((c : Carpincho) → get_carpincho s pid ≡ some c → Pedible c size)
      → All (HeapValido config) s.lista
      → memory_memalloc paginador config swamp s m pid size ≡ some o
      → All (HeapValido config) o.carpinchos.lista
  unfolding memory_memalloc
  memory_memalloc-All s m pid size o z b ped todos e = elim (Option-cases (get_carpincho s pid)) [
    | inl g ↦ memalloc_nuevo-All s m pid size o z b g todos (rw (g, memory_memalloc) at e)
    | inr (c, g) ↦
        memalloc_con-All (check_alloc config swamp c size) s m c size o z
          (buscar-All s.lista pid c (unfold get_carpincho in g) todos) (ped c g)
          (Estrategia-Colocable config swamp c size _ (check_alloc-Estrategia config swamp c size))
          todos (rw (g, memory_memalloc) at e)
  ]
