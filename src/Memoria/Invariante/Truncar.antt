-- ===== src/Memoria/Invariante/Truncar.antt =====
-- memalloc_asignar_en_heap_libre of memoria/src/memory.c: using a free block, whole or cut.
use exitos_con_esto.Prelude.{
  ℕ, zero, suc, ◌+◌, ◌-◌, ◌≤◌, ◌<◌, ◌≡◌, refl, ◌⊎◌, inl, inr, Bool, true, false, ◌&&◌, List, [],
  ◌∷◌, some, arith, get_elem?, set, u32, ltb, Bool-cases, Option-cases,
}
use exitos_con_esto.Memoria.Datos.{Alloc, Carpincho, Config}
use exitos_con_esto.Memoria.Allocs.{
  crear_alloc, espacio_ocupado, libre_con_espacio, primer_libre_con_espacio,
}
use exitos_con_esto.Memoria.Metadatos.{Escritura, persistir_metadata_heap}
use exitos_con_esto.Memoria.Memalloc.{memalloc_asignar_en_heap_libre, truncar}
use exitos_con_esto.Memoria.Bloques.Unir.{
  Contiguos, Contiguos-cast, Contiguos-set, SinLibresJuntos, espacio_ocupado-set,
}
use exitos_con_esto.Memoria.Bloques.Buscar.{Contiguos-Esta}
use exitos_con_esto.Memoria.Bloques.Compactar.{limite}
use exitos_con_esto.Memoria.Invariante.{HeapValido}

-- What the search gives is a free block of the list that is large enough.
primer_libre-correcto :
    (allocs : List Alloc) (size i k : ℕ) (a : Alloc)
    → primer_libre_con_espacio size i allocs ≡ some (k, a)
    → (j : ℕ) × (k ≡ i + j)
      × (get_elem? allocs j ≡ some a)
      × (a.is_free ≡ true)
      × (size ≤ a.tamanio_data)
unfolding primer_libre_con_espacio
primer_libre-correcto [] size i k a e = cc
primer_libre-correcto (x ∷ xs) size i k a e = elim (Bool-cases (libre_con_espacio size x)) [
  | inl s ↦ unfold libre_con_espacio in (0, ground arith, ground arith, ground arith, ground arith)
  | inr n ↦
      let (j, p, q, l, t) = primer_libre-correcto xs size (suc i) k a (rw n at e) in
      (suc j, omega (arith, p), q, l, t)
]

SinLibresJuntos-set :
    (allocs : List Alloc) (previo : Bool) (i : ℕ) (b : Alloc)
    → b.is_free ≡ false
    → SinLibresJuntos previo allocs
    → SinLibresJuntos previo (set allocs i b)
SinLibresJuntos-set [] previo i b u h = tt
SinLibresJuntos-set (x ∷ []) previo zero b u h = ground arith
SinLibresJuntos-set (x ∷ y ∷ xs) previo zero b u h = ground arith
SinLibresJuntos-set (x ∷ xs) previo (suc i) b u h =
    (h.0, SinLibresJuntos-set xs x.is_free i b u h.1)

-- The whole block is taken.
entero-HeapValido :
    (config : Config) (c : Carpincho) (k : ℕ) (a : Alloc)
    → HeapValido config c
    → get_elem? c.allocs k ≡ some a
    → HeapValido config (record c { allocs = set c.allocs k (record a { is_free = false }) })
entero-HeapValido config c k a v e =
    let b : Alloc = record a { is_free = false } in
    let o = espacio_ocupado-set c.allocs k a b e refl in
    record {
      contiguos = Contiguos-set c.allocs 0 k a b e refl refl v.contiguos;
      separados = SinLibresJuntos-set c.allocs false k b refl v.separados;
      capacidad = rw o v.capacidad;
      acotado = rw o v.acotado;
    }

-- The first block of the list is cut.
truncar_primero :
    (a : Alloc) (r : List Alloc) (size : ℕ)
    → truncar (a ∷ r) 0 a size ≡ (
      record a { tamanio_data = size; is_free = false }
          ∷ crear_alloc (u32 (a.direccion + size + 9)) (a.tamanio_data - size - 9) true
          ∷ r,
      crear_alloc (u32 (a.direccion + size + 9)) (a.tamanio_data - size - 9) true,
    )
unfolding truncar
truncar_primero a r size = ground arith

cortado-HeapValido :
    (config : Config) (c : Carpincho) (a : Alloc) (r : List Alloc) (size : ℕ)
    → HeapValido config c
    → c.allocs ≡ a ∷ r
    → a.is_free ≡ true
    → size + 9 < a.tamanio_data
    → HeapValido config (record c { allocs = (truncar c.allocs 0 a size).0 })
unfolding espacio_ocupado crear_alloc
cortado-HeapValido config c a r size v e libre h = rw e (
    rw (truncar_primero a r size) (record {
      contiguos = (
        contiguos.0,
        (
          omega (arith, contiguos.0, ocupado, v.acotado),
          Contiguos-cast r (omega arith) contiguos.1,
        ),
      );
      separados = ground (arith, separados, libre);
      capacidad = omega (arith, ocupado, v.capacidad);
      acotado = omega (arith, ocupado, v.acotado);
    }))
  where
    contiguos : Contiguos 0 (a ∷ r)
    contiguos = rw e at v.contiguos

    separados : SinLibresJuntos false (a ∷ r)
    separados = rw e at v.separados

    ocupado : espacio_ocupado c.allocs ≡ a.tamanio_data + 9 + espacio_ocupado r
    ocupado = rw e

truncar_otro :
    (x : Alloc) (r : List Alloc) (j size : ℕ) (a : Alloc)
    → (truncar (x ∷ r) (suc j) a size).0
      ≡ x
        ∷ crear_alloc (u32 (a.direccion + size + 9)) (a.tamanio_data - size - 9) true
        ∷ set r j (record a { tamanio_data = size; is_free = false })
unfolding truncar
truncar_otro x r j size a = ground arith

cabeza : (xs : List Alloc) (a : Alloc) → get_elem? xs 0 ≡ some a → (r : List Alloc) × (xs ≡ a ∷ r)
cabeza [] a e = cc
cabeza (x ∷ r) a e = (r, ground arith)

-- If the heap is valid and the first free block that fits is the first of the list or is not cut,
-- then memalloc_asignar_en_heap_libre, where it does not fault, keeps the heap valid and gives the
-- data address of that block.
pub en_heap_libre-HeapValido :
    (config : Config) (c c' : Carpincho) (size dir k : ℕ) (a : Alloc) (es : List Escritura)
    → HeapValido config c
    → primer_libre_con_espacio size 0 c.allocs ≡ some (k, a)
    → (k ≡ 0) ⊎ (a.tamanio_data ≤ size + 9)
    → memalloc_asignar_en_heap_libre config c size ≡ some (c', dir, es)
    → HeapValido config c' × (dir ≡ a.direccion + 9)
unfolding memalloc_asignar_en_heap_libre
en_heap_libre-HeapValido config c c' size dir k a es v p caso e =
    let (j, ej, en, libre, cabe) = primer_libre-correcto c.allocs size 0 k a p in
    let en' : get_elem? c.allocs k ≡ some a = let q : k ≡ j = omega (arith, ej) in rw q en in
    let cota = Contiguos-Esta c.allocs 0 k a en' v.contiguos in
    let e' = rw p at e in
    elim (Bool-cases (ltb size a.tamanio_data && ltb 9 (a.tamanio_data - size))) [
      | inr n ↦
          let f = rw n at e' in
          let q : record c { allocs = set c.allocs k (record a { is_free = false }) } ≡ c' = cc in
          let d : u32 (a.direccion + 9) ≡ dir = cc in
          (rw q at (entero-HeapValido config c k a v en'), omega (arith, d, cota, v.acotado))
      | inl s ↦
          let f = rw s at e' in
          let cero : k ≡ 0 = ground arith in
          let (r, er) = cabeza c.allocs a (rw cero at en') in
          let cortado : Carpincho = record c { allocs = (truncar c.allocs 0 a size).0 } in
          let w = cortado-HeapValido config c a r size v er libre (ground arith) in
          elim (Option-cases
            (persistir_metadata_heap config cortado (truncar c.allocs 0 a size).1)) [
              | inl g ↦ let f' = rw g at (rw cero at f) in cc
              | inr (ms, g) ↦
                  let f' = rw g at (rw cero at f) in
                  let q : cortado ≡ c' = cc in
                  let d : u32 (a.direccion + 9) ≡ dir = cc in
                  (rw q at w, omega (arith, d, cota, v.acotado))
            ]
    ]

-- If the blocks tile the heap below 2^31 and a block that is not the first of the list is cut,
-- then the blocks that the cut leaves do not tile the heap.
pub truncar_desordena :
    (allocs : List Alloc) (j size : ℕ) (a : Alloc)
    → Contiguos 0 allocs
    → espacio_ocupado allocs < limite
    → get_elem? allocs (suc j) ≡ some a
    → size + 9 < a.tamanio_data
    → ¬ Contiguos 0 (truncar allocs (suc j) a size).0
unfolding espacio_ocupado crear_alloc
truncar_desordena [] j size a h b e t k = cc
truncar_desordena (x ∷ r) j size a h b e t k =
    let dentro = Contiguos-Esta r (0 + x.tamanio_data + 9) j a e h.1 in
    let k' : (x.direccion ≡ 0) × (u32 (a.direccion + size + 9) ≡ 0 + x.tamanio_data + 9) =
      let m = rw (truncar_otro x r j size a) at k in (m.0, m.1.0) in
    omega (arith, k', dentro)
