-- ===== src/Memoria/Invariante/Memalloc.antt =====
-- The ways in which memory_memalloc of memoria/src/memory.c places a block.
use exitos_con_esto.Prelude.{
  ℕ, zero, suc, ◌+◌, ◌-◌, ◌*◌, ◌/◌, ◌%◌, ◌≤◌, ◌<◌, ◌≡◌, refl, ap, inl, inr, Bool, ◌==◌, true, false,
  List, [], ◌∷◌, ◌++◌, some, arith, get_elem?, length, if◌then◌else◌, sub_u32, pos, pos_part, sub_ℕ,
  Bool-cases, Option-cases, length-append, ==→eq,
}
use native.Mathlib.Nat.{add-zero, div-add-mod', mod-lt}
use exitos_con_esto.Memoria.Datos.{Alloc, Carpincho, Config}
use exitos_con_esto.Memoria.Allocs.{
  calcular_cantidad_paginas_necesaria, crear_alloc, espacio_ocupado, espacio_total,
}
use exitos_con_esto.Memoria.Metadatos.{Escritura}
use exitos_con_esto.Memoria.Memalloc.{
  Paginador, asignar_paginas_carpincho, direccion_libre, memalloc_asignar_en_pagina_con_espacio,
  memalloc_asignar_en_paginas_nuevas,
}
use exitos_con_esto.Memoria.Bloques.Unir.{
  Contiguos, Contiguos-snoc, SinLibresJuntos, espacio_ocupado-append,
}
use exitos_con_esto.Memoria.Bloques.Buscar.{Esta}
use exitos_con_esto.Memoria.Bloques.Compactar.{limite}
use exitos_con_esto.Memoria.Invariante.{HeapValido}

SinLibresJuntos-snoc :
    (allocs : List Alloc) (previo : Bool) (b : Alloc)
    → b.is_free ≡ false
    → SinLibresJuntos previo allocs
    → SinLibresJuntos previo (allocs ++ b ∷ [])
SinLibresJuntos-snoc [] previo b u h = ground arith
SinLibresJuntos-snoc (a ∷ allocs) previo b u h =
    (h.0, SinLibresJuntos-snoc allocs a.is_free b u h.1)

get_elem?-snoc :
    (allocs : List Alloc) (b : Alloc) → get_elem? (allocs ++ b ∷ []) (length allocs) ≡ some b
get_elem?-snoc [] b = refl
get_elem?-snoc (a ∷ allocs) b = get_elem?-snoc allocs b

-- The first free data address is 9 bytes behind the space that is taken.
direccion_libre-espacio :
    (allocs : List Alloc) (d : ℕ) (a : Alloc)
    → Contiguos d (a ∷ allocs)
    → d + espacio_ocupado (a ∷ allocs) + 9 < 4294967296
    → direccion_libre (a ∷ allocs) ≡ d + espacio_ocupado (a ∷ allocs) + 9
unfolding direccion_libre espacio_ocupado
direccion_libre-espacio [] d a h b = omega arith
direccion_libre-espacio (x ∷ allocs) d a h b =
    omega (arith, direccion_libre-espacio allocs (d + a.tamanio_data + 9) x h.1 (omega arith))

direccion_libre-ocupado :
    (allocs : List Alloc)
    → Contiguos 0 allocs
    → espacio_ocupado allocs + 9 < 4294967296
    → direccion_libre allocs ≡ espacio_ocupado allocs + 9
unfolding direccion_libre espacio_ocupado
direccion_libre-ocupado [] h b = refl
direccion_libre-ocupado (a ∷ allocs) h b =
    omega (arith, direccion_libre-espacio allocs 0 a h (omega arith))

-- If the heap is valid and a block with its metadata fits in the pages behind the blocks and below
-- 2^31, then memalloc_asignar_en_pagina_con_espacio keeps the heap valid, gives the address behind
-- the blocks and the metadata, and a block in use of that size stands there.
pub en_pagina_con_espacio-HeapValido :
    (config : Config) (c : Carpincho) (size : ℕ)
    → HeapValido config c
    → size + 9 + espacio_ocupado c.allocs ≤ length c.paginas * config.tamanio_pagina
    → size + 9 + espacio_ocupado c.allocs < limite
    → let r = memalloc_asignar_en_pagina_con_espacio c size in
      HeapValido config r.0
      × (r.1 ≡ espacio_ocupado c.allocs + 9)
      × Esta (record { direccion = sub_u32 r.1 9; is_free = false; tamanio_data = size }) r.0.allocs
unfolding memalloc_asignar_en_pagina_con_espacio espacio_ocupado
en_pagina_con_espacio-HeapValido config c size v h b = (
  record {
    contiguos = Contiguos-snoc c.allocs 0 nuevo (omega (arith, dato)) v.contiguos;
    separados = SinLibresJuntos-snoc c.allocs false nuevo refl v.separados;
    capacidad = rw (espacio_ocupado-append c.allocs (nuevo ∷ [])) (omega arith);
    acotado = rw (espacio_ocupado-append c.allocs (nuevo ∷ [])) (omega arith);
  },
  dato,
  (length c.allocs, get_elem?-snoc c.allocs nuevo),
)
  where
    dato : direccion_libre c.allocs ≡ espacio_ocupado c.allocs + 9
    dato = direccion_libre-ocupado c.allocs v.contiguos (omega arith)

    nuevo : Alloc
    nuevo = crear_alloc (sub_u32 (direccion_libre c.allocs) 9) size false

sub_ℕ-le : (a b : ℕ) → b ≤ a → sub_ℕ a b ≡ pos (a - b)
sub_ℕ-le a b h = ground arith

sub_ℕ-add-zero : (a b : ℕ) → b ≤ a → sub_ℕ (a + 0) b ≡ pos (a - b)
sub_ℕ-add-zero a b h = ground arith

sub_ℕ-zero : (a : ℕ) → sub_ℕ a 0 ≡ pos a
sub_ℕ-zero a = ground arith

si_pos : (b : Bool) (x y : ℕ) → pos_part (if b then pos x else pos y) ≡ (if b then x else y)
si_pos true x y = refl
si_pos false x y = refl

-- With space that does not pass what is needed, the count is a division that rounds up.
calcular_cantidad_paginas_necesaria-techo :
    (config : Config) (libre dato : ℕ)
    → libre ≤ dato + 9
    → let m = dato + 9 - libre in
      pos_part (calcular_cantidad_paginas_necesaria config (pos libre) dato) ≡ (
        if m % config.tamanio_pagina == 0
        then m / config.tamanio_pagina
        else m / config.tamanio_pagina + 1)
unfolding calcular_cantidad_paginas_necesaria
calcular_cantidad_paginas_necesaria-techo config libre dato h =
    rw (sub_ℕ-add-zero (dato + 9) libre h) (
      rw (add-zero (dato + 9 - libre)) (
        rw (sub_ℕ-zero ((dato + 9 - libre) / config.tamanio_pagina + 1)) (
          si_pos ((dato + 9 - libre) % config.tamanio_pagina == 0)
            ((dato + 9 - libre) / config.tamanio_pagina)
            ((dato + 9 - libre) / config.tamanio_pagina + 1))))

techo_cota :
    (m p : ℕ)
    → 0 < p
    → let n = if m % p == 0 then m / p else m / p + 1 in (m ≤ n * p) × (n * p < m + p)
techo_cota m p z = elim (Bool-cases (m % p == 0)) [
  | inl s ↦ rw s (omega (arith, div-add-mod' m p, ==→eq (m % p) 0 s))
  | inr n ↦ let r : 0 < m % p = ground arith in rw n (omega (arith, div-add-mod' m p, mod-lt m z))
]

-- If the pages have a size and the free space does not exceed the data with its metadata, the
-- count of pages asked for makes room for them, and one page less does not.
pub calcular_cantidad_paginas_necesaria-minima :
    (config : Config) (libre dato : ℕ)
    → 0 < config.tamanio_pagina
    → libre ≤ dato + 9
    → let n = pos_part (calcular_cantidad_paginas_necesaria config (pos libre) dato) in
      (dato + 9 ≤ libre + n * config.tamanio_pagina)
      × (libre + n * config.tamanio_pagina < dato + 9 + config.tamanio_pagina)
calcular_cantidad_paginas_necesaria-minima config libre dato z h =
    rw (calcular_cantidad_paginas_necesaria-techo config libre dato h)
      (omega (arith, techo_cota (dato + 9 - libre) config.tamanio_pagina z))

asignar_paginas_carpincho-length :
    (paginador : Paginador) (n : ℕ) (m m' : paginador.Marcos) (c c' : Carpincho)
    → asignar_paginas_carpincho paginador n m c ≡ some (m', c')
    → (length c'.paginas ≡ length c.paginas + n) × (c'.allocs ≡ c.allocs) × (c'.pid ≡ c.pid)
unfolding asignar_paginas_carpincho
asignar_paginas_carpincho-length paginador zero m m' c c' e = ground arith
asignar_paginas_carpincho-length paginador (suc n) m m' c c' e =
    elim (Option-cases (paginador.ocupar_marco m c)) [
      | inl f ↦ ground arith
      | inr ((m'', p), f) ↦
          let d : Carpincho = record c { paginas = c.paginas ++ p ∷ [] } in
          ground (
            arith,
            length-append c.paginas (p ∷ []),
            asignar_paginas_carpincho-length paginador n m'' m' d c',
          )
    ]

-- If the pages have a size, the heap is valid, and a block with its metadata does not fit in the
-- pages but stays below 2^31, then memalloc_asignar_en_paginas_nuevas, where it does not fault,
-- leaves a valid heap, with the new block inside the pages, and gives the address behind the
-- blocks and the metadata.
pub en_paginas_nuevas-HeapValido :
    (paginador : Paginador) (config : Config) (m m' : paginador.Marcos) (c c' : Carpincho)
    (size dato : ℕ) (es : List Escritura)
    → 0 < config.tamanio_pagina
    → HeapValido config c
    → length c.paginas * config.tamanio_pagina < size + 9 + espacio_ocupado c.allocs
    → size + 9 + espacio_ocupado c.allocs < limite
    → memalloc_asignar_en_paginas_nuevas paginador config m c size ≡ some (m', (c', dato, es))
    → HeapValido config c' × (dato ≡ espacio_ocupado c.allocs + 9)
unfolding memalloc_asignar_en_paginas_nuevas espacio_total
en_paginas_nuevas-HeapValido paginador config m m' c c' size dato es z v h b e =
    let total : ℕ = length c.paginas * config.tamanio_pagina in
    let libre : ℕ = total - espacio_ocupado c.allocs in
    let n : ℕ = pos_part (calcular_cantidad_paginas_necesaria config (pos libre) size) in
    let cota = calcular_cantidad_paginas_necesaria-minima config libre size z (omega arith) in
    let e' = rw (sub_ℕ-le total (espacio_ocupado c.allocs) v.capacidad) at e in
    elim (Option-cases (asignar_paginas_carpincho paginador n m c)) [
      | inl f ↦ let e'' = rw f at e' in cc
      | inr ((m'', d), f) ↦
          let e'' = rw f at e' in
          let (largo, mismos, _) = asignar_paginas_carpincho-length paginador n m m'' c d f in
          let producto : length d.paginas * config.tamanio_pagina
              ≡ (length c.paginas + n) * config.tamanio_pagina =
            ap (λ (t : ℕ). t * config.tamanio_pagina) largo in
          let w : HeapValido config d = record {
            contiguos = rw mismos v.contiguos;
            separados = rw mismos v.separados;
            capacidad = rw mismos (omega (arith, producto, v.capacidad));
            acotado = rw mismos v.acotado;
          } in
          let r =
            en_pagina_con_espacio-HeapValido config d size w
              (rw mismos (omega (arith, producto, cota, v.capacidad))) (rw mismos b) in
          let q : (memalloc_asignar_en_pagina_con_espacio d size).0 ≡ c' = cc in
          let q' : (memalloc_asignar_en_pagina_con_espacio d size).1 ≡ dato = cc in
          (rw q at r.0, ground (arith, r.1, mismos, q'))
    ]
