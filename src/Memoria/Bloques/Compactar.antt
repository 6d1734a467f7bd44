-- ===== src/Memoria/Bloques/Compactar.antt =====
-- Compaction: which blocks stand in the first page, and the shift of the addresses.
use exitos_con_esto.Prelude.{
  ℕ, zero, suc, ◌+◌, ◌/◌, ◌≤◌, ◌<◌, ◌≡◌, refl, ◌⊎◌, inl, inr, Bool, true, false, List, [], ◌∷◌,
  arith, u32,
}
use native.Mathlib.Decide.{dec_lt}
use native.Mathlib.Nat.{div-eq_of_lt, div-eq-sub-div}
use exitos_con_esto.Memoria.Datos.{Alloc, Config}
use exitos_con_esto.Memoria.Allocs.{espacio_ocupado}
use exitos_con_esto.Memoria.Memfree.{
  algun_byte_en_pagina, alloc_esta_en_pagina, allocs_de_pagina, desplazar,
  todos_los_allocs_estan_libres,
}
use exitos_con_esto.Memoria.Bloques.Unir.{Contiguos, Contiguos-cast, SinLibresJuntos}

-- The addresses that the page search reads stay below 2^32.
abbrev pub limite : ℕ
limite = 2147483648

pub desplazar-Contiguos :
    (allocs : List Alloc) (d k : ℕ)
    → Contiguos (d + k) allocs
    → d + k + espacio_ocupado allocs < 4294967296
    → Contiguos d (desplazar 0 k allocs)
unfolding desplazar espacio_ocupado
desplazar-Contiguos [] d k h b = tt
desplazar-Contiguos (a ∷ allocs) d k h b = (
  omega arith,
  desplazar-Contiguos allocs (d + a.tamanio_data + 9) k (Contiguos-cast allocs (omega arith) h.1)
      (omega arith),
)

pub espacio_ocupado-desplazar :
    (allocs : List Alloc) (desde k : ℕ)
    → espacio_ocupado (desplazar desde k allocs) ≡ espacio_ocupado allocs
unfolding desplazar espacio_ocupado
espacio_ocupado-desplazar [] desde k = refl
espacio_ocupado-desplazar (a ∷ allocs) zero k = omega (arith, espacio_ocupado-desplazar allocs 0 k)
espacio_ocupado-desplazar (a ∷ allocs) (suc desde) k =
    omega (arith, espacio_ocupado-desplazar allocs desde k)

pub SinLibresJuntos-desplazar :
    (allocs : List Alloc) (previo : Bool) (desde k : ℕ)
    → SinLibresJuntos previo allocs
    → SinLibresJuntos previo (desplazar desde k allocs)
unfolding desplazar
SinLibresJuntos-desplazar [] previo desde k h = tt
SinLibresJuntos-desplazar (a ∷ allocs) previo zero k h =
    (h.0, SinLibresJuntos-desplazar allocs a.is_free 0 k h.1)
SinLibresJuntos-desplazar (a ∷ allocs) previo (suc desde) k h =
    (h.0, SinLibresJuntos-desplazar allocs a.is_free desde k h.1)

fuera_de_pagina :
    (n p dir i : ℕ)
    → p ≤ dir
    → 0 < p
    → dir + i + n ≤ 4294967296
    → algun_byte_en_pagina p 0 dir i n ≡ false
unfolding algun_byte_en_pagina
fuera_de_pagina zero p dir i h z b = refl
fuera_de_pagina (suc n) p dir i h z b = ground (arith, fuera_de_pagina n p dir (suc i))

cociente_cero : (x p : ℕ) → 0 < p → ((x < p) × (x / p ≡ 0)) ⊎ ((p ≤ x) × (1 ≤ x / p))
cociente_cero x p z = elim (dec_lt x p) [
  | yes h ↦ inl (h, div-eq_of_lt h)
  | no h ↦ inr (omega arith, rw (div-eq-sub-div {m = p} {n = x} z (omega arith)) (omega arith))
]

bytes_en_pagina_cero :
    (n p dir : ℕ)
    → 0 < n
    → 0 < p
    → dir + n ≤ 4294967296
    → ((algun_byte_en_pagina p 0 dir 0 n ≡ true) × (dir < p))
      ⊎ ((algun_byte_en_pagina p 0 dir 0 n ≡ false) × (p ≤ dir))
unfolding algun_byte_en_pagina
bytes_en_pagina_cero zero p dir h z b = absurd (omega arith)
bytes_en_pagina_cero (suc n) p dir h z b =
    ground (arith, fuera_de_pagina n p dir 1, cociente_cero dir p)

-- If the pages have a size and the addresses stay below 2^32, alloc_esta_en_pagina says for the
-- first page that a block is in it exactly when the block starts there.
pub alloc_esta_en_pagina-zero :
    (config : Config) (a : Alloc)
    → 0 < config.tamanio_pagina
    → a.direccion + a.direccion + 9 + a.tamanio_data < 4294967296
    → ((alloc_esta_en_pagina config a 0 ≡ true) × (a.direccion < config.tamanio_pagina))
      ⊎ ((alloc_esta_en_pagina config a 0 ≡ false) × (config.tamanio_pagina ≤ a.direccion))
unfolding alloc_esta_en_pagina
alloc_esta_en_pagina-zero config a z b =
    bytes_en_pagina_cero (u32 (a.direccion + 9 + a.tamanio_data)) config.tamanio_pagina a.direccion
      (omega arith) z (omega arith)

allocs_de_pagina-fuera :
    (config : Config) (allocs : List Alloc) (d : ℕ)
    → 0 < config.tamanio_pagina
    → config.tamanio_pagina ≤ d
    → d + espacio_ocupado allocs < limite
    → Contiguos d allocs
    → allocs_de_pagina config 0 allocs ≡ []
unfolding allocs_de_pagina espacio_ocupado
allocs_de_pagina-fuera config [] d z p b h = refl
allocs_de_pagina-fuera config (a ∷ allocs) d z p b h = ground (
  arith,
  alloc_esta_en_pagina-zero config a,
  allocs_de_pagina-fuera config allocs (d + a.tamanio_data + 9),
)

-- Where all the blocks of the first page are free, there is one such block, the first of all.
pub primera_pagina_libre :
    (config : Config) (allocs : List Alloc)
    → 0 < config.tamanio_pagina
    → espacio_ocupado allocs < limite
    → Contiguos 0 allocs
    → SinLibresJuntos false allocs
    → todos_los_allocs_estan_libres (allocs_de_pagina config 0 allocs) ≡ true
    → (a : Alloc) × (r : List Alloc) × (allocs ≡ a ∷ r)
      × (allocs_de_pagina config 0 allocs ≡ a ∷ [])
      × (a.is_free ≡ true)
      × ((r ≡ []) ⊎ (config.tamanio_pagina ≤ a.tamanio_data + 9))
unfolding allocs_de_pagina todos_los_allocs_estan_libres espacio_ocupado
primera_pagina_libre config [] z b h s t = cc
primera_pagina_libre config (a ∷ []) z b h s t = (
  a,
  [],
  refl,
  ground (arith, alloc_esta_en_pagina-zero config a),
  ground (arith, alloc_esta_en_pagina-zero config a),
  inl refl,
)
primera_pagina_libre config (a ∷ x ∷ r) z b h s t = (
  a,
  x ∷ r,
  refl,
  ground (
    arith,
    alloc_esta_en_pagina-zero config a,
    alloc_esta_en_pagina-zero config x,
    allocs_de_pagina-fuera config r (a.tamanio_data + 9 + x.tamanio_data + 9),
  ),
  ground (
    arith,
    alloc_esta_en_pagina-zero config a,
    alloc_esta_en_pagina-zero config x,
    allocs_de_pagina-fuera config r (a.tamanio_data + 9 + x.tamanio_data + 9),
  ),
  ground (
    arith,
    alloc_esta_en_pagina-zero config a,
    alloc_esta_en_pagina-zero config x,
    allocs_de_pagina-fuera config r (a.tamanio_data + 9 + x.tamanio_data + 9),
  ),
)
