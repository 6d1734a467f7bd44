-- ===== src/Memoria/Bloques/Unir.antt =====
-- The predicates on a block list, and what moving, cutting and joining blocks does to them.
use exitos_con_esto.Prelude.{
  ℕ, zero, suc, ◌+◌, ◌≡◌, refl, Bool, false, ◌&&◌, List, [], ◌∷◌, ◌++◌, some, arith, get_elem?, set,
}
use exitos_con_esto.Memoria.Datos.{Alloc}
use exitos_con_esto.Memoria.Allocs.{espacio_ocupado}

-- The blocks follow one another from the address `d` on, each behind 9 bytes of metadata.
abbrev pub Contiguos : ℕ → List Alloc → Type 0
Contiguos d [] = Unit {0}
Contiguos d (a ∷ allocs) = (a.direccion ≡ d) × Contiguos (d + a.tamanio_data + 9) allocs

-- No two free blocks are neighbours; `previo` says whether the block before the list is free.
abbrev pub SinLibresJuntos : Bool → List Alloc → Type 0
SinLibresJuntos previo [] = Unit {0}
SinLibresJuntos previo (a ∷ allocs) =
    ((previo && a.is_free) ≡ false) × SinLibresJuntos a.is_free allocs

pub Contiguos-cast :
    (allocs : List Alloc) {d e : ℕ} → d ≡ e → Contiguos d allocs → Contiguos e allocs
Contiguos-cast [] h k = tt
Contiguos-cast (a ∷ allocs) h k = (omega arith, Contiguos-cast allocs (omega arith) k.1)

pub SinLibresJuntos-false :
    (previo : Bool) (allocs : List Alloc)
    → SinLibresJuntos previo allocs
    → SinLibresJuntos false allocs
SinLibresJuntos-false previo [] h = tt
SinLibresJuntos-false previo (a ∷ allocs) h = (refl, h.1)

-- Replacing a block by one of the same place and size.
pub Contiguos-set :
    (allocs : List Alloc) (d i : ℕ) (a b : Alloc)
    → get_elem? allocs i ≡ some a
    → b.direccion ≡ a.direccion
    → b.tamanio_data ≡ a.tamanio_data
    → Contiguos d allocs
    → Contiguos d (set allocs i b)
Contiguos-set [] d i a b e p q h = tt
Contiguos-set (x ∷ allocs) d zero a b e p q h =
    (ground arith, Contiguos-cast allocs (ground arith) h.1)
Contiguos-set (x ∷ allocs) d (suc i) a b e p q h = (h.0, Contiguos-set allocs _ i a b e p q h.1)

pub espacio_ocupado-set :
    (allocs : List Alloc) (i : ℕ) (a b : Alloc)
    → get_elem? allocs i ≡ some a
    → b.tamanio_data ≡ a.tamanio_data
    → espacio_ocupado (set allocs i b) ≡ espacio_ocupado allocs
unfolding espacio_ocupado
espacio_ocupado-set [] i a b e q = refl
espacio_ocupado-set (x ∷ allocs) zero a b e q = ground arith
espacio_ocupado-set (x ∷ allocs) (suc i) a b e q =
    omega (arith, espacio_ocupado-set allocs i a b e q)

pub espacio_ocupado-append :
    (xs ys : List Alloc) → espacio_ocupado (xs ++ ys) ≡ espacio_ocupado xs + espacio_ocupado ys
unfolding espacio_ocupado
espacio_ocupado-append [] ys = omega arith
espacio_ocupado-append (x ∷ xs) ys = omega (arith, espacio_ocupado-append xs ys)

-- A block added at the end.
pub Contiguos-snoc :
    (allocs : List Alloc) (d : ℕ) (b : Alloc)
    → b.direccion ≡ d + espacio_ocupado allocs
    → Contiguos d allocs
    → Contiguos d (allocs ++ b ∷ [])
unfolding espacio_ocupado
Contiguos-snoc [] d b e h = (omega arith, tt)
Contiguos-snoc (x ∷ allocs) d b e h = (h.0, Contiguos-snoc allocs _ b (omega arith) h.1)
