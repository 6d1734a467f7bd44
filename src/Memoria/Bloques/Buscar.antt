-- ===== src/Memoria/Bloques/Buscar.antt =====
-- Searches in a tiled block list, by index, by address and by data address.
use exitos_con_esto.Prelude.{
  ℕ, zero, suc, ◌+◌, ◌≤◌, ◌<◌, ◌≡◌, refl, inl, inr, true, List, [], ◌∷◌, some, arith, get_elem?,
  set, remove_at, ◌==◌, u32, Bool-cases, Option-cases,
}
use exitos_con_esto.Memoria.Datos.{Alloc}
use exitos_con_esto.Memoria.Allocs.{espacio_ocupado, obtener_alloc_con_inicio, obtener_indice_desde}
use exitos_con_esto.Memoria.Memfree.{liberar, unificar_der, unificar_izq}
use exitos_con_esto.Memoria.Bloques.Unir.{Contiguos}

pub get_elem?-set_self :
    (xs : List Alloc) (i : ℕ) (a u : Alloc)
    → get_elem? xs i ≡ some a
    → get_elem? (set xs i u) i ≡ some u
get_elem?-set_self [] i a u e = cc
get_elem?-set_self (x ∷ xs) zero a u e = refl
get_elem?-set_self (x ∷ xs) (suc i) a u e = get_elem?-set_self xs i a u e

get_elem?-remove_at_previo :
    (xs : List Alloc) (i : ℕ) (a u : Alloc)
    → get_elem? xs (suc i) ≡ some a
    → get_elem? (remove_at (set xs (suc i) u) i) i ≡ some u
get_elem?-remove_at_previo [] i a u e = cc
get_elem?-remove_at_previo (x ∷ []) zero a u e = cc
get_elem?-remove_at_previo (x ∷ y ∷ xs) zero a u e = refl
get_elem?-remove_at_previo (x ∷ xs) (suc i) a u e = get_elem?-remove_at_previo xs i a u e

get_elem?-remove_at_siguiente :
    (xs : List Alloc) (i : ℕ) (a u : Alloc)
    → get_elem? xs i ≡ some a
    → get_elem? (remove_at (set xs i u) (suc i)) i ≡ some u
get_elem?-remove_at_siguiente [] i a u e = cc
get_elem?-remove_at_siguiente (x ∷ xs) zero a u e = refl
get_elem?-remove_at_siguiente (x ∷ xs) (suc i) a u e = get_elem?-remove_at_siguiente xs i a u e

-- A block is in a list.
abbrev pub Esta : Alloc → List Alloc → Type 0
Esta a allocs = (i : ℕ) × (get_elem? allocs i ≡ some a)

unificar_der-Esta :
    (allocs : List Alloc) (i : ℕ) (a : Alloc)
    → get_elem? allocs i ≡ some a
    → get_elem? (unificar_der allocs i a).0 i ≡ some (unificar_der allocs i a).1
unfolding unificar_der
unificar_der-Esta allocs i a e = elim (Option-cases (get_elem? allocs (suc i))) [
  | inl ninguno ↦ rw (ninguno, unificar_der) e
  | inr (s, alguno) ↦
      rw (alguno, unificar_der)
        (ground (
          arith,
          get_elem?-remove_at_siguiente allocs i a
              (record a { tamanio_data = s.tamanio_data + a.tamanio_data + 9 }),
        ))
]

unificar_izq-Esta :
    (allocs : List Alloc) (i : ℕ) (a : Alloc)
    → get_elem? allocs i ≡ some a
    → let r = unificar_izq allocs i a in get_elem? r.0 r.1 ≡ some r.2
unfolding unificar_izq
unificar_izq-Esta allocs zero a e = e
unificar_izq-Esta allocs (suc i) a e = elim (Option-cases (get_elem? allocs i)) [
  | inl ninguno ↦ rw (ninguno, unificar_izq) e
  | inr (s, alguno) ↦
      rw (alguno, unificar_izq)
        (ground (
          arith,
          get_elem?-remove_at_previo allocs i a (record a {
            direccion = s.direccion;
            tamanio_data = s.tamanio_data + a.tamanio_data + 9;
          }),
        ))
]

-- The block that freeing gives back is in the list that it gives back.
pub liberar-Esta :
    (allocs : List Alloc) (i : ℕ) (a : Alloc)
    → get_elem? allocs i ≡ some a
    → Esta (liberar allocs i a).1 (liberar allocs i a).0
unfolding liberar
liberar-Esta allocs i a e =
    let libre = record a { is_free = true } in
    let r : List Alloc × ℕ × Alloc = unificar_izq (set allocs i libre) i libre in
    (
      r.1,
      unificar_der-Esta r.0 r.1 r.2
          (unificar_izq-Esta (set allocs i libre) i libre (get_elem?-set_self allocs i a libre e)),
    )

-- The search by address finds something.
pub obtener_indice-Esta :
    (allocs : List Alloc) (k i : ℕ) (a : Alloc)
    → get_elem? allocs i ≡ some a
    → (j : ℕ) × (obtener_indice_desde k allocs a.direccion ≡ some j)
unfolding obtener_indice_desde
obtener_indice-Esta [] k i a e = cc
obtener_indice-Esta (x ∷ xs) k zero a e = (k, ground arith)
obtener_indice-Esta (x ∷ xs) k (suc i) a e = elim (Bool-cases (x.direccion == a.direccion)) [
  | inl s ↦ (k, rw s)
  | inr n ↦ let (j, f) = obtener_indice-Esta xs (suc k) i a e in (j, rw n f)
]

-- A block lies in the space of its list.
pub Contiguos-Esta :
    (allocs : List Alloc) (d i : ℕ) (a : Alloc)
    → get_elem? allocs i ≡ some a
    → Contiguos d allocs
    → (d ≤ a.direccion) × (a.direccion + 9 + a.tamanio_data ≤ d + espacio_ocupado allocs)
unfolding espacio_ocupado
Contiguos-Esta [] d i a e h = cc
Contiguos-Esta (x ∷ xs) d zero a e h = ground arith
Contiguos-Esta (x ∷ xs) d (suc i) a e h =
    omega (arith, Contiguos-Esta xs (d + x.tamanio_data + 9) i a e h.1)

-- The search by data address finds the one block that has it.
pub obtener_alloc_con_inicio-Esta :
    (allocs : List Alloc) (d k i : ℕ) (a : Alloc)
    → get_elem? allocs i ≡ some a
    → Contiguos d allocs
    → d + espacio_ocupado allocs < 4294967296
    → (j : ℕ) × (obtener_alloc_con_inicio k allocs (a.direccion + 9) ≡ some (j, a)) × (j ≡ k + i)
unfolding obtener_alloc_con_inicio espacio_ocupado
obtener_alloc_con_inicio-Esta [] d k i a e h b = cc
obtener_alloc_con_inicio-Esta (x ∷ xs) d k zero a e h b = (k, ground arith, omega arith)
obtener_alloc_con_inicio-Esta (x ∷ xs) d k (suc i) a e h b =
    let (j, f, g) =
      obtener_alloc_con_inicio-Esta xs (d + x.tamanio_data + 9) (suc k) i a e h.1 (omega arith) in
    (j, ground (arith, f, Contiguos-Esta xs (d + x.tamanio_data + 9) i a e h.1), omega (arith, g))

-- What the search by data address finds has that address.
pub obtener_alloc_con_inicio-correcto :
    (allocs : List Alloc) (k abs j : ℕ) (a : Alloc)
    → obtener_alloc_con_inicio k allocs abs ≡ some (j, a)
    → (i : ℕ) × (get_elem? allocs i ≡ some a) × (j ≡ k + i) × (abs ≡ u32 (a.direccion + 9))
unfolding obtener_alloc_con_inicio
obtener_alloc_con_inicio-correcto [] k abs j a e = cc
obtener_alloc_con_inicio-correcto (x ∷ xs) k abs j a e =
    elim (Bool-cases (abs == u32 (x.direccion + 9))) [
      | inl s ↦ (0, ground (arith, e), ground (arith, e), ground (arith, e))
      | inr n ↦
          let (i, f, g, h) = obtener_alloc_con_inicio-correcto xs (suc k) abs j a (rw n at e) in
          (suc i, f, omega (arith, g), h)
    ]
