-- ===== src/Memoria/Bloques/Liberar.antt =====
-- Freeing a block and joining it with its free neighbours.
use exitos_con_esto.Prelude.{
  ℕ, zero, suc, ◌+◌, ◌≡◌, Bool, false, List, [], ◌∷◌, some, arith, get_elem?,
}
use exitos_con_esto.Memoria.Datos.{Alloc}
use exitos_con_esto.Memoria.Allocs.{espacio_ocupado}
use exitos_con_esto.Memoria.Memfree.{liberar}
use exitos_con_esto.Memoria.Bloques.Unir.{Contiguos, Contiguos-cast, SinLibresJuntos}

-- What freeing a block keeps, for a list that starts at `d` behind a block that is free or not.
pub record Libera (previo : Bool) (d : ℕ) (antes despues : List Alloc) : Type 0 where
  pub contiguos : Contiguos d despues
  pub separados : SinLibresJuntos previo despues
  pub ocupado : espacio_ocupado despues ≡ espacio_ocupado antes

liberar-suc :
    (x : Alloc) (allocs : List Alloc) (i : ℕ) (alloc : Alloc)
    → (liberar (x ∷ allocs) (suc (suc i)) alloc).0 ≡ x ∷ (liberar allocs (suc i) alloc).0
unfolding liberar
liberar-suc x allocs i alloc = ground arith

liberar_primero :
    (d : ℕ) (allocs : List Alloc) (a : Alloc)
    → get_elem? allocs 0 ≡ some a
    → Contiguos d allocs
    → SinLibresJuntos false allocs
    → Libera false d allocs (liberar allocs 0 a).0
unfolding liberar espacio_ocupado
liberar_primero d [] a e h s = cc
liberar_primero d (x ∷ []) a e h s = ground arith
liberar_primero d (x ∷ y ∷ r) a e h s = ground (
  arith,
  Contiguos-cast r {d = d + x.tamanio_data + 9 + y.tamanio_data + 9}
      {e = d + (y.tamanio_data + x.tamanio_data + 9) + 9},
)

liberar_segundo :
    (previo : Bool) (d : ℕ) (allocs : List Alloc) (a : Alloc)
    → get_elem? allocs 1 ≡ some a
    → a.is_free ≡ false
    → Contiguos d allocs
    → SinLibresJuntos previo allocs
    → Libera previo d allocs (liberar allocs 1 a).0
unfolding liberar espacio_ocupado
liberar_segundo previo d [] a e u h s = cc
liberar_segundo previo d (x ∷ []) a e u h s = cc
liberar_segundo previo d (x ∷ y ∷ []) a e u h s = ground arith
liberar_segundo previo d (x ∷ y ∷ z ∷ r) a e u h s = ground arith

liberar_resto :
    (allocs : List Alloc) (previo : Bool) (d i : ℕ) (a : Alloc)
    → get_elem? allocs (suc i) ≡ some a
    → a.is_free ≡ false
    → Contiguos d allocs
    → SinLibresJuntos previo allocs
    → Libera previo d allocs (liberar allocs (suc i) a).0
unfolding espacio_ocupado
liberar_resto [] previo d i a e u h s = cc
liberar_resto (x ∷ xs) previo d zero a e u h s = liberar_segundo previo d (x ∷ xs) a e u h s
liberar_resto (x ∷ xs) previo d (suc i) a e u h s =
    let resto = liberar_resto xs x.is_free (d + x.tamanio_data + 9) i a e u h.1 s.1 in
    rw (liberar-suc x xs i a) (record {
      contiguos = (h.0, resto.contiguos);
      separados = (s.0, resto.separados);
      ocupado = omega (arith, resto.ocupado);
    })

-- If the blocks tile the space from an address on, no two free ones are neighbours and a block is
-- in use, then freeing it and uniting it with its free neighbours leaves blocks that tile the same
-- space with no two free neighbours.
pub liberar-Libera :
    (allocs : List Alloc) (d i : ℕ) (a : Alloc)
    → get_elem? allocs i ≡ some a
    → a.is_free ≡ false
    → Contiguos d allocs
    → SinLibresJuntos false allocs
    → Libera false d allocs (liberar allocs i a).0
liberar-Libera allocs d zero a e u h s = liberar_primero d allocs a e h s
liberar-Libera allocs d (suc i) a e u h s = liberar_resto allocs false d i a e u h s
