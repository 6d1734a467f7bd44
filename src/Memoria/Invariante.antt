-- ===== src/Memoria/Invariante.antt =====
-- The invariant of a process's heap in memoria/src/memory.c, and that memory_memfree keeps it.
pub mod Memfree
pub mod Alcance
pub mod Memwrite
mod Pruebas
pub mod Memalloc
pub mod Truncar
pub mod Estrategia
pub mod Pedido
use exitos_con_esto.Prelude.{
  ℕ, zero, suc, ◌+◌, ◌-◌, ◌*◌, ◌≤◌, ◌<◌, ◌≡◌, refl, sym, ap, ◌⊎◌, inl, inr, Bool, true, false, ◌&&◌,
  List, [], ◌∷◌, Option, none, some, arith, get_elem?, length, remove_at, set, if◌then◌else◌, ◌==◌,
  ==-refl, Bool-cases, ◌>>=◌,
}
use native.Mathlib.Nat.{mul-le-mul_right}
use exitos_con_esto.Memoria.Datos.{Alloc, Carpincho, Config, Pagina}
use exitos_con_esto.Memoria.Allocs.{espacio_ocupado, espacio_total, obtener_indice_de_alloc}
use exitos_con_esto.Memoria.Memfree.{
  allocs_de_pagina, borrar_allocs, compactar, compactar_pagina, compactar_todo, desplazar, liberar,
  todos_los_allocs_estan_libres,
}
use exitos_con_esto.Memoria.Bloques.Unir.{
  Contiguos, Contiguos-cast, SinLibresJuntos, SinLibresJuntos-false,
}
use exitos_con_esto.Memoria.Bloques.Liberar.{Libera, liberar-Libera}
use exitos_con_esto.Memoria.Bloques.Compactar.{
  desplazar-Contiguos, espacio_ocupado-desplazar, limite, primera_pagina_libre,
  SinLibresJuntos-desplazar,
}

-- The blocks tile the space from address 0, no two free ones are neighbours, they fit in the pages,
-- and the addresses stay below 2^31.
pub record HeapValido (config : Config) (c : Carpincho) : Type 0 where
  pub contiguos : Contiguos 0 c.allocs
  pub separados : SinLibresJuntos false c.allocs
  pub capacidad : espacio_ocupado c.allocs ≤ length c.paginas * config.tamanio_pagina
  pub acotado : espacio_ocupado c.allocs < limite

length-remove_at : (ps : List Pagina) (i : ℕ) → length ps ≤ length (remove_at ps i) + 1
length-remove_at [] i = omega arith
length-remove_at (p ∷ ps) zero = omega arith
length-remove_at (p ∷ ps) (suc i) = omega (arith, length-remove_at ps i)

-- One compaction of a page whose one block is the first.
compactar_pagina_primero :
    (c : Carpincho) (pag : Pagina) (a : Alloc) (r : List Alloc)
    → c.allocs ≡ a ∷ r
    → compactar_pagina c pag (a ∷ [])
      ≡ some (record c {
        allocs = desplazar 0 (a.tamanio_data + 9) r;
        paginas = remove_at c.paginas (pag.pagina - 1);
      })
unfolding compactar_pagina borrar_allocs obtener_indice_de_alloc
compactar_pagina_primero c pag a r e = rw e (rw (==-refl a.direccion) (ground arith))

-- What one call of compactar does on a valid heap that has pages.
pub data Caso (config : Config) (c : Carpincho) : Type 0 where
  quieto : compactar config c ≡ some (c, false) → Caso config c
  compacta :
      (a : Alloc) (r : List Alloc) (i : ℕ)
      → c.allocs ≡ a ∷ r
      → a.is_free ≡ true
      → (r ≡ []) ⊎ (config.tamanio_pagina ≤ a.tamanio_data + 9)
      → compactar config c
        ≡ some (
          record c { allocs = desplazar 0 (a.tamanio_data + 9) r; paginas = remove_at c.paginas i },
          true,
        )
      → Caso config c

pub compactar-Caso :
    (config : Config) (c : Carpincho)
    → 0 < config.tamanio_pagina
    → 0 < length c.paginas
    → HeapValido config c
    → Caso config c
unfolding compactar
compactar-Caso config c z n v =
    con c.paginas refl
      (Bool-cases (todos_los_allocs_estan_libres (allocs_de_pagina config 0 c.allocs)))
  where
    con :
        (ps : List Pagina)
        → c.paginas ≡ ps
        → (todos_los_allocs_estan_libres (allocs_de_pagina config 0 c.allocs) ≡ true)
          ⊎ (todos_los_allocs_estan_libres (allocs_de_pagina config 0 c.allocs) ≡ false)
        → Caso config c
    con [] e t = absurd (omega (arith, ap length e))
    con (pag ∷ ps) e (inr t) = quieto (ground arith)
    con (pag ∷ ps) e (inl t) =
        let (a, r, ea, es, libre, tam) =
          primera_pagina_libre config c.allocs z v.acotado v.contiguos v.separados t in
        compacta a r (pag.pagina - 1) ea libre tam
          (ground (arith, compactar_pagina_primero c pag a r ea))

capacidad_resto : (o t l l' p : ℕ) → t + o ≤ l * p → l ≤ l' + 1 → p ≤ t → o ≤ l' * p
capacidad_resto o t l l' p h k q =
    let m : l * p ≤ (l' + 1) * p = mul-le-mul_right p k in omega arith

-- The heap after the compaction of its first block.
compactado-HeapValido :
    (config : Config) (c : Carpincho) (a : Alloc) (r : List Alloc) (i : ℕ)
    → c.allocs ≡ a ∷ r
    → (r ≡ []) ⊎ (config.tamanio_pagina ≤ a.tamanio_data + 9)
    → HeapValido config c
    → HeapValido config
        (record c { allocs = desplazar 0 (a.tamanio_data + 9) r; paginas = remove_at c.paginas i })
unfolding espacio_ocupado
compactado-HeapValido config c a r i e tam v = record {
  contiguos =
      desplazar-Contiguos r 0 (a.tamanio_data + 9) (Contiguos-cast r (omega arith) contiguos.1)
        (omega (arith, ocupado, v.acotado));
  separados =
      SinLibresJuntos-desplazar r false 0 (a.tamanio_data + 9)
        (SinLibresJuntos-false a.is_free r separados.1);
  capacidad = rw (espacio_ocupado-desplazar r 0 (a.tamanio_data + 9)) (elim tam [
    | inl vacio ↦ rw vacio (omega arith)
    | inr grande ↦
        capacidad_resto (espacio_ocupado r) (a.tamanio_data + 9) (length c.paginas) _
          config.tamanio_pagina (omega (arith, ocupado, v.capacidad)) (length-remove_at c.paginas i)
          grande
  ]);
  acotado =
      rw (espacio_ocupado-desplazar r 0 (a.tamanio_data + 9)) (omega (arith, ocupado, v.acotado));
}
  where
    contiguos : Contiguos 0 (a ∷ r)
    contiguos = rw e at v.contiguos

    separados : SinLibresJuntos false (a ∷ r)
    separados = rw e at v.separados

    ocupado : espacio_ocupado c.allocs ≡ a.tamanio_data + 9 + espacio_ocupado r
    ocupado = rw e

-- A heap whose first block is in use, or that is empty, is left alone.
compactar_quieto :
    (config : Config) (c : Carpincho)
    → 0 < config.tamanio_pagina
    → 0 < length c.paginas
    → HeapValido config c
    → SinLibresJuntos true c.allocs
    → compactar config c ≡ some (c, false)
compactar_quieto config c z n v s = elim (compactar-Caso config c z n v) [
  | quieto q ↦ q
  | compacta a r i e libre _ _ ↦
      let s' : SinLibresJuntos true (a ∷ r) = rw e at s in absurd (ground arith)
]

-- If the pages have a size, the process has at least two and its heap is valid, then the
-- compaction loop of memory_memfree ends within two rounds, with a valid heap.
pub compactar_todo-HeapValido :
    (config : Config) (c : Carpincho) (fuel : ℕ)
    → 0 < config.tamanio_pagina
    → 1 < length c.paginas
    → HeapValido config c
    → (c' : Carpincho) × (compactar_todo (suc (suc fuel)) config c ≡ some c') × HeapValido config c'
unfolding compactar_todo
compactar_todo-HeapValido config c fuel z n v = elim (compactar-Caso config c z (omega arith) v) [
  | quieto q ↦ (c, rw (q, compactar_todo), v)
  | compacta a r i e libre tam q ↦
      let c' : Carpincho = record c {
        allocs = desplazar 0 (a.tamanio_data + 9) r;
        paginas = remove_at c.paginas i;
      } in
      let v' : HeapValido config c' = compactado-HeapValido config c a r i e tam v in
      let s : SinLibresJuntos false (a ∷ r) = rw e at v.separados in
      let s' : SinLibresJuntos true (desplazar 0 (a.tamanio_data + 9) r) =
        SinLibresJuntos-desplazar r true 0 (a.tamanio_data + 9) (rw libre at s.1) in
      (
        c',
        rw (q, compactar_todo)
            (rw (
              compactar_quieto config c' z (omega (arith, length-remove_at c.paginas i)) v' s',
              compactar_todo,
            )),
        v',
      )
]
