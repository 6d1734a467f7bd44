-- ===== src/Memoria/Invariante/Estrategia.antt =====
-- What the answer of check_alloc means, and memory_memalloc whole (memoria/src/memory.c).
use exitos_con_esto.Prelude.{
  ℕ, suc, ◌+◌, ◌*◌, ◌≤◌, ◌<◌, ◌≡◌, refl, ◌⊎◌, inl, inr, Bool, true, false, ◌&&◌, List, [], ◌∷◌,
  none, some, arith, length, if◌then◌else◌, leb, ℤ, sub_ℕ, Bool-cases,
}
use exitos_con_esto.Memoria.Datos.{
  Alloc, Carpincho, CheckAllocRespuesta, Config, alloc_heap, alloc_pagina, alloc_sin_espacio,
  alloc_solicitar_pagina,
}
use exitos_con_esto.Memoria.Allocs.{
  calcular_cantidad_paginas_necesaria, espacio_ocupado, libre_con_espacio, primer_libre_con_espacio,
}
use exitos_con_esto.Memoria.Memalloc.{Swamp, check_alloc, check_paginas, recorrer_allocs}

-- The conditions behind each answer of check_alloc.
abbrev pub Estrategia : Config → Swamp → Carpincho → ℕ → CheckAllocRespuesta → Type 0
Estrategia config swamp c size alloc_heap =
    (k : ℕ) × (a : Alloc) × (primer_libre_con_espacio size 0 c.allocs ≡ some (k, a))
Estrategia config swamp c size alloc_pagina =
    (primer_libre_con_espacio size 0 c.allocs ≡ none)
    × (size + 9 + espacio_ocupado c.allocs ≤ length c.paginas * config.tamanio_pagina)
Estrategia config swamp c size alloc_solicitar_pagina =
    (primer_libre_con_espacio size 0 c.allocs ≡ none)
    × (length c.paginas * config.tamanio_pagina < size + 9 + espacio_ocupado c.allocs)
    × (swamp c.pid (
          calcular_cantidad_paginas_necesaria config
            (sub_ℕ (length c.paginas * config.tamanio_pagina) (espacio_ocupado c.allocs)) size)
        ≡ true)
    × (config.fija ≡ true
        → size + 9 + espacio_ocupado c.allocs ≤ config.marcos_por_carpincho * config.tamanio_pagina)
Estrategia config swamp c size alloc_sin_espacio =
    (primer_libre_con_espacio size 0 c.allocs ≡ none)
    × (length c.paginas * config.tamanio_pagina < size + 9 + espacio_ocupado c.allocs)
    × ((swamp c.pid (
            calcular_cantidad_paginas_necesaria config
              (sub_ℕ (length c.paginas * config.tamanio_pagina) (espacio_ocupado c.allocs)) size)
          ≡ false)
        ⊎ ((config.fija ≡ true)
            × (config.marcos_por_carpincho * config.tamanio_pagina
                < size + 9 + espacio_ocupado c.allocs)))

-- The loop and the search agree.
recorrer_allocs-primer_libre :
    (allocs : List Alloc) (size ocupado i : ℕ)
    → ((recorrer_allocs size ocupado allocs ≡ none)
        × ((k : ℕ) × (a : Alloc) × (primer_libre_con_espacio size i allocs ≡ some (k, a))))
      ⊎ ((recorrer_allocs size ocupado allocs ≡ some (ocupado + espacio_ocupado allocs))
          × (primer_libre_con_espacio size i allocs ≡ none))
unfolding recorrer_allocs primer_libre_con_espacio libre_con_espacio espacio_ocupado
recorrer_allocs-primer_libre [] size ocupado i = inr (ground arith, refl)
recorrer_allocs-primer_libre (a ∷ allocs) size ocupado i =
    elim (Bool-cases (a.is_free && leb size a.tamanio_data)) [
      | inl s ↦ inl (rw s, (i, a, rw s))
      | inr n ↦
          elim (recorrer_allocs-primer_libre allocs size (ocupado + a.tamanio_data + 9) (suc i)) [
            | inl (p, q) ↦ inl (rw n p, rw n q)
            | inr (p, q) ↦ inr (rw n (ground (arith, p)), rw n q)
          ]
    ]

check_paginas-Estrategia :
    (config : Config) (swamp : Swamp) (c : Carpincho) (size : ℕ)
    → primer_libre_con_espacio size 0 c.allocs ≡ none
    → Estrategia config swamp c size (check_paginas config swamp c size (espacio_ocupado c.allocs))
unfolding check_paginas
check_paginas-Estrategia config swamp c size p =
    segun (leb (size + 9 + ocupado) total) config.fija
      (leb (size + 9 + ocupado + total) (maximo + total)) (swamp c.pid cant) refl refl refl refl
  where
    ocupado : ℕ
    ocupado = espacio_ocupado c.allocs

    total : ℕ
    total = length c.paginas * config.tamanio_pagina

    maximo : ℕ
    maximo = config.marcos_por_carpincho * config.tamanio_pagina

    cant : ℤ
    cant = calcular_cantidad_paginas_necesaria config (sub_ℕ total ocupado) size

    segun :
        (cabe fija alcanza puede : Bool)
        → leb (size + 9 + ocupado) total ≡ cabe
        → config.fija ≡ fija
        → leb (size + 9 + ocupado + total) (maximo + total) ≡ alcanza
        → swamp c.pid cant ≡ puede
        → Estrategia config swamp c size (
            let pedir = if puede then alloc_solicitar_pagina else alloc_sin_espacio in
            if cabe
            then alloc_pagina
            else if fija
            then (if alcanza then pedir else alloc_sin_espacio)
            else pedir)
    segun true f l w s ef el ew = (p, ground arith)
    segun false true true true n ef el ew = (p, ground arith, ew, λ _. ground arith)
    segun false true true false n ef el ew = (p, ground arith, inl ew)
    segun false true false w n ef el ew = (p, ground arith, inr (ef, ground arith))
    segun false false l true n ef el ew = (p, ground arith, ew, λ e. cc)
    segun false false l false n ef el ew = (p, ground arith, inl ew)

-- Whatever check_alloc answers, the conditions of that answer hold: a free block fits; or none
-- fits and the pages have room at the end; or none fits, there is no room, the swap process
-- permits the pages that are missing and under FIJA they are within the limit; or none fits, there
-- is no room, and the swap process refuses or the limit is passed.
pub check_alloc-Estrategia :
    (config : Config) (swamp : Swamp) (c : Carpincho) (size : ℕ)
    → Estrategia config swamp c size (check_alloc config swamp c size)
unfolding check_alloc
check_alloc-Estrategia config swamp c size = elim (recorrer_allocs-primer_libre c.allocs size 0 0) [
  | inl (p, q) ↦ rw (p, check_alloc) q
  | inr (p, q) ↦
      let p' : recorrer_allocs size 0 c.allocs ≡ some (espacio_ocupado c.allocs) =
        ground (arith, p) in
      rw (p', check_alloc) (check_paginas-Estrategia config swamp c size q)
]
