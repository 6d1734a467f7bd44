-- ===== src/Memoria/Escrituras.antt =====
-- The metadata writes of memoria/src/memory.c reach pages that exist.
use exitos_con_esto.Prelude.{
  ℕ, zero, suc, ◌+◌, ◌*◌, ◌/◌, ◌%◌, ◌≤◌, ◌<◌, ◌≡◌, refl, inl, inr, List, [], ◌∷◌, some, arith,
  length, ◌==◌, u32, Bool-cases, All,
}
use native.Mathlib.Nat.{div-lt_iff_lt-mul}
use exitos_con_esto.Memoria.Datos.{Alloc, Carpincho, Config, Pagina, PaginaAccion}
use exitos_con_esto.Memoria.Allocs.{obtener_indice_de_alloc}
use exitos_con_esto.Memoria.Metadatos.{
  Escritura, agrupar, anotar, escribir_trozos, get_page, persistir_metadata_heap, trozos,
}
use exitos_con_esto.Memoria.Bloques.Buscar.{Esta, obtener_indice-Esta}

-- The pages of the process bear the numbers from 1 on.
abbrev pub PaginasNumeradas : Carpincho → Type 0
PaginasNumeradas c =
    (i : ℕ) → i < length c.paginas → (p : Pagina) × (get_page c.paginas c.pid (i + 1) ≡ some p)

abbrev pub Bajo : ℕ → PaginaAccion → Type 0
Bajo l nodo = nodo.pagina < l

abbrev pub BajoTrozo : ℕ → ℕ × List ℕ × ℕ → Type 0
BajoTrozo l t = t.0 < l

anotar-Bajo :
    (l pag offset : ℕ) (nodos : List PaginaAccion)
    → pag < l
    → All (Bajo l) nodos
    → All (Bajo l) (anotar pag offset nodos)
unfolding anotar
anotar-Bajo l pag offset [] h k = (h, tt)
anotar-Bajo l pag offset (nodo ∷ nodos) h k = elim (Bool-cases (nodo.pagina == pag)) [
  | inl s ↦ rw s (k.0, k.1)
  | inr n ↦ rw n (k.0, anotar-Bajo l pag offset nodos h k.1)
]

pub agrupar-Bajo :
    (n p l abs i : ℕ) (nodos : List PaginaAccion)
    → 0 < p
    → abs + i + n ≤ l * p
    → abs + i + n ≤ 4294967296
    → All (Bajo l) nodos
    → All (Bajo l) (agrupar p abs i n nodos)
unfolding agrupar
agrupar-Bajo zero p l abs i nodos z h b k = k
agrupar-Bajo (suc n) p l abs i nodos z h b k =
    agrupar-Bajo n p l abs (suc i) _ z (omega arith) (omega arith) (
      anotar-Bajo l (u32 (abs + i) / p) (u32 (abs + i) % p) nodos
        ((div-lt_iff_lt-mul z).1 (omega arith)) k)

pub trozos-Bajo :
    (l : ℕ) (valor : List ℕ) (nodos : List PaginaAccion) (anterior : ℕ)
    → All (Bajo l) nodos
    → All (BajoTrozo l) (trozos valor anterior nodos)
unfolding trozos
trozos-Bajo l valor [] anterior k = tt
trozos-Bajo l valor (nodo ∷ nodos) anterior k =
    (k.0, trozos-Bajo l valor nodos (length nodo.direcciones) k.1)

escribir_trozos_total :
    (c : Carpincho) (ts : List (ℕ × List ℕ × ℕ))
    → PaginasNumeradas c
    → All (BajoTrozo (length c.paginas)) ts
    → (es : List Escritura) × (escribir_trozos c ts ≡ some es)
unfolding escribir_trozos
escribir_trozos_total c [] n k = ([], refl)
escribir_trozos_total c ((pag, bytes, offset) ∷ ts) n k =
    let (p, e) = n pag k.0 in
    let (es, f) = escribir_trozos_total c ts n k.1 in
    (record { pagina = p; buffer = bytes; offset = offset } ∷ es, ground (arith, e, f))

-- The metadata of a block in the pages is written without a fault.
pub persistir_metadata_heap_total :
    (config : Config) (c : Carpincho) (a : Alloc)
    → 0 < config.tamanio_pagina
    → PaginasNumeradas c
    → Esta a c.allocs
    → a.direccion + 9 ≤ length c.paginas * config.tamanio_pagina
    → a.direccion + 9 ≤ 4294967296
    → (es : List Escritura) × (persistir_metadata_heap config c a ≡ some es)
unfolding persistir_metadata_heap
persistir_metadata_heap_total config c a z n (i, e) h b =
    let (j, f) = obtener_indice-Esta c.allocs 0 i a e in
    rw (f, persistir_metadata_heap, obtener_indice_de_alloc)
      (escribir_trozos_total c _ n (
        trozos-Bajo (length c.paginas) _ _ 0 (
          agrupar-Bajo 9 config.tamanio_pagina (length c.paginas) a.direccion 0 [] z (omega arith)
            (omega arith) tt)))
