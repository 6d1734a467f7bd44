-- ===== src/Memoria/Invariante/Memwrite.antt =====
-- memory_memwrite of memoria/src/memory.c on a valid heap: which writes it takes.
use exitos_con_esto.Prelude.{
  ℕ, zero, suc, ◌+◌, ◌≤◌, ◌<◌, ◌≡◌, refl, ap, inl, inr, true, false, List, [], ◌∷◌, some, arith,
  ltb, get_elem?, length, bind-inv, u32, sub_u32, Bool-cases, All,
}
use exitos_con_esto.Memoria.Datos.{Alloc, Carpincho, Config, Pagina, exito}
use exitos_con_esto.Memoria.Allocs.{en_rango, espacio_ocupado, obtener_alloc_de_un_carpincho}
use exitos_con_esto.Memoria.Metadatos.{Escritura, agrupar, trozos}
use exitos_con_esto.Memoria.Direcciones.{
  alguno_en_rango, escribir_en_alloc, escribir_posiciones, memory_memwrite, validar_desde,
  validar_direccion_logica_escritura, validar_direccion_logica_escritura_con_size,
}
use exitos_con_esto.Memoria.Bloques.Unir.{Contiguos}
use exitos_con_esto.Memoria.Bloques.Buscar.{Contiguos-Esta}
use exitos_con_esto.Memoria.Escrituras.{BajoTrozo, agrupar-Bajo, trozos-Bajo}
use exitos_con_esto.Memoria.Invariante.{HeapValido}
use exitos_con_esto.Memoria.Invariante.Alcance.{Alcance, escrituras-Alcance}
use exitos_con_esto.Memoria.Invariante.Memfree.{validar_direccion_logica-valida}

-- The bytes from `pos` on, `size` of them, are data of the block.
abbrev pub Dentro : Alloc → ℕ → ℕ → Type 0
Dentro a pos size = (a.direccion + 9 ≤ pos) × (pos + size ≤ a.direccion + 9 + a.tamanio_data)

en_rango-Dentro :
    (a : Alloc) (abs : ℕ)
    → a.direccion + 9 + a.tamanio_data < 4294967296
    → en_rango abs a ≡ true
    → Dentro a abs 1
unfolding en_rango
en_rango-Dentro a abs b h = (ground (arith, h), ground (arith, h))

Dentro-en_rango :
    (a : Alloc) (abs : ℕ)
    → a.direccion + 9 + a.tamanio_data < 4294967296
    → Dentro a abs 1
    → en_rango abs a ≡ true
unfolding en_rango
Dentro-en_rango a abs b h = ground (arith, h)

obtener_alloc_de_un_carpincho-correcto :
    (allocs : List Alloc) (abs : ℕ) (a : Alloc)
    → obtener_alloc_de_un_carpincho allocs abs ≡ some a
    → (i : ℕ) × (get_elem? allocs i ≡ some a) × (en_rango abs a ≡ true)
unfolding obtener_alloc_de_un_carpincho
obtener_alloc_de_un_carpincho-correcto [] abs a e = cc
obtener_alloc_de_un_carpincho-correcto (x ∷ xs) abs a e = elim (Bool-cases (en_rango abs x)) [
  | inl s ↦ let q : x ≡ a = (let e' = rw s at e in cc) in (0, ap some q, rw q at s)
  | inr n ↦
      let (i, f, g) = obtener_alloc_de_un_carpincho-correcto xs abs a (rw n at e) in (suc i, f, g)
]

obtener_alloc_de_un_carpincho-Esta :
    (allocs : List Alloc) (d i abs : ℕ) (a : Alloc)
    → get_elem? allocs i ≡ some a
    → Contiguos d allocs
    → d + espacio_ocupado allocs < 4294967296
    → Dentro a abs 1
    → obtener_alloc_de_un_carpincho allocs abs ≡ some a
unfolding obtener_alloc_de_un_carpincho espacio_ocupado
obtener_alloc_de_un_carpincho-Esta [] d i abs a e h b k = cc
obtener_alloc_de_un_carpincho-Esta (x ∷ xs) d zero abs a e h b k =
    let q : x ≡ a = cc in
    let r : en_rango abs x ≡ true = rw q (
      Dentro-en_rango a abs
        (omega (arith, ap (λ y. y.tamanio_data) q, ap (λ y. y.direccion) q, h.0, b)) k) in
    rw r (ap some q)
obtener_alloc_de_un_carpincho-Esta (x ∷ xs) d (suc i) abs a e h b k =
    elim (Bool-cases (en_rango abs x)) [
      | inl s ↦
          let despues = Contiguos-Esta xs (d + x.tamanio_data + 9) i a e h.1 in
          let antes = en_rango-Dentro x abs (omega (arith, h.0, b)) s in
          absurd (omega (arith, despues, antes, k, h.0))
      | inr n ↦ rw n (
          obtener_alloc_de_un_carpincho-Esta xs (d + x.tamanio_data + 9) i abs a e h.1
            (omega (arith, b)) k)
    ]

alguno_en_rango-Esta :
    (allocs : List Alloc) (i abs : ℕ) (a : Alloc)
    → get_elem? allocs i ≡ some a
    → en_rango abs a ≡ true
    → alguno_en_rango abs allocs ≡ true
unfolding alguno_en_rango
alguno_en_rango-Esta [] i abs a e h = cc
alguno_en_rango-Esta (x ∷ xs) zero abs a e h =
    let q : x ≡ a = cc in let r : en_rango abs x ≡ true = rw q h in rw r refl
alguno_en_rango-Esta (x ∷ xs) (suc i) abs a e h = elim (Bool-cases (en_rango abs x)) [
  | inl s ↦ rw s refl
  | inr n ↦ rw n (alguno_en_rango-Esta xs i abs a e h)
]

escribir_posiciones_total :
    (c : Carpincho) (ts : List (ℕ × List ℕ × ℕ))
    → All (BajoTrozo (length c.paginas)) ts
    → (es : List Escritura) × (escribir_posiciones c ts ≡ some es)
unfolding escribir_posiciones
escribir_posiciones_total c [] k = ([], refl)
escribir_posiciones_total c ((pag, bytes, offset) ∷ ts) k =
    let (p, e) = pagina_hay c.paginas pag k.0 in
    let (es, f) = escribir_posiciones_total c ts k.1 in
    (record { pagina = p; buffer = bytes; offset = offset } ∷ es, rw (e, f) refl)
  where
    pagina_hay :
        (ps : List Pagina) (i : ℕ) → i < length ps → (p : Pagina) × (get_elem? ps i ≡ some p)
    pagina_hay [] i h = absurd (omega (arith, h))
    pagina_hay (p ∷ ps) zero h = (p, refl)
    pagina_hay (p ∷ ps) (suc i) h = pagina_hay ps i (omega (arith, h))

-- If the pages have a size, the heap is valid and memory_memwrite answers with success, then the
-- addresses from the position on, as many as the size says, are data of one block of the process,
-- and every call of escribir_en_pagina that it makes is on a page of the process and writes only
-- to these addresses, without leaving the page.
pub memory_memwrite-Dentro :
    (config : Config) (c : Carpincho) (pos size : ℕ) (valor : List ℕ) (es : List Escritura)
    → 0 < config.tamanio_pagina
    → HeapValido config c
    → memory_memwrite config (some c) pos size valor ≡ some (exito, es)
    → (i : ℕ) × (a : Alloc) × (get_elem? c.allocs i ≡ some a)
      × Dentro a pos size
      × All (Alcance config c pos size) es
unfolding memory_memwrite escribir_en_alloc
memory_memwrite-Dentro config c pos size valor es z v e =
    elim (Bool-cases (validar_direccion_logica_escritura_con_size config c pos size)) [
      | inr n ↦ let e' = rw n at e in cc
      | inl s ↦
          let (a, f, g) = bind-inv (obtener_alloc_de_un_carpincho c.allocs pos) _ _ (rw s at e) in
          let (i, h, r) = obtener_alloc_de_un_carpincho-correcto c.allocs pos a f in
          let cota = Contiguos-Esta c.allocs 0 i a h v.contiguos in
          let d = en_rango-Dentro a pos (omega (arith, cota, v.acotado)) r in
          let alcance : ℕ =
            u32 (sub_u32 (u32 (a.direccion + 9 + a.tamanio_data + 4294967295)) pos + 1) in
          elim (Bool-cases (ltb alcance size)) [
            | inl m ↦ let g' = rw m at g in cc
            | inr m ↦
                let en : Dentro a pos size = (d.0, ground (arith, m, d, cota, v.acotado)) in
                let (fs, k, q) =
                  bind-inv
                    (escribir_posiciones c
                      (trozos valor 0 (agrupar config.tamanio_pagina pos 0 size [])))
                    _ _ (rw m at g) in
                let igual : fs ≡ es = cc in
                let todas =
                  escrituras-Alcance config c pos size valor fs z
                    (omega (arith, en, cota, v.acotado)) k in
                (i, a, h, en, rw igual at todas)
          ]
    ]

-- Every byte of a write inside a block passes the check.
validar_desde-Dentro :
    (config : Config) (c : Carpincho) (pos size k n i : ℕ) (a : Alloc)
    → 0 < config.tamanio_pagina
    → length c.paginas < 4294967296
    → HeapValido config c
    → get_elem? c.allocs i ≡ some a
    → Dentro a pos size
    → k + n ≤ size
    → validar_desde config c pos k n ≡ true
unfolding validar_desde validar_direccion_logica_escritura
validar_desde-Dentro config c pos size k zero i a z l v e d h = refl
validar_desde-Dentro config c pos size k (suc n) i a z l v e d h =
    let cota = Contiguos-Esta c.allocs 0 i a e v.contiguos in
    let sin : u32 (pos + k) ≡ pos + k = omega (arith, cota, v.acotado, d, h) in
    let logica =
      validar_direccion_logica-valida config c (pos + k) z (omega (arith, cota, v.capacidad, d, h))
        l in
    let rango =
      Dentro-en_rango a (pos + k) (omega (arith, cota, v.acotado))
        (omega (arith, d), omega (arith, d, h)) in
    rw (sin, logica, alguno_en_rango-Esta c.allocs i (pos + k) a e rango)
      (validar_desde-Dentro config c pos size (suc k) n i a z l v e d (omega (arith, h)))

-- If the pages have a size and there are fewer than 2^32 of them, the heap is valid, and at least
-- one byte is written and all of them are data of one block, free or not, then memory_memwrite
-- returns with success.
pub memory_memwrite_exito :
    (config : Config) (c : Carpincho) (pos size i : ℕ) (valor : List ℕ) (a : Alloc)
    → 0 < config.tamanio_pagina
    → length c.paginas < 4294967296
    → HeapValido config c
    → get_elem? c.allocs i ≡ some a
    → 0 < size
    → Dentro a pos size
    → (es : List Escritura) × (memory_memwrite config (some c) pos size valor ≡ some (exito, es))
unfolding memory_memwrite escribir_en_alloc validar_direccion_logica_escritura_con_size
memory_memwrite_exito config c pos size i valor a z l v e n d =
    let cota = Contiguos-Esta c.allocs 0 i a e v.contiguos in
    let ok = validar_desde-Dentro config c pos size 0 size i a z l v e d (omega arith) in
    let alcance : ltb (u32 (sub_u32 (u32 (a.direccion + 9 + a.tamanio_data + 4294967295)) pos + 1))
          size
        ≡ false =
      ground (arith, d, cota, v.acotado, n) in
    let hallado =
      obtener_alloc_de_un_carpincho-Esta c.allocs 0 i pos a e v.contiguos (omega (arith, v.acotado))
        (d.0, omega (arith, d, n)) in
    let (es, f) =
      escribir_posiciones_total c (trozos valor 0 (agrupar config.tamanio_pagina pos 0 size [])) (
        trozos-Bajo (length c.paginas) valor _ 0 (
          agrupar-Bajo size config.tamanio_pagina (length c.paginas) pos 0 [] z
            (omega (arith, d, cota, v.capacidad)) (omega (arith, d, cota, v.acotado)) tt)) in
    (es, rw (ok, hallado) (rw (alcance, f) refl))
