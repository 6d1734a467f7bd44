-- ===== src/Memoria/Lecturas/UnaPagina.antt =====
-- memory_memread of memoria/src/memory.c of bytes that lie in one page.
use native.Mathlib.Nat.{div-add-mod', div-lt_iff_lt-mul}
use exitos_con_esto.Prelude.{
  append-nil, append_assoc, ℕ, zero, suc, ◌+◌, ◌*◌, ◌/◌, ◌%◌, ◌≤◌, ◌<◌, ◌≡◌, refl, sym, ◌∙◌, ap,
  inl, inr, true, Bool-cases, List, [], ◌∷◌, ◌++◌, some, arith, leb, drop, get_elem?, ltb, ◌==◌,
  ==-refl, u32, length,
}
use exitos_con_esto.Memoria.Datos.{Carpincho, Pagina, PaginaAccion, exito}
use exitos_con_esto.Memoria.Carpinchos.{get_carpincho}
use exitos_con_esto.Memoria.Direcciones.{validar_direccion_logica_escritura_con_size}
use exitos_con_esto.Memoria.Cache.{escribir_bytes}
use exitos_con_esto.Memoria.Marcos.{Globales, Opciones, Swap}
use exitos_con_esto.Memoria.Paginas.{leer_en_pagina}
use exitos_con_esto.Memoria.Cuentas.{Devuelve}
use exitos_con_esto.Memoria.Lecturas.{leer_grupos, memory_memread}
use exitos_con_esto.Memoria.Metadatos.{agrupar, anotar}

-- Bytes of one page.
misma_pagina : (p pos j : ℕ) → 0 < p → pos % p + j < p → (pos + j) / p ≡ pos / p
misma_pagina p pos j z h =
    let d = div-add-mod' pos p in
    let q = pos / p in
    let b : pos + j < suc q * p = grind (arith, d, h) in
    let a : (pos + j) / p < suc q = (div-lt_iff_lt-mul z).1 b in
    elim (Bool-cases (ltb ((pos + j) / p) q)) [
      | inl l ↦
          let r : pos + j < q * p = (div-lt_iff_lt-mul z).0 (ground (arith, l)) in
          absurd (omega (arith, r, d))
      | inr l ↦ ground (arith, l, a)
    ]

abbrev grupo : ℕ → List ℕ → List PaginaAccion
grupo q ds = record { pagina = q; direcciones = ds } ∷ []

agrupar_resto :
    (n p pos i : ℕ) (ds : List ℕ)
    → 0 < p
    → pos % p + (i + n) ≤ p
    → pos + (i + n) ≤ 4294967296
    → (es : List ℕ) × (length es ≡ n)
      × (agrupar p pos i n (grupo (pos / p) ds) ≡ grupo (pos / p) (ds ++ es))
unfolding agrupar anotar
agrupar_resto zero p pos i ds z h l = ([], refl, ap (grupo (pos / p)) (sym (append-nil ds)))
agrupar_resto (suc n) p pos i ds z h l =
    let m = u32 (pos + i) % p in
    let u : u32 (pos + i) ≡ pos + i = omega (arith, l) in
    let q : u32 (pos + i) / p ≡ pos / p =
      ap (λ k. k / p) u ∙ misma_pagina p pos i z (omega (arith, h)) in
    let b : (pos / p == u32 (pos + i) / p) ≡ true = ap (◌==◌ (pos / p)) q ∙ ==-refl (pos / p) in
    let (es, k, r) =
      agrupar_resto n p pos (suc i) (ds ++ m ∷ []) z (omega (arith, h)) (omega (arith, l)) in
    (m ∷ es, ap suc k, rw b (r ∙ ap (grupo (pos / p)) (append_assoc ds (m ∷ []) es)))

-- The group that agrupar makes of them.
pub agrupar_una_pagina :
    (n p pos : ℕ)
    → 0 < p
    → pos % p + suc n ≤ p
    → pos + suc n ≤ 4294967296
    → (es : List ℕ) × (length es ≡ n)
      × (agrupar p pos 0 (suc n) [] ≡ record { pagina = pos / p; direcciones = pos % p ∷ es } ∷ [])
unfolding agrupar anotar
agrupar_una_pagina n p pos z h l =
    let u : u32 (pos + 0) ≡ pos = omega (arith, l) in
    let (es, k, r) =
      agrupar_resto n p pos 1 (pos % p ∷ []) z (omega (arith, h)) (omega (arith, l)) in
    let w : agrupar p pos 0 (suc n) [] ≡ agrupar p pos 1 n (grupo (pos / p) (pos % p ∷ [])) =
      ap (λ k. agrupar p pos 1 n (grupo (k / p) (k % p ∷ []))) u in
    (es, k, w ∙ r)

drop-todo : (m : ℕ) (xs : List ℕ) → length xs ≡ m → drop m xs ≡ []
drop-todo zero [] h = refl
drop-todo zero (x ∷ xs) h = absurd (omega arith)
drop-todo (suc m) [] h = refl
drop-todo (suc m) (x ∷ xs) h = drop-todo m xs (omega arith)

-- A block that is filled.
escribir_bytes_todo :
    (buffer b : List ℕ) (m : ℕ)
    → length b ≡ m
    → length buffer ≡ m
    → escribir_bytes buffer 0 b ≡ some b
escribir_bytes_todo buffer b m h k =
    let l : leb (0 + length b) (length buffer) ≡ true = ground (arith, h, k) in
    let d : drop (0 + length b) buffer ≡ [] =
      drop-todo (0 + length b) buffer (omega (arith, h, k)) in
    rw l (ap (λ r. some (b ++ r)) d ∙ ap some (append-nil b))

module _ (swap : Swap) (o : Opciones) where
  open swap use {Estado}

  -- memory_memread of bytes of one page is one leer_en_pagina.
  pub memory_memread-leer_en_pagina :
      (s : Globales Estado) (pid pos n : ℕ) (c : Carpincho) (p : Pagina) (b buffer : List ℕ)
      → get_carpincho s.carpinchos pid ≡ some c
      → validar_direccion_logica_escritura_con_size o.config c pos (suc n) ≡ true
      → get_elem? c.paginas (pos / o.config.tamanio_pagina) ≡ some p
      → 0 < o.config.tamanio_pagina
      → pos % o.config.tamanio_pagina + suc n ≤ o.config.tamanio_pagina
      → pos + suc n ≤ 4294967296
      → length b ≡ suc n
      → length buffer ≡ suc n
      → Devuelve
          (λ r. r.1 ≡ some b)
          (leer_en_pagina swap o p.carpincho_pid p.pagina (suc n) (pos % o.config.tamanio_pagina) s)
      → Devuelve (λ r. (r.1 ≡ exito) × (r.2 ≡ b)) (memory_memread swap o s pid pos (suc n) buffer)
  unfolding memory_memread leer_grupos
  memory_memread-leer_en_pagina s pid pos n c p b buffer e v g z h l k q (r, f, w) =
      let (es, m, a) = agrupar_una_pagina n o.config.tamanio_pagina pos z h l in
      let d = escribir_bytes_todo buffer b (suc n) k q in
      (
        (r.0, exito, b),
        rw (e, memory_memread) (rw v (rw a (rw g (rw m (rw f (rw w (rw d refl))))))),
        (refl, refl),
      )
