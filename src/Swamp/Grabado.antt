-- ===== src/Swamp/Grabado.antt =====
-- Where escribir_swap of swamp-v2/src/swamp.c puts a page: the frame and each byte of the file.
use Prim.Native.String.{String}
use text.Mathlib.Text.{◌==◌ as str_eq}
use text.Mathlib.TextEquality.{eq_iff}
use text.Mathlib.TextPositions.{eq_refl}
use exitos_con_esto.Prelude.{
  length-take, ℕ, zero, suc, ◌+◌, ◌*◌, ◌≤◌, ◌<◌, ◌≡◌, refl, sym, ◌∙◌, ap, ◌⊎◌, inl, inr, false,
  List, [], ◌∷◌, some, ◌&&◌, length, arith, ℤ, pos, negsuc, eq_ℤ, eq_ℤ-refl, Bool-cases, get_elem?,
  take,
}
use exitos_con_esto.Swamp.Estado.{Config, Estado, Marco}
use exitos_con_esto.Swamp.Marcos.{
  actualizar_marcos, cant_marcos, hay_espacio_archivo, obtener_cant_archivos,
}
use exitos_con_esto.Swamp.Archivos.{archivo_de}
use exitos_con_esto.Swamp.Operaciones.{escribir_swap, sobrescribir}
use exitos_con_esto.Swamp.Espacio.{PrimerLibre, buscar_libre-PrimerLibre}
use exitos_con_esto.Swamp.Guardado.{Guardado, escribir_swap-Resultado}
use exitos_con_esto.Swamp.IdaVuelta.{escribir_marco-inv}

-- The frame has this number in this file.
abbrev pub Elegido : String → ℕ → Marco → Type 0
Elegido archivo marco x = (x.archivo ≡ archivo) × (x.marco ≡ marco)

-- A page in the swap, byte by byte: the frame was the first free one of the file of the process, it
-- bears the process and the page, the 64 bytes from its place on are those of the page, and all else
-- in the frames and in the files is as before.
pub record Grabado (config : Config) (s t : Estado) (pid pagina : ℤ) (buffer : List ℕ)
    : Type 0 where
  pub archivo : String
  pub marco : ℕ
  pub conocido : archivo_de t.carpinchos pid ≡ some archivo
  pub libre : PrimerLibre s.marcos archivo marco
  pub cuantos : length t.marcos ≡ length s.marcos
  pub elegido :
      (j : ℕ) (x : Marco)
      → get_elem? s.marcos j ≡ some x
      → Elegido archivo marco x
      → get_elem? t.marcos j ≡ some (record x { indice = pagina; pid = pid })
  pub demas :
      (j : ℕ) (x : Marco)
      → get_elem? s.marcos j ≡ some x
      → ¬ Elegido archivo marco x
      → get_elem? t.marcos j ≡ some x
  pub entero : 64 ≤ length buffer
  pub bytes :
      (j : ℕ)
      → j < 64
      → config.tamanio_pagina * marco + j < length (s.disco archivo)
      → get_elem? (t.disco archivo) (config.tamanio_pagina * marco + j) ≡ get_elem? buffer j
  pub resto :
      (q : ℕ)
      → (q < config.tamanio_pagina * marco) ⊎ (config.tamanio_pagina * marco + 64 ≤ q)
      → get_elem? (t.disco archivo) q ≡ get_elem? (s.disco archivo) q
  pub otros : (otro : String) → str_eq otro archivo ≡ false → t.disco otro ≡ s.disco otro

length-actualizar_marcos :
    (ms : List Marco) (archivo : String) (marco pagina pid : ℤ)
    → length (actualizar_marcos ms archivo marco pagina pid) ≡ length ms
unfolding actualizar_marcos
length-actualizar_marcos [] archivo marco pagina pid = refl
length-actualizar_marcos (m ∷ ms) archivo marco pagina pid =
    ap suc (length-actualizar_marcos ms archivo marco pagina pid)

actualizar_marcos-Elegido :
    (ms : List Marco) (archivo : String) (k : ℕ) (pagina pid : ℤ) (j : ℕ) (x : Marco)
    → get_elem? ms j ≡ some x
    → Elegido archivo k x
    → get_elem? (actualizar_marcos ms archivo (pos k) pagina pid) j
      ≡ some (record x { indice = pagina; pid = pid })
unfolding actualizar_marcos
actualizar_marcos-Elegido [] archivo k pagina pid j x e h = cc
actualizar_marcos-Elegido (m ∷ ms) archivo k pagina pid zero x e h =
    let q : m ≡ x = cc in
    rw q (rw (h.0, h.1, eq_refl archivo) (rw (eq_ℤ-refl (pos k)) (ground (arith, h))))
actualizar_marcos-Elegido (m ∷ ms) archivo k pagina pid (suc j) x e h =
    actualizar_marcos-Elegido ms archivo k pagina pid j x e h

no-Elegido :
    (archivo : String) (k : ℕ) (x : Marco)
    → ¬ Elegido archivo k x
    → (str_eq x.archivo archivo && eq_ℤ (pos x.marco) (pos k)) ≡ false
no-Elegido archivo k x n = elim (Bool-cases (str_eq x.archivo archivo)) [
  | inr a ↦ rw a refl
  | inl a ↦ elim (Bool-cases (eq_ℤ (pos x.marco) (pos k))) [
    | inr b ↦ rw (a, b) refl
    | inl b ↦ absurd (n ((eq_iff x.archivo archivo).0 a, ground (arith, b)))
  ]
]

actualizar_marcos-demas :
    (ms : List Marco) (archivo : String) (k : ℕ) (pagina pid : ℤ) (j : ℕ) (x : Marco)
    → get_elem? ms j ≡ some x
    → ¬ Elegido archivo k x
    → get_elem? (actualizar_marcos ms archivo (pos k) pagina pid) j ≡ some x
unfolding actualizar_marcos
actualizar_marcos-demas [] archivo k pagina pid j x e n = cc
actualizar_marcos-demas (m ∷ ms) archivo k pagina pid zero x e n =
    let q : m ≡ x = cc in rw q (rw (no-Elegido archivo k x n) refl)
actualizar_marcos-demas (m ∷ ms) archivo k pagina pid (suc j) x e n =
    actualizar_marcos-demas ms archivo k pagina pid j x e n

get_elem?-sobrescribir :
    (xs : List ℕ) (p : ℕ) (bytes : List ℕ) (j q : ℕ)
    → p + j ≡ q
    → j < length bytes
    → q < length xs
    → get_elem? (sobrescribir xs p bytes) q ≡ get_elem? bytes j
unfolding sobrescribir
get_elem?-sobrescribir [] p bytes j q e h k = absurd (omega (arith, k))
get_elem?-sobrescribir (x ∷ xs) (suc p) bytes j zero e h k = absurd (omega (arith, e))
get_elem?-sobrescribir (x ∷ xs) (suc p) bytes j (suc q) e h k =
    get_elem?-sobrescribir xs p bytes j q (omega (arith, e)) h (omega (arith, k))
get_elem?-sobrescribir (x ∷ xs) zero [] j q e h k = absurd (omega (arith, h))
get_elem?-sobrescribir (x ∷ xs) zero (b ∷ bytes) zero zero e h k = refl
get_elem?-sobrescribir (x ∷ xs) zero (b ∷ bytes) zero (suc q) e h k = absurd (omega (arith, e))
get_elem?-sobrescribir (x ∷ xs) zero (b ∷ bytes) (suc j) zero e h k = absurd (omega (arith, e))
get_elem?-sobrescribir (x ∷ xs) zero (b ∷ bytes) (suc j) (suc q) e h k =
    get_elem?-sobrescribir xs zero bytes j q (omega (arith, e)) (omega (arith, h))
      (omega (arith, k))

get_elem?-sobrescribir_fuera :
    (xs : List ℕ) (p : ℕ) (bytes : List ℕ) (q : ℕ)
    → (q < p) ⊎ (p + length bytes ≤ q)
    → get_elem? (sobrescribir xs p bytes) q ≡ get_elem? xs q
unfolding sobrescribir
get_elem?-sobrescribir_fuera [] p bytes q h = refl
get_elem?-sobrescribir_fuera (x ∷ xs) (suc p) bytes zero h = refl
get_elem?-sobrescribir_fuera (x ∷ xs) (suc p) bytes (suc q) h =
    get_elem?-sobrescribir_fuera xs p bytes q (ground (arith, h))
get_elem?-sobrescribir_fuera (x ∷ xs) zero [] q h = refl
get_elem?-sobrescribir_fuera (x ∷ xs) zero (b ∷ bytes) zero h = absurd (ground (arith, h))
get_elem?-sobrescribir_fuera (x ∷ xs) zero (b ∷ bytes) (suc q) h =
    get_elem?-sobrescribir_fuera xs zero bytes q (ground (arith, h))

get_elem?-take : (n : ℕ) (xs : List ℕ) (j : ℕ) → j < n → get_elem? (take n xs) j ≡ get_elem? xs j
get_elem?-take zero xs j h = absurd (omega (arith, h))
get_elem?-take (suc n) [] j h = refl
get_elem?-take (suc n) (x ∷ xs) zero h = refl
get_elem?-take (suc n) (x ∷ xs) (suc j) h = get_elem?-take n xs j (omega (arith, h))

Guardado-Grabado :
    (config : Config) (s t : Estado) (pid pagina : ℤ) (buffer : List ℕ)
    → Guardado config s t pid pagina buffer
    → Grabado config s t pid pagina buffer
unfolding hay_espacio_archivo
Guardado-Grabado config s t pid pagina buffer g =
    let (entero, cabe, contenido) =
      escribir_marco-inv config (s.disco g.archivo) (t.disco g.archivo) g.marco buffer g.bytes in
    let p = config.tamanio_pagina * g.marco in
    let largo : length (take 64 buffer) ≡ 64 = length-take 64 buffer entero in
    record {
      archivo = g.archivo;
      marco = g.marco;
      conocido = g.conocido;
      libre =
          buscar_libre-PrimerLibre (suc (cant_marcos config * obtener_cant_archivos config))
            s.marcos g.archivo g.marco g.lugar;
      cuantos =
          ap length g.marcos ∙ length-actualizar_marcos s.marcos g.archivo (pos g.marco) pagina pid;
      elegido = λ j x e h.
          rw g.marcos (actualizar_marcos-Elegido s.marcos g.archivo g.marco pagina pid j x e h);
      demas = λ j x e n.
          rw g.marcos (actualizar_marcos-demas s.marcos g.archivo g.marco pagina pid j x e n);
      entero = entero;
      bytes = λ j h k.
          ap (λ xs. get_elem? xs (p + j)) (sym contenido)
          ∙ get_elem?-sobrescribir (s.disco g.archivo) p (take 64 buffer) j (p + j) refl
              (omega (arith, largo, h)) k
          ∙ get_elem?-take 64 buffer j h;
      resto = λ q h.
          ap (λ xs. get_elem? xs q) (sym contenido)
          ∙ get_elem?-sobrescribir_fuera (s.disco g.archivo) p (take 64 buffer) q (rw largo h);
      otros = g.otros;
    }

-- The two answers of escribir_swap.
abbrev pub Respuesta : Config → Estado → Estado → ℤ → ℤ → List ℕ → ℤ → Type 0
Respuesta config s t pid pagina buffer r =
    ((r ≡ pos 0) × Grabado config s t pid pagina buffer)
    ⊎ ((r ≡ negsuc 0) × (t.marcos ≡ s.marcos) × (t.disco ≡ s.disco))

-- Where escribir_swap does not fault it answers 0 or -1. After a 0, the frames of one number in
-- the file of the process, which is the number of the first free frame of that file, bear the
-- process and the page; the 64 bytes from the place of this number on, as far as the file goes,
-- are the first 64 of the page, which has as many; and the other frames, the rest of that file and
-- the other files are as before. After a -1 the frames and the files are as before.
pub escribir_swap-Grabado :
    (config : Config) (s t : Estado) (pid pagina r : ℤ) (buffer : List ℕ)
    → escribir_swap config s pid pagina buffer ≡ some (t, r)
    → Respuesta config s t pid pagina buffer r
escribir_swap-Grabado config s t pid pagina r buffer e =
    elim (escribir_swap-Resultado config s t pid pagina r buffer e) [
      | inl (o, g) ↦ inl (o, Guardado-Grabado config s t pid pagina buffer g)
      | inr h ↦ inr h
    ]
