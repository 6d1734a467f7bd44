-- ===== src/Swamp/IdaVuelta.antt =====
-- A page that goes to the swap and comes back: escribir_swap and leer_swap of swamp-v2/src/swamp.c.
use Prim.Native.String.{String}
use text.Mathlib.Text.{◌==◌ as str_eq}
use text.Mathlib.TextPositions.{eq_refl}
use exitos_con_esto.Prelude.{
  length-take, ℕ, zero, suc, ◌+◌, ◌*◌, ◌≤◌, ◌<◌, ◌≡◌, refl, sym, ◌∙◌, ap, Bool, true, false, List,
  [], ◌∷◌, ◌++◌, Option, some, ◌&&◌, inl, inr, map, length, arith, ℤ, pos, negsuc, eq_ℤ, eq_ℤ-refl,
  Bool-cases, get_elem?, take, drop, All, leb, leb→le, ◌==◌,
}
use exitos_con_esto.Swamp.Estado.{Config, Estado, Marco, leer}
use exitos_con_esto.Swamp.Marcos.{
  actualizar_carpincho, actualizar_marcos, cant_marcos, conseguir_desde, conseguir_marco,
  obtener_cant_archivos,
}
use exitos_con_esto.Swamp.Archivos.{archivo_de}
use exitos_con_esto.Swamp.Operaciones.{
  escribir_marco, escribir_swap, fgets, hasta_linea, leer_con, leer_en, leer_swap, pagina_leida,
  sobrescribir,
}
use exitos_con_esto.Swamp.Disposicion.{clave}
use exitos_con_esto.Swamp.Disposicion.Alcanzable.{Alcanzable, Alcanzable-EnOrden}
use exitos_con_esto.Swamp.Guardado.{escribir_swap-Resultado, recibir_pagina-conocido}

abbrev es_marco : String → ℕ → Marco → Bool
es_marco archivo k m = str_eq m.archivo archivo && eq_ℤ (pos m.marco) (pos k)

-- The first frame with the name that actualizarMarcos looks for is what conseguirMarco finds.
conseguir_desde-actualizado :
    (ms : List Marco) (i p k : ℕ) (archivo : String) (pid pagina : ℤ) (m : Marco)
    → conseguir_desde i ms pid pagina ≡ negsuc 0
    → get_elem? ms p ≡ some m
    → es_marco archivo k m ≡ true
    → ((j : ℕ) (x : Marco) → j < p → get_elem? ms j ≡ some x → es_marco archivo k x ≡ false)
    → conseguir_desde i (actualizar_marcos ms archivo (pos k) pagina pid) pid pagina ≡ pos (i + p)
unfolding conseguir_desde actualizar_marcos
conseguir_desde-actualizado [] i p k archivo pid pagina m a e s n = cc
conseguir_desde-actualizado (x ∷ ms) i zero k archivo pid pagina m a e s n =
    let q : x ≡ m = cc in
    let s' : es_marco archivo k x ≡ true = rw q s in
    rw s' (rw (eq_ℤ-refl pid, eq_ℤ-refl pagina) (ap pos (omega arith)))
conseguir_desde-actualizado (x ∷ ms) i (suc p) k archivo pid pagina m a e s n =
    elim (Bool-cases (eq_ℤ x.pid pid && eq_ℤ x.indice pagina)) [
      | inl t ↦ let a' = rw t at a in cc
      | inr t ↦
          let d =
            conseguir_desde-actualizado ms (suc i) p k archivo pid pagina m (rw t at a) e s
              (λ j y h f. n (suc j) y (omega (arith, h)) f) in
          rw (n 0 x (omega arith) refl, t) (d ∙ ap pos (omega arith))
    ]

drop-sobrescribir :
    (xs : List ℕ) (p : ℕ) (bytes : List ℕ)
    → p + length bytes ≤ length xs
    → (resto : List ℕ) × (drop p (sobrescribir xs p bytes) ≡ bytes ++ resto)
unfolding sobrescribir
drop-sobrescribir [] zero [] h = ([], refl)
drop-sobrescribir [] zero (b ∷ bytes) h = absurd (omega (arith, h))
drop-sobrescribir [] (suc p) bytes h = absurd (omega (arith, h))
drop-sobrescribir (x ∷ xs) zero [] h = (x ∷ xs, refl)
drop-sobrescribir (x ∷ xs) zero (b ∷ bytes) h =
    let (resto, e) = drop-sobrescribir xs 0 bytes (omega (arith, h)) in (resto, ap (λ r. b ∷ r) e)
drop-sobrescribir (x ∷ xs) (suc p) bytes h = drop-sobrescribir xs p bytes (omega (arith, h))

-- No byte is a newline.
abbrev pub SinSalto : List ℕ → Type 0
SinSalto = All (λ b. (b == 10) ≡ false)

hasta_linea-SinSalto :
    (bytes resto : List ℕ) (n : ℕ)
    → SinSalto bytes
    → n ≤ length bytes
    → hasta_linea n (bytes ++ resto) ≡ take n bytes
unfolding hasta_linea
hasta_linea-SinSalto bytes resto zero s h = refl
hasta_linea-SinSalto [] resto (suc n) s h = absurd (omega (arith, h))
hasta_linea-SinSalto (b ∷ bytes) resto (suc n) s h =
    rw (s.0, hasta_linea-SinSalto bytes resto n s.1 (omega (arith, h))) refl

SinSalto-take : (n : ℕ) (xs : List ℕ) → SinSalto xs → SinSalto (take n xs)
SinSalto-take zero xs s = tt
SinSalto-take (suc n) [] s = tt
SinSalto-take (suc n) (x ∷ xs) s = (s.0, SinSalto-take n xs s.1)

take-take : (n k : ℕ) (xs : List ℕ) → n ≤ k → take n (take k xs) ≡ take n xs
take-take zero k xs h = refl
take-take (suc n) zero xs h = absurd (omega (arith, h))
take-take (suc n) (suc k) [] h = refl
take-take (suc n) (suc k) (x ∷ xs) h = ap (λ r. x ∷ r) (take-take n k xs (omega (arith, h)))

-- fgets keeps the last place of its buffer for the 0.
fgets-SinSalto :
    (bytes resto previo : List ℕ) (n : ℕ)
    → SinSalto bytes
    → suc n ≤ length bytes
    → fgets (suc (suc n)) (bytes ++ resto) previo
      ≡ take (suc n) bytes ++ 0 ∷ drop (suc (suc n)) previo
unfolding fgets
fgets-SinSalto [] resto previo n s h = absurd (omega (arith, h))
fgets-SinSalto (b ∷ bytes) resto previo n s h =
    let l : length (take (suc n) (b ∷ bytes)) + 1 ≡ suc (suc n) =
      omega (arith, length-take (suc n) (b ∷ bytes) h) in
    rw (hasta_linea-SinSalto (b ∷ bytes) resto (suc n) s h, l) refl

-- In the first file a frame stands at the position that is its number.
primer_archivo :
    (config : Config) (s : Estado) (archivo : String) (j : ℕ)
    → Alcanzable config s
    → 0 < obtener_cant_archivos config
    → get_elem? config.archivos_swamp 0 ≡ some archivo
    → j < cant_marcos config
    → (m : Marco) × (get_elem? s.marcos j ≡ some m) × (m.archivo ≡ archivo) × (m.marco ≡ j)
primer_archivo config s archivo j alcanzado n a h =
    let e : get_elem? (map clave s.marcos) (0 * cant_marcos config + j) ≡ some (archivo, j) =
      (Alcanzable-EnOrden config s alcanzado).posicion 0 j archivo n h a in
    let z : 0 * cant_marcos config + j ≡ j = omega arith in de_clave s.marcos j (rw z at e)
  where
    de_clave :
        (ms : List Marco) (i : ℕ)
        → get_elem? (map clave ms) i ≡ some (archivo, j)
        → (m : Marco) × (get_elem? ms i ≡ some m) × (m.archivo ≡ archivo) × (m.marco ≡ j)
    de_clave [] i e = cc
    de_clave (m ∷ ms) zero e =
        let p : ◌≡◌ {A = Option (String × ℕ)} (some (m.archivo, m.marco)) (some (archivo, j)) = e in
        (m, refl, cc, cc)
    de_clave (m ∷ ms) (suc i) e = de_clave ms i e

-- conseguirMarco finds a page of the first file in the frame where it was written.
conseguir_marco-guardado :
    (config : Config) (s : Estado) (archivo : String) (k : ℕ) (pid pagina : ℤ)
    → Alcanzable config s
    → 0 < obtener_cant_archivos config
    → get_elem? config.archivos_swamp 0 ≡ some archivo
    → k < cant_marcos config
    → conseguir_marco s.marcos pid pagina ≡ negsuc 0
    → conseguir_marco (actualizar_marcos s.marcos archivo (pos k) pagina pid) pid pagina ≡ pos k
unfolding conseguir_marco
conseguir_marco-guardado config s archivo k pid pagina alcanzado n a h falta =
    let (m, e, ea, em) = primer_archivo config s archivo k alcanzado n a h in
    conseguir_desde-actualizado s.marcos 0 k k archivo pid pagina m falta e
      (rw (ea, em, eq_refl archivo) (eq_ℤ-refl (pos k)))
      (λ j x hj ex.
        otro j x hj ex (primer_archivo config s archivo j alcanzado n a (omega (arith, hj, h))))
    ∙ ap pos (omega arith)
  where
    otro :
        (j : ℕ) (x : Marco)
        → j < k
        → get_elem? s.marcos j ≡ some x
        → (m : Marco) × (get_elem? s.marcos j ≡ some m) × (m.archivo ≡ archivo) × (m.marco ≡ j)
        → es_marco archivo k x ≡ false
    otro j x hj ex (m, em, _, q) =
        let p : m ≡ x = cc in
        let q' : x.marco ≡ j = rw p at q in
        elim (Bool-cases (str_eq x.archivo archivo)) [
          | inl s ↦ ground (arith, s, q', hj)
          | inr t ↦ rw t refl
        ]

pub escribir_marco-inv :
    (config : Config) (contenido c : List ℕ) (k : ℕ) (buffer : List ℕ)
    → escribir_marco config contenido k buffer ≡ some c
    → (64 ≤ length buffer)
      × (config.tamanio_pagina * k + 64 ≤ config.tamanio_swamp)
      × (sobrescribir contenido (config.tamanio_pagina * k) (take 64 buffer) ≡ c)
unfolding escribir_marco
escribir_marco-inv config contenido c k buffer e = elim (Bool-cases (leb 64 (length buffer))) [
  | inr o ↦ let e' = rw o at e in cc
  | inl s ↦ elim (Bool-cases (leb (config.tamanio_pagina * k + 64) config.tamanio_swamp)) [
    | inr o ↦ let e' = rw o at (rw s at e) in cc
    | inl r ↦ let e' = rw r at (rw s at e) in (leb→le 64 (length buffer) s, leb→le _ _ r, cc)
  ]
]

-- Reading 64 bytes from where 64 were written.
fgets-sobrescribir :
    (contenido buffer basura : List ℕ) (p : ℕ)
    → 64 ≤ length buffer
    → p + 64 ≤ length contenido
    → SinSalto buffer
    → fgets 64 (drop p (sobrescribir contenido p (take 64 buffer))) basura
      ≡ take 63 buffer ++ 0 ∷ drop 64 basura
fgets-sobrescribir contenido buffer basura p b h s =
    let l : length (take 64 buffer) ≡ 64 = length-take 64 buffer b in
    let (resto, e) = drop-sobrescribir contenido p (take 64 buffer) (omega (arith, l, h)) in
    rw e (
      fgets-SinSalto (take 64 buffer) resto basura 62 (SinSalto-take 64 buffer s) (omega (arith, l))
      ∙ ap (λ r. r ++ 0 ∷ drop 64 basura) (take-take 63 64 buffer (omega arith)))

abbrev tras_leer : Estado → String → ℕ → ℤ → Estado
tras_leer t archivo k pid = record t {
  marcos = actualizar_marcos t.marcos archivo (pos k) (negsuc 0) pid;
  carpinchos = actualizar_carpincho leer t.carpinchos pid;
}

leer_swap-guardado :
    (config : Config) (t : Estado) (pid pagina : ℤ) (basura : List ℕ) (archivo : String) (k : ℕ)
    → archivo_de t.carpinchos pid ≡ some archivo
    → conseguir_marco t.marcos pid pagina ≡ pos k
    → leer_swap config t pid pagina basura
      ≡ some (
        tras_leer t archivo k pid,
        pagina_leida pid pagina config.tamanio_pagina (
            fgets config.tamanio_pagina
              (drop (k * config.tamanio_pagina) (t.disco archivo))
              basura),
      )
unfolding leer_swap leer_con leer_en
leer_swap-guardado config t pid pagina basura archivo k f c =
    rw (recibir_pagina-conocido config t pid leer archivo f, c) refl

-- In a state the server reaches with pages of 64 bytes, let escribir_swap store a page without
-- newlines that was not in the swap, for a process of the first file, which has its full size.
-- Then the next leer_swap of the page sends its first 63 bytes and a 0.
pub leer_swap-escribir_swap :
    (config : Config) (s t : Estado) (pid pagina : ℤ) (buffer basura : List ℕ) (archivo : String)
    → Alcanzable config s
    → 0 < obtener_cant_archivos config
    → config.tamanio_pagina ≡ 64
    → get_elem? config.archivos_swamp 0 ≡ some archivo
    → config.tamanio_swamp ≤ length (s.disco archivo)
    → SinSalto buffer
    → conseguir_marco s.marcos pid pagina ≡ negsuc 0
    → escribir_swap config s pid pagina buffer ≡ some (t, pos 0)
    → archivo_de t.carpinchos pid ≡ some archivo
    → (u : Estado) × (leer_swap config t pid pagina basura
        ≡ some (u, pagina_leida pid pagina 64 (take 63 buffer ++ 0 ∷ drop 64 basura)))
unfolding cant_marcos
leer_swap-escribir_swap config s t pid pagina buffer basura archivo alcanzado n tam a largo salto
      falta e f =
    elim (escribir_swap-Resultado config s t pid pagina (pos 0) buffer e) [
      | inr (h, _, _) ↦ cc
      | inl (_, g) ↦
          let q : g.archivo ≡ archivo = ground (arith, g.conocido, f) in
          let (b, cabe, bytes) =
            escribir_marco-inv config (s.disco archivo) (t.disco archivo) g.marco buffer
              (rw q at g.bytes) in
          let cabe' : 64 * g.marco + 64 ≤ config.tamanio_swamp = rw tam at cabe in
          let k : g.marco < cant_marcos config = rw tam (omega (arith, cabe')) in
          let c : conseguir_marco t.marcos pid pagina ≡ pos g.marco =
            rw (g.marcos, q)
              (conseguir_marco-guardado config s archivo g.marco pid pagina alcanzado n a k
                falta) in
          let u : Estado = tras_leer t archivo g.marco pid in
          let l = leer_swap-guardado config t pid pagina basura archivo g.marco f c in
          let paso =
            ap
              (λ x. some (
                u,
                pagina_leida pid pagina x (fgets x (drop (g.marco * x) (t.disco archivo)) basura),
              ))
              tam in
          let orden : g.marco * 64 ≡ 64 * g.marco = omega arith in
          let bytes' : t.disco archivo
              ≡ sobrescribir (s.disco archivo) (64 * g.marco) (take 64 buffer) =
            sym (rw tam at bytes) in
          (
            u,
            l
                ∙ paso
                ∙ ap (λ x. some (u, pagina_leida pid pagina 64 x))
                    (rw (orden, bytes')
                      (fgets-sobrescribir (s.disco archivo) buffer basura (64 * g.marco) b
                        (omega (arith, cabe', largo)) salto)),
          )
    ]
