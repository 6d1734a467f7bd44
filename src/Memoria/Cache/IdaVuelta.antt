-- ===== src/Memoria/Cache/IdaVuelta.antt =====
-- escribir_en_cache and retornar_contenido of memoria/src/memory.c: what is written to a frame is read
-- back, and the other frames stay as they were.
use mathlib.Core.Path.{subst}
use exitos_con_esto.Prelude.{
  length-take, ℕ, zero, suc, ◌+◌, ◌*◌, ◌≤◌, ◌≡◌, ◌⊎◌, refl, ◌∙◌, ap, inl, inr, true, false, List,
  [], ◌∷◌, ◌++◌, none, some, arith, leb, ltb, ◌==◌, leb→le, bind-inv, Bool-cases, if◌then◌else◌,
  ◌>>=◌, pos, length, take, drop, length-append,
}
use exitos_con_esto.Memoria.Datos.{Config}
use exitos_con_esto.Memoria.Cache.{
  escribir_bytes, escribir_en_cache, get_marco_ptr, leer_bytes, retornar_contenido,
}

take-length : (b r : List ℕ) → take (length b) (b ++ r) ≡ b
take-length [] r = refl
take-length (x ∷ b) r = ap (◌∷◌ x) (take-length b r)

drop-take-append : (p : ℕ) (c r : List ℕ) → p ≤ length c → drop p (take p c ++ r) ≡ r
drop-take-append zero c r h = refl
drop-take-append (suc p) [] r h = absurd (omega arith)
drop-take-append (suc p) (x ∷ c) r h = drop-take-append p c r (omega arith)

-- Bytes before the ones that are written.
take-drop_antes :
    (q n p : ℕ) (c r : List ℕ)
    → q + n ≤ p
    → p ≤ length c
    → take n (drop q (take p c ++ r)) ≡ take n (drop q c)
take-drop_antes zero zero p c r h l = refl
take-drop_antes zero (suc n) zero c r h l = absurd (omega arith)
take-drop_antes zero (suc n) (suc p) [] r h l = absurd (omega arith)
take-drop_antes zero (suc n) (suc p) (x ∷ c) r h l =
    ap (◌∷◌ x) (take-drop_antes zero n p c r (omega arith) (omega arith))
take-drop_antes (suc q) n zero c r h l = absurd (omega arith)
take-drop_antes (suc q) n (suc p) [] r h l = absurd (omega arith)
take-drop_antes (suc q) n (suc p) (x ∷ c) r h l =
    take-drop_antes q n p c r (omega arith) (omega arith)

drop-append_despues :
    (b c : List ℕ) (q : ℕ)
    → length b ≤ q
    → length b ≤ length c
    → drop q (b ++ drop (length b) c) ≡ drop q c
drop-append_despues [] c q h l = refl
drop-append_despues (y ∷ b) [] q h l = absurd (omega arith)
drop-append_despues (y ∷ b) (x ∷ c) zero h l = absurd (omega arith)
drop-append_despues (y ∷ b) (x ∷ c) (suc q) h l =
    drop-append_despues b c q (omega arith) (omega arith)

-- Bytes behind them.
drop_despues :
    (p q : ℕ) (b c : List ℕ)
    → p + length b ≤ q
    → p + length b ≤ length c
    → drop q (take p c ++ (b ++ drop (p + length b) c)) ≡ drop q c
drop_despues zero q b c h l =
    let e : 0 + length b ≡ length b = omega arith in
    rw e (drop-append_despues b c q (omega arith) (omega arith))
drop_despues (suc p) zero b c h l = absurd (omega arith)
drop_despues (suc p) (suc q) b [] h l = absurd (omega arith)
drop_despues (suc p) (suc q) b (x ∷ c) h l =
    let e : suc p + length b ≡ suc (p + length b) = omega arith in
    rw e (drop_despues p q b c (omega arith) (omega arith))

length-drop : (p : ℕ) (c : List ℕ) → p ≤ length c → length (drop p c) + p ≡ length c
length-drop zero c h = omega arith
length-drop (suc p) [] h = absurd (omega arith)
length-drop (suc p) (x ∷ c) h = omega (arith, length-drop p c)

length-escribir_bytes :
    (c b : List ℕ) (p : ℕ)
    → p + length b ≤ length c
    → length (take p c ++ (b ++ drop (p + length b) c)) ≡ length c
length-escribir_bytes c b p h = omega (
  arith,
  length-append (take p c) (b ++ drop (p + length b) c),
  length-append b (drop (p + length b) c),
  length-take p c,
  length-drop (p + length b) c,
)

-- What a write leaves.
pub record Escrito (c c' : List ℕ) (p : ℕ) (b : List ℕ) : Type 0 where
  pub largo : length c' ≡ length c
  pub leido : leer_bytes c' p (length b) ≡ some b
  pub resto : (q n : ℕ) → (q + n ≤ p) ⊎ (p + length b ≤ q) → leer_bytes c' q n ≡ leer_bytes c q n

escrito :
    (c b : List ℕ) (p : ℕ)
    → p + length b ≤ length c
    → Escrito c (take p c ++ (b ++ drop (p + length b) c)) p b
escrito c b p h =
    let d = take p c ++ (b ++ drop (p + length b) c) in
    let l : length d ≡ length c = length-escribir_bytes c b p h in
    let t : leb (p + length b) (length d) ≡ true = ground (arith, l, h) in
    record {
      largo = l;
      leido = rw t (
          ap some (
            ap (take (length b)) (drop-take-append p c (b ++ drop (p + length b) c) (omega arith))
            ∙ take-length b (drop (p + length b) c)));
      resto = λ q n o.
          ap (λ k. if leb (q + n) k then some (take n (drop q d)) else none) l
          ∙ ap (λ r. if leb (q + n) (length c) then some r else none) (mismo q n o);
    }
  where
    mismo :
        (q n : ℕ)
        → (q + n ≤ p) ⊎ (p + length b ≤ q)
        → take n (drop q (take p c ++ (b ++ drop (p + length b) c))) ≡ take n (drop q c)
    mismo q n (inl a) = take-drop_antes q n p c (b ++ drop (p + length b) c) a (omega arith)
    mismo q n (inr a) = ap (take n) (drop_despues p q b c a h)

pub escribir_bytes-Escrito :
    (c c' b : List ℕ) (p : ℕ) → escribir_bytes c p b ≡ some c' → Escrito c c' p b
escribir_bytes-Escrito c c' b p e = elim (Bool-cases (leb (p + length b) (length c))) [
  | inr h ↦ let e' = rw h at e in cc
  | inl h ↦
      let e' = rw h at e in
      let q : take p c ++ (b ++ drop (p + length b) c) ≡ c' = cc in
      subst (λ d. Escrito c d p b) q (escrito c b p (leb→le _ _ h))
]

-- Two frames have no byte in common.
marcos_separados :
    (t i j a n b m : ℕ)
    → (i == j) ≡ false
    → a + n ≤ t
    → b + m ≤ t
    → (j * t + b + m ≤ i * t + a) ⊎ (i * t + a + n ≤ j * t + b)
marcos_separados t i j a n b m d h k = elim (Bool-cases (ltb i j)) [
  | inl l ↦
      let g : suc i ≤ j = ground (arith, l) in
      let r : suc i * t ≤ j * t = grind (arith, g) in inr (grind (arith, r, h))
  | inr l ↦
      let g : suc j ≤ i = ground (arith, l, d) in
      let r : suc j * t ≤ i * t = grind (arith, g) in inl (grind (arith, r, k))
]

-- A write that returns 0 is a copy inside the frame.
escribir_en_cache-copia :
    (config : Config) (c c' b : List ℕ) (i offset : ℕ)
    → escribir_en_cache config c (pos i) b offset ≡ some (c', pos 0)
    → (length b + offset ≤ config.tamanio_pagina)
      × (escribir_bytes c (i * config.tamanio_pagina + offset) b ≡ some c')
unfolding escribir_en_cache get_marco_ptr
escribir_en_cache-copia config c c' b i offset e =
    elim (Bool-cases (ltb config.tamanio_pagina (length b + offset))) [
      | inl h ↦ let e' = rw h at e in cc
      | inr h ↦
          let (d, f, g) =
            bind-inv (escribir_bytes c (i * config.tamanio_pagina + offset) b) _ _ (rw h at e) in
          let q : d ≡ c' = cc in (ground (arith, h), f ∙ ap some q)
    ]

-- escribir_en_cache and retornar_contenido
pub retornar_contenido-escribir_en_cache :
    (config : Config) (c c' b : List ℕ) (i offset : ℕ)
    → escribir_en_cache config c (pos i) b offset ≡ some (c', pos 0)
    → (length c' ≡ length c)
      × (retornar_contenido config c' (pos i) offset (length b) ≡ some (some b))
      × ((j o n : ℕ)
          → (j == i) ≡ false
          → retornar_contenido config c' (pos j) o n ≡ retornar_contenido config c (pos j) o n)
unfolding retornar_contenido get_marco_ptr
retornar_contenido-escribir_en_cache config c c' b i offset e =
    let (h, f) = escribir_en_cache-copia config c c' b i offset e in
    let t = config.tamanio_pagina in
    let w = escribir_bytes-Escrito c c' b (i * t + offset) f in
    let k : ltb t (offset + length b) ≡ false = ground (arith, h) in
    (
      w.largo,
      rw k (ap (λ r. r >>= λ bytes. some (some bytes)) w.leido),
      λ j o n d. elim (Bool-cases (ltb t (o + n))) [
        | inl l ↦ rw l refl
        | inr l ↦ rw l (
            ap (λ r. r >>= λ bytes. some (some bytes))
              (w.resto (j * t + o) n (
                marcos_separados t i j offset (length b) o n (ground (arith, d)) (omega (arith, h))
                  (ground (arith, l)))))
      ],
    )
