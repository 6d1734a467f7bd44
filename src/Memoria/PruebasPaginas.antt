-- ===== src/Memoria/PruebasPaginas.antt =====
-- Three pages of four bytes over two frames of memoria/src/memory.c: create_pagina, leer_en_pagina
-- and escribir_en_pagina with a swap process that keeps a list of pages.
use exitos_con_esto.Prelude.{
  ℕ, zero, suc, ◌+◌, ◌≡◌, refl, Bool, true, false, ◌&&◌, List, [], ◌∷◌, Option, none, some, ◌==◌,
  if◌then◌else◌, ◌>>=◌, pos, negsuc, ℤ, inl, inr, arith, Bool-cases, get_elem?,
}
use exitos_con_esto.Memoria.Datos.{Pagina}
use exitos_con_esto.Memoria.Carpinchos.{create_carpincho}
use exitos_con_esto.Memoria.Marcos.{Globales, Opciones, Swap}
use exitos_con_esto.Memoria.Paginas.{
  create_pagina, escribir_en_pagina, leer_en_pagina, obtener_marco_para_pagina,
}
use exitos_con_esto.Memoria.Cuentas.{cuenta, uno}
use exitos_con_esto.Memoria.Coherencia.{Coherente, Ubicada}
use exitos_con_esto.Memoria.Coherencia.Cargar.{Cuenta}
use exitos_con_esto.Memoria.Coherencia.Crear.{Elementos}
use exitos_con_esto.Memoria.Coherencia.Alcanzable.{
  Alcanzable, Alcanzable-Coherente, Paso, inicializar_memoria, obtener_marco_para_pagina-Ubicada,
}

-- list_sort by insertion.
abbrev pub insertar {ℓ} : {A : Type ℓ} → (A → A → Bool) → A → List A → List A
insertar menor x [] = x ∷ []
insertar menor x (y ∷ ys) = if menor y x then y ∷ insertar menor x ys else x ∷ y ∷ ys

abbrev pub ordenar {ℓ} : {A : Type ℓ} → (A → A → Bool) → List A → List A
ordenar menor [] = []
ordenar menor (x ∷ xs) = insertar menor x (ordenar menor xs)

abbrev pub buscar_copia : ℕ → ℕ → List (ℕ × ℕ × List ℕ) → Option (List ℕ)
buscar_copia pid pagina [] = none
buscar_copia pid pagina ((a, b, bytes) ∷ r) =
    if a == pid && b == pagina then some bytes else buscar_copia pid pagina r

abbrev pub swap : Swap
swap = record {
  Estado = List (ℕ × ℕ × List ℕ);
  escribir = λ s pid pagina bytes. (pid, pagina, bytes) ∷ s;
  leer = λ s pid pagina. (s, buscar_copia pid pagina s);
  detras = λ s. 0 ∷ [];
}

abbrev pub opciones : Bool → Opciones
opciones m_clock = record {
  config = record { tamanio_pagina = 4; marcos_por_carpincho = 2; fija = false };
  tamanio = 8;
  dinamica = true;
  m_clock = m_clock;
  tlb_lru = true;
  cantidad_entradas_tlb = 2;
  ordenar_tlb = λ menor xs. ordenar menor xs;
  ordenar_paginas = λ menor xs. ordenar menor xs;
  ordenar_marcos = λ menor xs. ordenar menor xs;
  pagina_fresca = record {
    marco = pos 0;
    carpincho_pid = 0;
    pagina = 0;
    bit_presencia = false;
    bit_de_uso = false;
    bit_de_modificacion = false;
    carp_num = 0;
    timestamp = 0;
  };
}

abbrev pub inicial : Globales swap.Estado
inicial = inicializar_memoria (opciones false) (λ n. 0) []

abbrev pub entrado : Globales swap.Estado
entrado = record inicial { carpinchos = (create_carpincho inicial.carpinchos 7).0 }

abbrev tres_paginas : Bool → Option (Globales swap.Estado)
tres_paginas b = do
  (s, p) ← create_pagina swap (opciones b) 7 entrado
  (s', r) ← escribir_en_pagina swap (opciones b) 7 1 (11 ∷ 12 ∷ []) 1 s
  (s'', p) ← create_pagina swap (opciones b) 7 s'
  (s3, p) ← create_pagina swap (opciones b) 7 s''
  some s3

releer : Bool → Option (Option (List ℕ))
releer b = do
  s ← tres_paginas b
  (s', bytes) ← leer_en_pagina swap (opciones b) 7 1 4 0 s
  some bytes

-- A page that went to the swap process comes back as it was written.
releer_lru : releer false ≡ some (some (95 ∷ 11 ∷ 12 ∷ 95 ∷ []))
unfolding releer create_pagina escribir_en_pagina leer_en_pagina inicializar_memoria
    create_carpincho
releer_lru = refl

releer_m_clock : releer true ≡ some (some (95 ∷ 11 ∷ 12 ∷ 95 ∷ []))
unfolding releer create_pagina escribir_en_pagina leer_en_pagina inicializar_memoria
    create_carpincho
releer_m_clock = refl

-- The page 2 was not modified, so M-CLOCK did not send it: it is lost.
pierde_pagina :
    (tres_paginas true >>= λ s. leer_en_pagina swap (opciones true) 7 2 4 0 s >>= λ r. some r.1)
    ≡ some none
unfolding create_pagina escribir_en_pagina leer_en_pagina inicializar_memoria create_carpincho
pierde_pagina = refl

-- What list_sort by insertion keeps.
cuenta-insertar :
    {A : Type 0} (q : A → Bool) (menor : A → A → Bool) (x : A) (ys : List A)
    → cuenta q (insertar menor x ys) ≡ uno (q x) + cuenta q ys
cuenta-insertar q menor x [] = refl
cuenta-insertar q menor x (y ∷ ys) = elim (Bool-cases (menor y x)) [
  | inl e ↦ rw e (omega (arith, cuenta-insertar q menor x ys))
  | inr e ↦ rw e refl
]

cuenta-ordenar :
    {A : Type 0} (menor : A → A → Bool) (q : A → Bool) (xs : List A)
    → cuenta q (ordenar menor xs) ≡ cuenta q xs
cuenta-ordenar menor q [] = refl
cuenta-ordenar menor q (x ∷ xs) =
    omega (arith, cuenta-insertar q menor x (ordenar menor xs), cuenta-ordenar menor q xs)

pub cuentas : (b : Bool) → Cuenta (opciones b).ordenar_tlb
cuentas b = record { misma = λ menor q xs. cuenta-ordenar menor q xs }

viene-insertar :
    {A : Type 0} (menor : A → A → Bool) (x : A) (ys : List A) (i : ℕ) (m : A)
    → get_elem? (insertar menor x ys) i ≡ some m
    → (j : ℕ) × (get_elem? (x ∷ ys) j ≡ some m)
viene-insertar menor x [] i m e = (i, e)
viene-insertar {A} menor x (y ∷ ys) i m e = elim (Bool-cases (menor y x)) [
  | inr d ↦ (i, rw d at e)
  | inl d ↦ mover i (rw d at e) (λ k. viene-insertar menor x ys k m)
]
  where
    saltar : (j : ℕ) → get_elem? (x ∷ ys) j ≡ some m → (j : ℕ) × (get_elem? (x ∷ y ∷ ys) j ≡ some m)
    saltar zero e = (0, e)
    saltar (suc j) e = (suc (suc j), e)

    mover :
        (i : ℕ)
        → get_elem? (y ∷ insertar menor x ys) i ≡ some m
        → ((k : ℕ)
            → get_elem? (insertar menor x ys) k ≡ some m
            → (j : ℕ) × (get_elem? (x ∷ ys) j ≡ some m))
        → (j : ℕ) × (get_elem? (x ∷ y ∷ ys) j ≡ some m)
    mover zero e r = (1, e)
    mover (suc i) e r = let (j, f) = r i e in saltar j f

viene-ordenar :
    {A : Type 0} (menor : A → A → Bool) (xs : List A) (i : ℕ) (m : A)
    → get_elem? (ordenar menor xs) i ≡ some m
    → (j : ℕ) × (get_elem? xs j ≡ some m)
viene-ordenar menor [] i m e = cc
viene-ordenar menor (x ∷ xs) i m e =
    let (j, f) = viene-insertar menor x (ordenar menor xs) i m e in
    atras j f (λ k. viene-ordenar menor xs k m)
  where
    atras :
        (j : ℕ)
        → get_elem? (x ∷ ordenar menor xs) j ≡ some m
        → ((k : ℕ) → get_elem? (ordenar menor xs) k ≡ some m → (j : ℕ) × (get_elem? xs j ≡ some m))
        → (j : ℕ) × (get_elem? (x ∷ xs) j ≡ some m)
    atras zero e r = (0, e)
    atras (suc j) e r = let (k, f) = r j e in (suc k, f)

pub elementos : (b : Bool) → Elementos (opciones b).ordenar_marcos
elementos b = record { del_original = λ menor xs i m e. viene-ordenar menor xs i m e }

abbrev pub valor_de {ℓ} : {A : Type ℓ} → A → Option A → A
valor_de a none = a
valor_de a (some b) = b

abbrev pub pagina_nula : Pagina
pagina_nula = (opciones false).pagina_fresca

-- After one page.
abbrev pub creado : Globales swap.Estado × Pagina
creado = valor_de (entrado, pagina_nula) (create_pagina swap (opciones false) 7 entrado)

crea_pagina : create_pagina swap (opciones false) 7 entrado ≡ some creado
unfolding create_pagina inicializar_memoria create_carpincho
crea_pagina = refl

pub creado-Alcanzable : Alcanzable swap (opciones false) creado.0
creado-Alcanzable =
    Alcanzable.luego entrado creado.0
      (Alcanzable.luego inicial entrado (Alcanzable.inicio (λ n. 0) []) (Paso.entra 7 refl))
      (Paso.crea 7 creado.1 crea_pagina)

Alcanzable-Coherente_example : Coherente (creado.0).marcos (creado.0).tlb.items
Alcanzable-Coherente_example =
    Alcanzable-Coherente swap (opciones false) (cuentas false) (elementos false) creado.0
      creado-Alcanzable

abbrev obtenido : Globales swap.Estado × ℤ
obtenido =
    valor_de (entrado, negsuc 0) (obtener_marco_para_pagina swap (opciones false) 7 1 creado.0)

obtiene_marco : obtener_marco_para_pagina swap (opciones false) 7 1 creado.0 ≡ some obtenido
unfolding create_pagina obtener_marco_para_pagina inicializar_memoria create_carpincho
obtiene_marco = refl

obtener_marco_para_pagina-Ubicada_example : Ubicada (obtenido.0).marcos obtenido.1 7 1
obtener_marco_para_pagina-Ubicada_example =
    obtener_marco_para_pagina-Ubicada swap (opciones false) (cuentas false) (elementos false)
      creado.0 obtenido.0 7 1 obtenido.1 creado-Alcanzable (omega arith) obtiene_marco
