-- ===== src/Swamp/Espacio.antt =====
-- The free frames of swamp-v2/src/swamp.c: hayEspacioArchivo, verSiHayPaginas and actualizarMarcos.
use Prim.Native.String.{String}
use text.Mathlib.Text.{◌==◌ as str_eq}
use text.Mathlib.TextEquality.{eq_iff}
use text.Mathlib.TextPositions.{eq_refl}
use exitos_con_esto.Prelude.{
  negsuc, eq_ℤ, eq_ℤ→eq, ◌&&◌, Bool, ℕ, zero, suc, ◌+◌, ◌*◌, ◌<◌, ◌≡◌, refl, true, false, List, [],
  ◌∷◌, none, some, inl, inr, ◌⊎◌, length, arith, if◌then◌else◌, pos, Bool-cases, get_elem?,
  length-map,
}
use exitos_con_esto.Swamp.Estado.{Config, Estado, Marco}
use exitos_con_esto.Swamp.Marcos.{
  buscar_libre, cant_marcos, contar_libres, hay_espacio_archivo, libre_de, obtener_cant_archivos,
  ver_si_hay_paginas,
}
use exitos_con_esto.Swamp.Disposicion.{clave}
use exitos_con_esto.Swamp.Disposicion.Alcanzable.{Alcanzable, Alcanzable-EnOrden}

-- How many frames of the file are free.
abbrev pub libres : List Marco → String → ℕ
libres [] archivo = 0
libres (m ∷ ms) archivo = if libre_de archivo m then libres ms archivo + 1 else libres ms archivo

-- The frame is one of the file and holds no page.
abbrev pub Libre : String → Marco → Type 0
Libre archivo m = (m.archivo ≡ archivo) × (m.indice ≡ negsuc 0)

-- `i` is the first position of a free frame of the file, and `k` is the number of the frame.
pub record PrimerLibre (ms : List Marco) (archivo : String) (k : ℕ) : Type 0 where
  pub i : ℕ
  pub m : Marco
  pub esta : get_elem? ms i ≡ some m
  pub del_archivo : m.archivo ≡ archivo
  pub sin_pagina : m.indice ≡ negsuc 0
  pub numero : m.marco ≡ k
  pub primero : (j : ℕ) (x : Marco) → j < i → get_elem? ms j ≡ some x → ¬ Libre archivo x

contar_libres-libres :
    (ms : List Marco) (n : ℕ) (archivo : String)
    → n ≡ length ms
    → contar_libres n ms archivo ≡ some (libres ms archivo)
unfolding contar_libres
contar_libres-libres [] zero archivo e = refl
contar_libres-libres [] (suc n) archivo e = absurd (omega (arith, e))
contar_libres-libres (m ∷ ms) zero archivo e = absurd (omega (arith, e))
contar_libres-libres (m ∷ ms) (suc n) archivo e =
    rw (contar_libres-libres ms n archivo (omega (arith, e))) refl

libre_de-Libre : (archivo : String) (m : Marco) → libre_de archivo m ≡ true → Libre archivo m
unfolding libre_de
libre_de-Libre archivo m h =
    partes (str_eq m.archivo archivo) (eq_ℤ m.indice (negsuc 0)) refl refl h
  where
    partes :
        (a b : Bool)
        → str_eq m.archivo archivo ≡ a
        → eq_ℤ m.indice (negsuc 0) ≡ b
        → (a && b) ≡ true
        → Libre archivo m
    partes true true ea eb h = ((eq_iff m.archivo archivo).0 ea, eq_ℤ→eq m.indice (negsuc 0) eb)
    partes true false ea eb h = cc
    partes false b ea eb h = cc

Libre-libre_de : (archivo : String) (m : Marco) → libre_de archivo m ≡ false → ¬ Libre archivo m
unfolding libre_de
Libre-libre_de archivo m h (a, i) = let h' = rw (a, i, eq_refl archivo) at h in cc

PrimerLibre-zero :
    (m : Marco) (ms : List Marco) (archivo : String)
    → libre_de archivo m ≡ true
    → PrimerLibre (m ∷ ms) archivo (m.marco)
PrimerLibre-zero m ms archivo s = record {
  i = 0;
  m = m;
  esta = refl;
  del_archivo = (libre_de-Libre archivo m s).0;
  sin_pagina = (libre_de-Libre archivo m s).1;
  numero = refl;
  primero = λ j x h e. absurd (omega (arith, h));
}

PrimerLibre-suc :
    (m : Marco) (ms : List Marco) (archivo : String) (k : ℕ)
    → libre_de archivo m ≡ false
    → PrimerLibre ms archivo k
    → PrimerLibre (m ∷ ms) archivo k
PrimerLibre-suc m ms archivo k o l = record {
  i = suc l.i;
  m = l.m;
  esta = l.esta;
  del_archivo = l.del_archivo;
  sin_pagina = l.sin_pagina;
  numero = l.numero;
  primero = antes;
}
  where
    antes : (j : ℕ) (x : Marco) → j < suc l.i → get_elem? (m ∷ ms) j ≡ some x → ¬ Libre archivo x
    antes zero x h e = let q : m ≡ x = cc in rw q at (Libre-libre_de archivo m o)
    antes (suc j) x h e = l.primero j x (omega (arith, h)) e

-- The frame that the search gives is the first free one of the file.
pub buscar_libre-PrimerLibre :
    (n : ℕ) (ms : List Marco) (archivo : String) (k : ℕ)
    → buscar_libre n ms archivo ≡ some (some k)
    → PrimerLibre ms archivo k
unfolding buscar_libre
buscar_libre-PrimerLibre zero ms archivo k e = ground arith
buscar_libre-PrimerLibre (suc n) [] archivo k e = cc
buscar_libre-PrimerLibre (suc n) (m ∷ ms) archivo k e = elim (Bool-cases (libre_de archivo m)) [
  | inl s ↦
      let e' = rw s at e in
      let q : k ≡ m.marco = ground arith in rw q (PrimerLibre-zero m ms archivo s)
  | inr o ↦ PrimerLibre-suc m ms archivo k o (buscar_libre-PrimerLibre n ms archivo k (rw o at e))
]

-- The one round too many reads past the list, so that a full file is a fault.
buscar_libre-libres :
    (ms : List Marco) (n : ℕ) (archivo : String)
    → n ≡ suc (length ms)
    → ((buscar_libre n ms archivo ≡ none) × (libres ms archivo ≡ 0))
      ⊎ ((k : ℕ) × (buscar_libre n ms archivo ≡ some (some k))
          × PrimerLibre ms archivo k
          × (0 < libres ms archivo))
unfolding buscar_libre
buscar_libre-libres ms zero archivo e = absurd (omega (arith, e))
buscar_libre-libres [] (suc n) archivo e = inl (refl, refl)
buscar_libre-libres (m ∷ ms) (suc n) archivo e = elim (Bool-cases (libre_de archivo m)) [
  | inl s ↦ inr (m.marco, rw s refl, PrimerLibre-zero m ms archivo s, rw s (omega arith))
  | inr o ↦ elim (buscar_libre-libres ms n archivo (omega (arith, e))) [
    | inl (p, q) ↦ inl (rw o p, rw o q)
    | inr (k, p, l, q) ↦ inr (k, rw o p, PrimerLibre-suc m ms archivo k o l, rw o q)
  ]
]

-- What hayEspacioArchivo and verSiHayPaginas answer on the same frames.
pub data Espacio (config : Config) (ms : List Marco) (archivo : String) : Type 0 where
  lleno :
      hay_espacio_archivo config ms archivo ≡ none
      → ((n : ℕ) → ver_si_hay_paginas config ms (pos (suc n)) archivo ≡ some false)
      → Espacio config ms archivo
  con_lugar :
      (k : ℕ)
      → hay_espacio_archivo config ms archivo ≡ some (some k)
      → PrimerLibre ms archivo k
      → ver_si_hay_paginas config ms (pos 1) archivo ≡ some true
      → Espacio config ms archivo

-- In every state the server reaches and for every file, either hayEspacioArchivo faults and
-- verSiHayPaginas refuses any page, or hayEspacioArchivo gives the number of the first free frame
-- of the file and verSiHayPaginas permits a page.
pub Alcanzable-Espacio :
    (config : Config) (s : Estado) (archivo : String)
    → Alcanzable config s
    → Espacio config s.marcos archivo
unfolding hay_espacio_archivo ver_si_hay_paginas
Alcanzable-Espacio config s archivo alcanzado =
    elim (buscar_libre-libres s.marcos (suc (cant_marcos config * obtener_cant_archivos config))
      archivo (omega (arith, largo))) [
        | inl (p, q) ↦ lleno p (λ n. rw (cuenta, q) (ground arith))
        | inr (k, p, l, q) ↦ con_lugar k p l (rw cuenta (ground (arith, q)))
      ]
  where
    largo : cant_marcos config * obtener_cant_archivos config ≡ length s.marcos
    largo =
        omega (arith, (Alcanzable-EnOrden config s alcanzado).cantidad, length-map clave s.marcos)

    cuenta :
        contar_libres (cant_marcos config * obtener_cant_archivos config) s.marcos archivo
        ≡ some (libres s.marcos archivo)
    cuenta = contar_libres-libres s.marcos _ archivo largo
