-- ===== src/Memoria/Invariante/Alcance.antt =====
-- Which addresses the writes of memory_memwrite (memoria/src/memory.c) reach: the groups by page, the
-- pieces that are copied, and the calls of escribir_en_pagina.
use native.Mathlib.Nat.{div-add-mod', mod-lt}
use exitos_con_esto.Prelude.{
  ℕ, zero, suc, ◌+◌, ◌*◌, ◌/◌, ◌%◌, ◌≤◌, ◌<◌, ◌≡◌, refl, ◌∙◌, ap, inl, inr, List, [], ◌∷◌, ◌++◌,
  some, arith, ◌==◌, get_elem?, length, length-append, take, drop, bind-inv, u32, Bool-cases, All,
}
use exitos_con_esto.Memoria.Datos.{Carpincho, Config, PaginaAccion}
use exitos_con_esto.Memoria.Metadatos.{Escritura, agrupar, anotar, trozos}
use exitos_con_esto.Memoria.Direcciones.{escribir_posiciones}

-- The offsets of the group begin with `d`; as many bytes from there on lie in the page, and their
-- addresses lie from `lo` to `hi`.
record EnRango (p lo hi : ℕ) (nodo : PaginaAccion) : Type 0 where
  d : ℕ
  ds : List ℕ
  forma : nodo.direcciones ≡ d ∷ ds
  desde : lo ≤ nodo.pagina * p + d
  hasta : nodo.pagina * p + d + suc (length ds) ≤ hi
  cabe : d + suc (length ds) ≤ p

EnRango-suc :
    (p lo hi : ℕ) (nodos : List PaginaAccion)
    → All (EnRango p lo hi) nodos
    → All (EnRango p lo (suc hi)) nodos
EnRango-suc p lo hi [] k = tt
EnRango-suc p lo hi (nodo ∷ nodos) k =
    let r = k.0 in
    (
      record {
        d = r.d;
        ds = r.ds;
        forma = r.forma;
        desde = r.desde;
        hasta = omega (arith, r.hasta);
        cabe = r.cabe;
      },
      EnRango-suc p lo hi nodos k.1,
    )

anotar-EnRango :
    (p lo k : ℕ) (nodos : List PaginaAccion)
    → 0 < p
    → lo ≤ k
    → All (EnRango p lo k) nodos
    → All (EnRango p lo (suc k)) (anotar (k / p) (k % p) nodos)
unfolding anotar
anotar-EnRango p lo k [] z l h =
    let q = div-add-mod' k p in
    let m : k % p < p = mod-lt k z in
    (
      record {
        d = k % p;
        ds = [];
        forma = refl;
        desde = omega (arith, q, l);
        hasta = omega (arith, q);
        cabe = omega (arith, m);
      },
      tt,
    )
anotar-EnRango p lo k (nodo ∷ nodos) z l h = elim (Bool-cases (nodo.pagina == k / p)) [
  | inl s ↦
      let r = h.0 in
      let igual : nodo.pagina ≡ k / p = ground (arith, s) in
      let q : nodo.pagina * p + k % p ≡ k = ap (λ x. x * p + k % p) igual ∙ div-add-mod' k p in
      let m : k % p < p = mod-lt k z in
      let n : length (r.ds ++ k % p ∷ []) ≡ suc (length r.ds) =
        omega (arith, length-append r.ds (k % p ∷ [])) in
      rw s (
        record {
          d = r.d;
          ds = r.ds ++ k % p ∷ [];
          forma = ap (λ ds. ds ++ k % p ∷ []) r.forma;
          desde = r.desde;
          hasta = omega (arith, n, r.hasta);
          cabe = omega (arith, n, q, m, r.hasta);
        },
        EnRango-suc p lo k nodos h.1,
      )
  | inr o ↦ rw o ((EnRango-suc p lo k (nodo ∷ []) (h.0, tt)).0, anotar-EnRango p lo k nodos z l h.1)
]

agrupar-EnRango :
    (n p pos i : ℕ) (nodos : List PaginaAccion)
    → 0 < p
    → pos + i + n ≤ 4294967296
    → All (EnRango p pos (pos + i)) nodos
    → All (EnRango p pos (pos + i + n)) (agrupar p pos i n nodos)
unfolding agrupar
agrupar-EnRango zero p pos i nodos z b h = let q : pos + i + 0 ≡ pos + i = omega arith in rw q h
agrupar-EnRango (suc n) p pos i nodos z b h =
    let u : u32 (pos + i) ≡ pos + i = omega (arith, b) in
    let paso = anotar-EnRango p pos (pos + i) nodos z (omega arith) h in
    let q : suc (pos + i) ≡ pos + suc i = omega arith in
    let r : pos + i + suc n ≡ pos + suc i + n = omega arith in
    rw (u, r) (agrupar-EnRango n p pos (suc i) _ z (omega (arith, b)) (rw q at paso))

-- The bytes are written to addresses from `lo` to `hi`, in one page.
abbrev TrozoEnRango : ℕ → ℕ → ℕ → ℕ × List ℕ × ℕ → Type 0
TrozoEnRango p lo hi (pag, bytes, offset) =
    (lo ≤ pag * p + offset) × (pag * p + offset + length bytes ≤ hi) × (offset + length bytes ≤ p)

length-take_le : (n : ℕ) (xs : List ℕ) → length (take n xs) ≤ n
length-take_le zero xs = omega arith
length-take_le (suc n) [] = omega arith
length-take_le (suc n) (x ∷ xs) = omega (arith, length-take_le n xs)

trozos-EnRango :
    (p lo hi : ℕ) (valor : List ℕ) (anterior : ℕ) (nodos : List PaginaAccion)
    → All (EnRango p lo hi) nodos
    → All (TrozoEnRango p lo hi) (trozos valor anterior nodos)
unfolding trozos
trozos-EnRango p lo hi valor anterior [] h = tt
trozos-EnRango p lo hi valor anterior (nodo ∷ nodos) h =
    let r = h.0 in
    let l = length-take_le (suc (length r.ds)) (drop anterior valor) in
    (
      rw r.forma (r.desde, omega (arith, l, r.hasta), omega (arith, l, r.cabe)),
      trozos-EnRango p lo hi valor (length nodo.direcciones) nodos h.1,
    )

-- A call of escribir_en_pagina on a page of the process, which stays in the page and in the addresses
-- from `pos` to `pos + size`.
pub record Alcance (config : Config) (c : Carpincho) (pos size : ℕ) (e : Escritura) : Type 0 where
  pub numero : ℕ
  pub del_carpincho : get_elem? c.paginas numero ≡ some e.pagina
  pub desde : pos ≤ numero * config.tamanio_pagina + e.offset
  pub hasta : numero * config.tamanio_pagina + e.offset + length e.buffer ≤ pos + size
  pub cabe : e.offset + length e.buffer ≤ config.tamanio_pagina

module _ (config : Config) (c : Carpincho) (pos size : ℕ) where
  escribir_posiciones-Alcance :
      (ts : List (ℕ × List ℕ × ℕ)) (es : List Escritura)
      → All (TrozoEnRango config.tamanio_pagina pos (pos + size)) ts
      → escribir_posiciones c ts ≡ some es
      → All (Alcance config c pos size) es
  unfolding escribir_posiciones
  escribir_posiciones-Alcance [] es h e = let q : es ≡ [] = cc in rw q tt
  escribir_posiciones-Alcance ((pag, bytes, offset) ∷ ts) es h e =
      let (p, f, g) = bind-inv (get_elem? c.paginas pag) _ _ e in
      let (resto, k, q) = bind-inv (escribir_posiciones c ts) _ _ g in
      let q' : es ≡ record { pagina = p; buffer = bytes; offset = offset } ∷ resto = cc in
      rw q' (
        record { numero = pag; del_carpincho = f; desde = h.0.0; hasta = h.0.1; cabe = h.0.2 },
        escribir_posiciones-Alcance ts resto h.1 k,
      )

  -- All writes that the groups of the bytes give.
  pub escrituras-Alcance :
      (valor : List ℕ) (es : List Escritura)
      → 0 < config.tamanio_pagina
      → pos + size ≤ 4294967296
      → escribir_posiciones c (trozos valor 0 (agrupar config.tamanio_pagina pos 0 size []))
        ≡ some es
      → All (Alcance config c pos size) es
  escrituras-Alcance valor es z b e =
      let cero : pos + 0 + size ≡ pos + size = omega arith in
      let grupos = agrupar-EnRango size config.tamanio_pagina pos 0 [] z (omega (arith, b)) tt in
      escribir_posiciones-Alcance _ es
        (trozos-EnRango config.tamanio_pagina pos (pos + size) valor 0 _ (rw cero at grupos)) e
