-- ===== src/Memoria/Coherencia/Numeros.antt =====
-- A frame of memoria/src/memory.c is found by its number where it is found by its index.
use mathlib.Core.Path.{subst}
use exitos_con_esto.Prelude.{
  ℕ, zero, suc, ◌+◌, ◌≡◌, refl, ap, inl, inr, ◌∙◌, true, false, List, [], ◌∷◌, some, arith, ◌==◌,
  Bool-cases, pos, get_elem?, set,
}
use exitos_con_esto.Memoria.Marcos.{
  Marco, es_de, get_marco_by_marco_number, guardar_marco, obtener_marco_de_cache,
  pagina_is_in_cache,
}
use exitos_con_esto.Memoria.Coherencia.{MarcosBien}

pub MarcosBien-get_elem? :
    (k : ℕ) (ms : List Marco) (i : ℕ) (m : Marco)
    → MarcosBien k ms
    → get_elem? ms i ≡ some m
    → (m.marco ≡ k + i) × (m.is_free ≡ true → m.pagina ≡ 0)
MarcosBien-get_elem? k [] i m b e = cc
MarcosBien-get_elem? k (x ∷ ms) zero m b e =
    let p : x ≡ m = cc in
    subst (λ (y : Marco). (y.marco ≡ k + 0) × (y.is_free ≡ true → y.pagina ≡ 0)) p
      (omega (arith, b.0), b.1)
MarcosBien-get_elem? k (x ∷ ms) (suc i) m b e =
    let r = MarcosBien-get_elem? (suc k) ms i m b.2 e in (omega (arith, r.0), r.1)

pub MarcosBien-set :
    (k : ℕ) (ms : List Marco) (i : ℕ) (m : Marco)
    → MarcosBien k ms
    → m.marco ≡ k + i
    → (m.is_free ≡ true → m.pagina ≡ 0)
    → MarcosBien k (set ms i m)
MarcosBien-set k [] i m b e f = tt
MarcosBien-set k (x ∷ ms) zero m b e f = (omega (arith, e), f, b.2)
MarcosBien-set k (x ∷ ms) (suc i) m b e f =
    (b.0, b.1, MarcosBien-set (suc k) ms i m b.2 (omega (arith, e)) f)

pub get_marco_by_marco_number-get_elem? :
    (k : ℕ) (ms : List Marco) (i : ℕ)
    → MarcosBien k ms
    → get_marco_by_marco_number ms (pos (k + i)) ≡ get_elem? ms i
unfolding get_marco_by_marco_number
get_marco_by_marco_number-get_elem? k [] i b = refl
get_marco_by_marco_number-get_elem? k (x ∷ ms) zero b =
    let q : (x.marco == k + 0) ≡ true = ground (arith, b.0) in rw q refl
get_marco_by_marco_number-get_elem? k (x ∷ ms) (suc i) b =
    let q : (x.marco == k + suc i) ≡ false = ground (arith, b.0) in
    let r : k + suc i ≡ suc k + i = omega arith in
    rw q (
      ap (λ n. get_marco_by_marco_number ms (pos n)) r
      ∙ get_marco_by_marco_number-get_elem? (suc k) ms i b.2)

pub por_numero :
    (ms : List Marco) (i : ℕ)
    → MarcosBien 0 ms
    → get_marco_by_marco_number ms (pos i) ≡ get_elem? ms i
por_numero ms i b =
    let r : i ≡ 0 + i = omega arith in
    ap (λ n. get_marco_by_marco_number ms (pos n)) r ∙ get_marco_by_marco_number-get_elem? 0 ms i b

pub guardar_marco-set :
    (k : ℕ) (ms : List Marco) (i : ℕ) (m : Marco)
    → MarcosBien k ms
    → m.marco ≡ k + i
    → guardar_marco m ms ≡ set ms i m
unfolding guardar_marco
guardar_marco-set k [] i m b e = refl
guardar_marco-set k (x ∷ ms) zero m b e =
    let q : (x.marco == m.marco) ≡ true = ground (arith, b.0, e) in rw q refl
guardar_marco-set k (x ∷ ms) (suc i) m b e =
    let q : (x.marco == m.marco) ≡ false = ground (arith, b.0, e) in
    rw q (ap (◌∷◌ x) (guardar_marco-set (suc k) ms i m b.2 (omega (arith, e))))

-- A page that is in memory has a frame, which obtener_marco_de_cache gives.
pub obtener_marco_de_cache-get_elem? :
    (k : ℕ) (ms : List Marco) (pid pagina : ℕ)
    → MarcosBien k ms
    → pagina_is_in_cache ms pid pagina ≡ true
    → (i : ℕ) × (m : Marco) × (obtener_marco_de_cache ms pid pagina ≡ pos (k + i))
      × (get_elem? ms i ≡ some m)
      × (es_de pid pagina m ≡ true)
unfolding obtener_marco_de_cache pagina_is_in_cache
obtener_marco_de_cache-get_elem? k [] pid pagina b h = cc
obtener_marco_de_cache-get_elem? k (x ∷ ms) pid pagina b h =
    elim (Bool-cases (es_de pid pagina x)) [
      | inl e ↦ (0, x, rw (e, obtener_marco_de_cache) (ap pos (omega (arith, b.0))), refl, e)
      | inr e ↦
          let (i, m, o, g, d) =
            obtener_marco_de_cache-get_elem? (suc k) ms pid pagina b.2 (rw e at h) in
          (suc i, m, rw (e, obtener_marco_de_cache) (o ∙ ap pos (omega arith)), g, d)
    ]
