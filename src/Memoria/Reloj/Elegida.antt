-- ===== src/Memoria/Reloj/Elegida.antt =====
-- What the four rounds of get_proxima_a_swampear_by_m_clock (memoria/src/memory.c) look for, said
-- without rounds.
use exitos_con_esto.Prelude.{
  ℕ, zero, suc, ◌≡◌, refl, sym, ◌∙◌, ap, fun_ext, inl, inr, Bool, true, false, not, ◌&&◌, ◌||◌,
  ◌==◌, List, [], ◌∷◌, Option, none, some, arith, ltb, if◌then◌else◌, Bool-cases, Option-cases,
  length,
}
use exitos_con_esto.Memoria.Datos.{Pagina}
use exitos_con_esto.Memoria.Reloj.{buscada, igual_bit, recorrer, siguiente, sin_bit_de_uso, vueltas}

-- The first page from the pointer on that passes a test.
abbrev pub primera : (Pagina → Bool) → ℕ → List Pagina → Option ℕ
primera q ptr [] = none
primera q (suc ptr) (p ∷ ps) = siguiente (primera q ptr ps)
primera q zero (p ∷ ps) = if q p then some 0 else siguiente (primera q zero ps)

abbrev pub o_si_no : Option ℕ → Option ℕ → Option ℕ
o_si_no (some j) r = some j
o_si_no none r = r

abbrev pub modificada : Pagina → Bool
modificada p = p.bit_de_modificacion

-- From the pointer on: an unused and unmodified page, else an unused one, else an unmodified one,
-- else the page at the pointer.
abbrev pub elegida : ℕ → List Pagina → Option ℕ
elegida ptr ps = o_si_no (primera (λ p. not p.bit_de_uso && not p.bit_de_modificacion) ptr ps) (
    o_si_no (primera (λ p. not p.bit_de_uso) ptr ps) (
      o_si_no (primera (λ p. not p.bit_de_modificacion) ptr ps)
        (if ltb ptr (length ps) then some ptr else none)))

recorrer-primera :
    (limpia edit : Bool) (ptr : ℕ) (ps : List Pagina)
    → (recorrer limpia edit ptr ps).1 ≡ primera (buscada edit) ptr ps
unfolding recorrer
recorrer-primera limpia edit zero [] = refl
recorrer-primera limpia edit (suc ptr) [] = refl
recorrer-primera limpia edit (suc ptr) (p ∷ ps) = ap siguiente (recorrer-primera limpia edit ptr ps)
recorrer-primera limpia edit zero (p ∷ ps) = elim (Bool-cases (buscada edit p)) [
  | inl e ↦ rw e refl
  | inr e ↦ rw e (ap siguiente (recorrer-primera limpia edit zero ps))
]

siguiente-none : (o : Option ℕ) → siguiente o ≡ none → o ≡ none
siguiente-none none e = refl
siguiente-none (some j) e = cc

recorrer_sin_limpiar :
    (edit : Bool) (ptr : ℕ) (ps : List Pagina) → (recorrer false edit ptr ps).0 ≡ ps
unfolding recorrer
recorrer_sin_limpiar edit zero [] = refl
recorrer_sin_limpiar edit (suc ptr) [] = refl
recorrer_sin_limpiar edit (suc ptr) (p ∷ ps) = ap (◌∷◌ p) (recorrer_sin_limpiar edit ptr ps)
recorrer_sin_limpiar edit zero (p ∷ ps) = elim (Bool-cases (buscada edit p)) [
  | inl e ↦ rw e refl
  | inr e ↦ rw e (ap (◌∷◌ p) (recorrer_sin_limpiar edit zero ps))
]

-- The pages without their use bits, from the pointer on.
limpias : ℕ → List Pagina → List Pagina
limpias ptr [] = []
limpias (suc ptr) (p ∷ ps) = p ∷ limpias ptr ps
limpias zero (p ∷ ps) = sin_bit_de_uso p ∷ limpias zero ps

recorrer-limpias :
    (edit : Bool) (ptr : ℕ) (ps : List Pagina)
    → primera (buscada edit) ptr ps ≡ none
    → (recorrer true edit ptr ps).0 ≡ limpias ptr ps
unfolding recorrer limpias
recorrer-limpias edit zero [] n = refl
recorrer-limpias edit (suc ptr) [] n = refl
recorrer-limpias edit (suc ptr) (p ∷ ps) n =
    ap (◌∷◌ p) (recorrer-limpias edit ptr ps (siguiente-none _ n))
recorrer-limpias edit zero (p ∷ ps) n = elim (Bool-cases (buscada edit p)) [
  | inl e ↦ let n' = rw e at n in cc
  | inr e ↦
      rw e
        (ap (◌∷◌ (sin_bit_de_uso p)) (recorrer-limpias edit zero ps (siguiente-none _ (rw e at n))))
]

primera-limpias :
    (edit : Bool) (ptr : ℕ) (ps : List Pagina)
    → primera (buscada edit) ptr (limpias ptr ps)
      ≡ primera (λ p. igual_bit p.bit_de_modificacion edit) ptr ps
unfolding limpias
primera-limpias edit zero [] = refl
primera-limpias edit (suc ptr) [] = refl
primera-limpias edit (suc ptr) (p ∷ ps) = ap siguiente (primera-limpias edit ptr ps)
primera-limpias edit zero (p ∷ ps) = rw (primera-limpias edit zero ps) refl

-- After a search that found nothing, tests that agree on what it refused find the same.
primera-igual :
    (q r s : Pagina → Bool)
    → ((p : Pagina) → q p ≡ false → r p ≡ s p)
    → (ptr : ℕ) (ps : List Pagina) → primera q ptr ps ≡ none
    → primera r ptr ps ≡ primera s ptr ps
primera-igual q r s h zero [] n = refl
primera-igual q r s h (suc ptr) [] n = refl
primera-igual q r s h (suc ptr) (p ∷ ps) n =
    ap siguiente (primera-igual q r s h ptr ps (siguiente-none _ n))
primera-igual q r s h zero (p ∷ ps) n = elim (Bool-cases (q p)) [
  | inl e ↦ let n' = rw e at n in cc
  | inr e ↦
      let n' = siguiente-none _ (rw e at n) in rw (h p e, primera-igual q r s h zero ps n') refl
]

primera_cualquiera :
    (ptr : ℕ) (ps : List Pagina)
    → primera (λ p. true) ptr ps ≡ (if ltb ptr (length ps) then some ptr else none)
primera_cualquiera zero [] = refl
primera_cualquiera (suc ptr) [] = ground arith
primera_cualquiera zero (p ∷ ps) = ground arith
primera_cualquiera (suc ptr) (p ∷ ps) = rw (primera_cualquiera ptr ps) (ground arith)

vueltas-some :
    (ptr i : ℕ) (edit : Bool) (n j : ℕ) (ps : List Pagina)
    → primera (buscada edit) ptr ps ≡ some j
    → (vueltas ptr i edit (suc n) ps).1 ≡ some j
unfolding vueltas
vueltas-some ptr i edit n j ps e =
    let e' = recorrer-primera (i == 1) edit ptr ps ∙ e in rw (e', vueltas) refl

vueltas-none :
    (ptr i : ℕ) (edit : Bool) (n : ℕ) (ps : List Pagina)
    → primera (buscada edit) ptr ps ≡ none
    → vueltas ptr i edit (suc n) ps
      ≡ vueltas ptr (suc i) (i == 0 || i == 2) n (recorrer (i == 1) edit ptr ps).0
unfolding vueltas
vueltas-none ptr i edit n ps e =
    let e' = recorrer-primera (i == 1) edit ptr ps ∙ e in rw (e', vueltas) refl

igual_bit-false : (b : Bool) → igual_bit b false ≡ not b
igual_bit-false true = refl
igual_bit-false false = refl

igual_bit-true : (b : Bool) → igual_bit b true ≡ b
igual_bit-true true = refl
igual_bit-true false = refl

primera_mismo_test :
    (q r : Pagina → Bool)
    → ((p : Pagina) → q p ≡ r p)
    → (ptr : ℕ) (ps : List Pagina) → primera q ptr ps ≡ primera r ptr ps
primera_mismo_test q r h ptr ps = ap (λ t. primera t ptr ps) (fun_ext h)

ultima_vuelta :
    (ptr i : ℕ) (edit : Bool) (ps : List Pagina)
    → (vueltas ptr i edit 1 ps).1 ≡ primera (buscada edit) ptr ps
unfolding vueltas
ultima_vuelta ptr i edit ps = elim (Option-cases (primera (buscada edit) ptr ps)) [
  | inl e ↦ rw e (rw (vueltas-none ptr i edit 0 ps e) refl)
  | inr (j, e) ↦ vueltas-some ptr i edit 0 j ps e ∙ sym e
]

-- The round 3, over the pages without their use bits.
vuelta_tres :
    (ptr : ℕ) (ps : List Pagina)
    → primera (λ p. not p.bit_de_modificacion) ptr ps ≡ none
    → (vueltas ptr 3 true 1 (limpias ptr ps)).1 ≡ (if ltb ptr (length ps) then some ptr else none)
vuelta_tres ptr ps e =
    ultima_vuelta ptr 3 true (limpias ptr ps)
    ∙ primera-limpias true ptr ps
    ∙ primera_mismo_test (λ p. igual_bit p.bit_de_modificacion true) modificada
        (λ p. igual_bit-true p.bit_de_modificacion) ptr ps
    ∙ primera-igual (λ p. not p.bit_de_modificacion) modificada (λ p. true) (λ p h. ground arith)
        ptr ps e
    ∙ primera_cualquiera ptr ps

-- The rounds 2 and 3.
vueltas_finales :
    (ptr : ℕ) (ps : List Pagina)
    → (vueltas ptr 2 false 2 (limpias ptr ps)).1
      ≡ o_si_no
          (primera (λ p. not p.bit_de_modificacion) ptr ps)
          (if ltb ptr (length ps) then some ptr else none)
vueltas_finales ptr ps =
    let busca : primera (buscada false) ptr (limpias ptr ps)
        ≡ primera (λ p. not p.bit_de_modificacion) ptr ps =
      primera-limpias false ptr ps
      ∙ primera_mismo_test (λ p. igual_bit p.bit_de_modificacion false)
          (λ p. not p.bit_de_modificacion) (λ p. igual_bit-false p.bit_de_modificacion) ptr ps in
    elim (Option-cases (primera (λ p. not p.bit_de_modificacion) ptr ps)) [
      | inr (j, e) ↦ rw e (vueltas-some ptr 2 false 1 j (limpias ptr ps) (busca ∙ e))
      | inl e ↦ rw e (
          ap (λ r. r.1) (vueltas-none ptr 2 false 1 (limpias ptr ps) (busca ∙ e))
          ∙ rw (recorrer_sin_limpiar false ptr (limpias ptr ps)) (vuelta_tres ptr ps e))
    ]

buscada-false : (p : Pagina) → buscada false p ≡ (not p.bit_de_uso && not p.bit_de_modificacion)
buscada-false p = ap (λ b. not p.bit_de_uso && b) (igual_bit-false p.bit_de_modificacion)

buscada-true : (p : Pagina) → buscada false p ≡ false → buscada true p ≡ not p.bit_de_uso
buscada-true p h = ground arith

-- The four rounds of M-CLOCK stop at the first page, from the pointer on, that is neither used nor
-- modified; if there is none, at the first that is not used; else at the first that is not
-- modified; else at the pointer, if it is among the pages.
pub vueltas-elegida : (ptr : ℕ) (ps : List Pagina) → (vueltas ptr 0 false 4 ps).1 ≡ elegida ptr ps
vueltas-elegida ptr ps =
    let busca =
      primera_mismo_test (buscada false) (λ p. not p.bit_de_uso && not p.bit_de_modificacion)
        buscada-false ptr ps in
    elim (Option-cases (primera (buscada false) ptr ps)) [
      | inr (j, e) ↦ rw (sym busca ∙ e) (vueltas-some ptr 0 false 3 j ps e)
      | inl e ↦
          let busca' =
            primera-igual (buscada false) (buscada true) (λ p. not p.bit_de_uso) buscada-true ptr ps
              e in
          rw (sym busca ∙ e, vueltas-none ptr 0 false 3 ps e, recorrer_sin_limpiar false ptr ps)
            (elim (Option-cases (primera (buscada true) ptr ps)) [
              | inr (j, d) ↦ rw (sym busca' ∙ d) (vueltas-some ptr 1 true 2 j ps d)
              | inl d ↦
                  rw
                    (sym busca' ∙ d, vueltas-none ptr 1 true 2 ps d, recorrer-limpias true ptr ps d)
                    (vueltas_finales ptr ps)
            ])
    ]
