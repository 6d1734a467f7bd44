-- ===== src/Memoria/Cuentas.antt =====
-- How many elements of a list pass a test, and what a result promises if there is one: lemmas for the
-- frames and the TLB of memoria/src/memory.c.
use mathlib.Core.Path.{subst}
use exitos_con_esto.Prelude.{
  ℕ, zero, suc, ◌+◌, ◌≤◌, ◌≡◌, refl, ap, inl, inr, Bool, true, false, List, [], ◌∷◌, Option, none,
  some, arith, if◌then◌else◌, ◌>>=◌, Bool-cases, get_elem?, set,
}

-- What holds of the value, if there is one.
abbrev pub Cumple {ℓ κ} : {A : Type ℓ} → (A → Type κ) → Option A → Type κ
Cumple P none = Unit
Cumple P (some a) = P a

pub Cumple-bind {ℓ κ μ ν} :
    {A : Type ℓ} {B : Type κ} (Q : A → Type μ) (P : B → Type ν) (o : Option A) (f : A → Option B)
    → Cumple Q o
    → ((a : A) → Q a → Cumple P (f a))
    → Cumple P (o >>= f)
Cumple-bind Q P none f q h = tt
Cumple-bind Q P (some a) f q h = h a q

-- The same, with the equation at hand.
pub Cumple-bind_eq {ℓ κ ν} :
    {A : Type ℓ} {B : Type κ} (P : B → Type ν) (o : Option A) (f : A → Option B)
    → ((a : A) → o ≡ some a → Cumple P (f a))
    → Cumple P (o >>= f)
Cumple-bind_eq P none f h = tt
Cumple-bind_eq P (some a) f h = h a refl

pub Cumple-if {ℓ ν} :
    {A : Type ℓ} (P : A → Type ν) (b : Bool) (x y : Option A)
    → (b ≡ true → Cumple P x)
    → (b ≡ false → Cumple P y)
    → Cumple P (if b then x else y)
Cumple-if P true x y h k = h refl
Cumple-if P false x y h k = k refl

pub Cumple-mono {ℓ μ ν} :
    {A : Type ℓ} (Q : A → Type μ) (P : A → Type ν) (o : Option A)
    → Cumple Q o
    → ((a : A) → Q a → P a)
    → Cumple P o
Cumple-mono Q P none q h = tt
Cumple-mono Q P (some a) q h = h a q

pub Cumple-eq {ℓ ν} :
    {A : Type ℓ} (P : A → Type ν) (o : Option A) (a : A) → Cumple P o → o ≡ some a → P a
Cumple-eq P none a c e = cc
Cumple-eq P (some b) a c e = subst (Cumple P) e c

pub Cumple-× {ℓ μ ν} :
    {A : Type ℓ} (P : A → Type μ) (Q : A → Type ν) (o : Option A)
    → Cumple P o
    → Cumple Q o
    → Cumple (λ a. P a × Q a) o
Cumple-× P Q none p q = tt
Cumple-× P Q (some a) p q = (p, q)

-- There is a value, and this holds of it.
abbrev pub Devuelve {ℓ κ} : {A : Type ℓ} → (A → Type κ) → Option A → Type (ℓ ⊔ κ)
Devuelve {A} P o = (a : A) × (o ≡ some a) × P a

pub Devuelve-bind {ℓ κ μ ν} :
    {A : Type ℓ} {B : Type κ} (Q : A → Type μ) (P : B → Type ν) (o : Option A) (f : A → Option B)
    → Devuelve Q o
    → ((a : A) → Q a → Devuelve P (f a))
    → Devuelve P (o >>= f)
Devuelve-bind Q P none f (a, e, q) h = cc
Devuelve-bind Q P (some b) f (a, e, q) h = let p : a ≡ b = cc in h b (subst Q p q)

pub Devuelve-if {ℓ ν} :
    {A : Type ℓ} (P : A → Type ν) (b : Bool) (x y : Option A)
    → (b ≡ true → Devuelve P x)
    → (b ≡ false → Devuelve P y)
    → Devuelve P (if b then x else y)
Devuelve-if P true x y h k = h refl
Devuelve-if P false x y h k = k refl

abbrev pub uno : Bool → ℕ
uno b = if b then 1 else 0

module _ {ℓ} {A : Type ℓ} where
  abbrev pub cuenta : (A → Bool) → List A → ℕ
  cuenta q [] = 0
  cuenta q (x ∷ xs) = uno (q x) + cuenta q xs

  pub cuenta-set :
      (q : A → Bool) (xs : List A) (k : ℕ) (x y : A)
      → get_elem? xs k ≡ some x
      → cuenta q (set xs k y) + uno (q x) ≡ cuenta q xs + uno (q y)
  cuenta-set q [] k x y e = cc
  cuenta-set q (z ∷ xs) zero x y e = let p : z ≡ x = cc in rw p (omega arith)
  cuenta-set q (z ∷ xs) (suc k) x y e = omega (arith, cuenta-set q xs k x y e)

  -- Tests that agree wherever a third one, which nothing passes, fails.
  pub cuenta-igual :
      (q r t : A → Bool) (xs : List A)
      → ((x : A) → t x ≡ false → q x ≡ r x)
      → cuenta t xs ≡ 0
      → cuenta q xs ≡ cuenta r xs
  cuenta-igual q r t [] h c = refl
  cuenta-igual q r t (x ∷ xs) h c = elim (Bool-cases (t x)) [
    | inl e ↦ let c' = rw e at c in absurd (omega (arith, c'))
    | inr e ↦
        let c' = rw e at c in
        rw (h x e) (ap (λ n. uno (r x) + n) (cuenta-igual q r t xs h (omega (arith, c'))))
  ]

  pub get_elem?-cuenta :
      (q : A → Bool) (xs : List A) (k : ℕ) (x : A)
      → get_elem? xs k ≡ some x
      → q x ≡ true
      → 1 ≤ cuenta q xs
  get_elem?-cuenta q [] k x e h = cc
  get_elem?-cuenta q (z ∷ xs) zero x e h = let p : z ≡ x = cc in rw (p, h) (omega arith)
  get_elem?-cuenta q (z ∷ xs) (suc k) x e h = omega (arith, get_elem?-cuenta q xs k x e h)
