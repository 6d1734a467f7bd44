-- ===== src/Memoria/Tlb/Pruebas.antt =====
-- A TLB of two full entries, and insertion sort for list_sort: runs of memoria/src/memory.c.
use exitos_con_esto.Prelude.{
  ℕ, suc, ◌≤◌, ◌≡◌, refl, ◌∙◌, ap, inl, inr, Bool, true, false, List, [], ◌∷◌, some, arith,
  if◌then◌else◌, get_elem?, length, pos, All, Bool-cases,
}
use exitos_con_esto.Memoria.Tlb.{
  Ordenar, Tlb, TlbItem, actualizar_tlb, get_next_free_tlb_item, is_marco_in_tlb,
  proxima_pagina_a_sacar_tlb_by_lru,
}
use exitos_con_esto.Memoria.Tlb.Entrar.{Entrada, TlbValida}
use exitos_con_esto.Memoria.Tlb.Reemplazo.{Comparador, Ordena, actualizar_tlb-Entrada, lru-menor}

abbrev pub insertar : (TlbItem → TlbItem → Bool) → TlbItem → List TlbItem → List TlbItem
insertar menor x [] = x ∷ []
insertar menor x (y ∷ ys) = if menor y x then y ∷ insertar menor x ys else x ∷ y ∷ ys

abbrev pub por_insercion : Ordenar
por_insercion menor [] = []
por_insercion menor (x ∷ xs) = insertar menor x (por_insercion menor xs)

length-insertar :
    (menor : TlbItem → TlbItem → Bool) (x : TlbItem) (xs : List TlbItem)
    → length (insertar menor x xs) ≡ suc (length xs)
length-insertar menor x [] = refl
length-insertar menor x (y ∷ ys) = elim (Bool-cases (menor y x)) [
  | inl s ↦ rw s (ap suc (length-insertar menor x ys))
  | inr n ↦ rw n refl
]

length-por_insercion :
    (menor : TlbItem → TlbItem → Bool) (xs : List TlbItem)
    → length (por_insercion menor xs) ≡ length xs
length-por_insercion menor [] = refl
length-por_insercion menor (x ∷ xs) =
    length-insertar menor x (por_insercion menor xs) ∙ ap suc (length-por_insercion menor xs)

sacar :
    (menor : TlbItem → TlbItem → Bool) (x : TlbItem) (xs : List TlbItem) (P : TlbItem → Type 0)
    → All P (insertar menor x xs)
    → P x × All P xs
sacar menor x [] P h = h
sacar menor x (y ∷ ys) P h = elim (Bool-cases (menor y x)) [
  | inl s ↦
      let h' : P y × All P (insertar menor x ys) = rw s at h in
      let r = sacar menor x ys P h'.1 in (r.0, (h'.0, r.1))
  | inr n ↦ rw n at h
]

meter :
    (menor : TlbItem → TlbItem → Bool) (x : TlbItem) (xs : List TlbItem) (P : TlbItem → Type 0)
    → P x
    → All P xs
    → All P (insertar menor x xs)
meter menor x [] P p h = (p, tt)
meter menor x (y ∷ ys) P p h = elim (Bool-cases (menor y x)) [
  | inl s ↦ rw s (h.0, meter menor x ys P p h.1)
  | inr n ↦ rw n (p, (h.0, h.1))
]

mismos_por_insercion :
    (menor : TlbItem → TlbItem → Bool) (xs : List TlbItem) (P : TlbItem → Type 0)
    → All P (por_insercion menor xs)
    → All P xs
mismos_por_insercion menor [] P h = tt
mismos_por_insercion menor (x ∷ xs) P h =
    let r = sacar menor x (por_insercion menor xs) P h in (r.0, mismos_por_insercion menor xs P r.1)

module _ (menor : TlbItem → TlbItem → Bool) (comparador : Comparador menor) where
  abbrev NingunoAntes : TlbItem → List TlbItem → Type 0
  NingunoAntes x = All (λ y. menor y x ≡ false)

  abbrev Cabeza : List TlbItem → Type 0
  Cabeza [] = Unit {0}
  Cabeza (x ∷ xs) = NingunoAntes x (x ∷ xs)

  irreflexivo : (x : TlbItem) → menor x x ≡ false
  irreflexivo x = elim (Bool-cases (menor x x)) [ inl s ↦ comparador.asimetrico x x s | inr n ↦ n ]

  NingunoAntes-trans :
      (x y : TlbItem) (ys : List TlbItem)
      → menor y x ≡ false
      → NingunoAntes y ys
      → NingunoAntes x ys
  NingunoAntes-trans x y [] h n = tt
  NingunoAntes-trans x y (z ∷ ys) h n =
      (comparador.no_menor z y x n.0 h, NingunoAntes-trans x y ys h n.1)

  insertar-Cabeza : (x : TlbItem) (xs : List TlbItem) → Cabeza xs → Cabeza (insertar menor x xs)
  insertar-Cabeza x [] h = (irreflexivo x, tt)
  insertar-Cabeza x (y ∷ ys) h = elim (Bool-cases (menor y x)) [
    | inl s ↦
        rw s (h.0, meter menor x ys (λ z. menor z y ≡ false) (comparador.asimetrico y x s) h.1)
    | inr n ↦ rw n (irreflexivo x, (n, NingunoAntes-trans x y ys n h.1))
  ]

  por_insercion-Cabeza : (xs : List TlbItem) → Cabeza (por_insercion menor xs)
  por_insercion-Cabeza [] = tt
  por_insercion-Cabeza (x ∷ xs) =
      insertar-Cabeza x (por_insercion menor xs) (por_insercion-Cabeza xs)

  primero_Cabeza :
      (xs : List TlbItem) (x : TlbItem) → Cabeza xs → get_elem? xs 0 ≡ some x → NingunoAntes x xs
  primero_Cabeza [] x h e = tt
  primero_Cabeza (y ∷ ys) x h e =
      let q : y ≡ x = cc in
      let r : menor y x ≡ false = rw q (irreflexivo x) in (r, NingunoAntes-trans x y ys r h.1)

pub ordena : Ordena por_insercion
ordena = record {
  largo = length-por_insercion;
  mismos = mismos_por_insercion;
  primero = λ menor xs x c e.
      primero_Cabeza menor c (por_insercion menor xs) x (por_insercion-Cabeza menor c xs) e;
}

abbrev item : ℕ → ℕ → ℕ → TlbItem
item i pid t = record { entrada = i; pid = pid; pagina = 1; marco = pos i; timestamp = t }

abbrev tlb : Tlb
tlb = record { items = item 0 7 5 ∷ item 1 8 3 ∷ []; fifo_pointer = 1; contador = 6 }

valida : TlbValida 2 tlb
valida = record { entradas = refl; puntero = omega arith }

actualizar_tlb-Entrada_example :
    (u : Tlb) × (actualizar_tlb por_insercion true 2 tlb 9 4 (pos 5) ≡ some u)
    × Entrada 2 u 9 4 (pos 5)
unfolding is_marco_in_tlb
actualizar_tlb-Entrada_example =
    actualizar_tlb-Entrada por_insercion ordena 2 true tlb 9 4 (pos 5) valida refl refl

lru-menor_example : All (λ y. 3 ≤ y.timestamp) tlb.items
unfolding get_next_free_tlb_item proxima_pagina_a_sacar_tlb_by_lru
lru-menor_example = lru-menor por_insercion ordena 2 tlb (item 1 8 3) refl refl
