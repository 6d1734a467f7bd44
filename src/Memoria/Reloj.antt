-- ===== src/Memoria/Reloj.antt =====
-- get_proxima_a_swampear_by_m_clock of memoria/src/memory.c: the scan of the pages, which are sorted
-- by their frames, from the pointer on. `none` is a function that ends without a value.
pub mod Elegida
pub mod Encuentra
mod Pruebas
use exitos_con_esto.Prelude.{
  ℕ, zero, suc, ◌+◌, Bool, true, false, not, ◌&&◌, ◌||◌, List, [], ◌∷◌, Option, none, some, leb,
  ◌==◌, if◌then◌else◌, ◌>>=◌, ltb_ℤ, get_elem?, length,
}
use exitos_con_esto.Memoria.Datos.{Pagina}

-- list_sort of the library, with the comparison that it calls.
abbrev pub OrdenarPaginas : Type 0
OrdenarPaginas = (Pagina → Pagina → Bool) → List Pagina → List Pagina

abbrev pub menor_marco : Pagina → Pagina → Bool
menor_marco a b = ltb_ℤ a.marco b.marco

abbrev pub igual_bit : Bool → Bool → Bool
igual_bit a b = if a then b else not b

-- The test of a page: use_bit_searched is 0 throughout.
abbrev pub buscada : Bool → Pagina → Bool
buscada edit_bit_searched p = not p.bit_de_uso && igual_bit p.bit_de_modificacion edit_bit_searched

abbrev pub sin_bit_de_uso : Pagina → Pagina
sin_bit_de_uso p = record p { bit_de_uso = false }

abbrev pub siguiente : Option ℕ → Option ℕ
siguiente o = o >>= λ j. some (suc j)

abbrev pub delante : Pagina → List Pagina × Option ℕ → List Pagina × Option ℕ
delante p r = (p ∷ r.0, siguiente r.1)

-- The inner loop, from the pointer on: the pages as it leaves them, and where it stopped. The round
-- 1 takes the use bit from each page that it passes.
unfoldable pub recorrer : Bool → Bool → ℕ → List Pagina → List Pagina × Option ℕ
recorrer limpia edit ptr [] = ([], none)
recorrer limpia edit (suc ptr) (p ∷ ps) = delante p (recorrer limpia edit ptr ps)
recorrer limpia edit zero (p ∷ ps) =
    let resto = recorrer limpia edit zero ps in
    if buscada edit p
    then (p ∷ ps, some 0)
    else delante (if limpia then sin_bit_de_uso p else p) resto

-- The outer loop: `n` rounds are left, and `i` is the round.
unfoldable pub vueltas : ℕ → ℕ → Bool → ℕ → List Pagina → List Pagina × Option ℕ
unfolding recorrer
vueltas ptr i edit zero ps = (ps, none)
vueltas ptr i edit (suc n) ps =
    let r = recorrer (i == 1) edit ptr ps in
    elim (r.1) [ some j ↦ (r.0, some j) | none ↦ vueltas ptr (suc i) (i == 0 || i == 2) n r.0 ]

-- The pages as the search leaves them, the page, and the new pointer.
unfoldable pub m_clock : ℕ → List Pagina → Option (List Pagina × Pagina × ℕ)
unfolding vueltas
m_clock ptr ps =
    let r = vueltas ptr 0 false 4 ps in
    do j ← r.1; p ← get_elem? r.0 j; some (r.0, p, if leb (length ps) (j + 1) then 0 else j + 1)
