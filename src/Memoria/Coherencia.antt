-- ===== src/Memoria/Coherencia.antt =====
-- The frames and the TLB of memoria/src/memory.c agree: what the TLB says of a frame is true.
pub mod Numeros
pub mod Entradas
pub mod Cargar
pub mod Ceder
pub mod Obtener
pub mod Operaciones
pub mod Accesos
pub mod Crear
pub mod Alcanzable
pub mod Vuelve
pub mod EnTlb
pub mod Anotar
pub mod Punteros
pub mod Lista
pub mod Releer
pub mod Forma
pub mod Conserva
use exitos_con_esto.Prelude.{
  ℕ, zero, suc, ◌≤◌, ◌≡◌, Bool, true, false, not, ◌||◌, ◌==◌, List, [], ◌∷◌, none, some, ℤ, pos,
  negsuc, eq_ℤ, get_elem?,
}
use exitos_con_esto.Memoria.Tlb.{TlbItem}
use exitos_con_esto.Memoria.Marcos.{Marco, es_de}
use exitos_con_esto.Memoria.Cuentas.{cuenta}

-- The frames are numbered in order, and a free one holds no page.
abbrev pub MarcosBien : ℕ → List Marco → Type 0
MarcosBien k [] = Unit {0}
MarcosBien k (m ∷ ms) = (m.marco ≡ k) × (m.is_free ≡ true → m.pagina ≡ 0) × MarcosBien (suc k) ms

abbrev pub en_marco : ℤ → TlbItem → Bool
en_marco marco x = eq_ℤ x.marco marco

abbrev pub miente_en : List Marco → ℤ → ℕ → ℕ → Bool
miente_en ms (negsuc n) pid pagina = not (pagina == 0)
miente_en ms (pos i) pid pagina = elim (get_elem? ms i) [
  | none ↦ true
  | some m ↦ m.is_free || not (es_de pid pagina m)
]

-- An entry that names a frame which does not hold its page, or that has a page and no frame.
abbrev pub miente : List Marco → TlbItem → Bool
miente ms x = miente_en ms x.marco x.pid x.pagina

-- The frame k holds the page.
abbrev pub Tiene : List Marco → ℕ → ℕ → ℕ → Type 0
Tiene ms k pid pagina =
    (m : Marco) × (get_elem? ms k ≡ some m) × (m.is_free ≡ false) × (es_de pid pagina m ≡ true)

abbrev pub Ubicada : List Marco → ℤ → ℕ → ℕ → Type 0
Ubicada ms (pos k) pid pagina = Tiene ms k pid pagina
Ubicada ms (negsuc zero) pid pagina = Unit {0}
Ubicada ms (negsuc (suc n)) pid pagina = ⊥

-- No entry lies, and no frame stands twice in the TLB.
pub record Coherente (ms : List Marco) (items : List TlbItem) : Type 0 where
  pub bien : MarcosBien 0 ms
  pub veraz : cuenta (miente ms) items ≡ 0
  pub unicos : (i : ℕ) → cuenta (en_marco (pos i)) items ≤ 1
