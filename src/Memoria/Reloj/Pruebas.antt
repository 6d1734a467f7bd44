-- ===== src/Memoria/Reloj/Pruebas.antt =====
-- The clock of memoria/src/memory.c over three pages.
use exitos_con_esto.Prelude.{ℕ, ◌≡◌, refl, Bool, true, false, List, [], ◌∷◌, some, pos}
use exitos_con_esto.Memoria.Datos.{Pagina}
use exitos_con_esto.Memoria.Reloj.{m_clock, vueltas}
use exitos_con_esto.Memoria.Reloj.Elegida.{elegida, vueltas-elegida}
use exitos_con_esto.Memoria.Reloj.Encuentra.{Busqueda, m_clock-Busqueda}

abbrev con_bits : ℕ → Bool → Bool → Pagina
con_bits n uso modificada = record {
  marco = pos n;
  carpincho_pid = 7;
  pagina = n;
  bit_presencia = true;
  bit_de_uso = uso;
  bit_de_modificacion = modificada;
  carp_num = 1;
  timestamp = 0;
}

abbrev tres : List Pagina
tres = con_bits 0 false false ∷ con_bits 1 true true ∷ con_bits 2 true false ∷ []

-- The page before the pointer is not looked at.
elige : elegida 1 tres ≡ some 2
elige = refl

vueltas-elegida_example : (vueltas 1 0 false 4 tres).1 ≡ elegida 1 tres
vueltas-elegida_example = vueltas-elegida 1 tres

m_clock-Busqueda_example : Busqueda 1 tres (m_clock 1 tres)
m_clock-Busqueda_example = m_clock-Busqueda 1 tres
