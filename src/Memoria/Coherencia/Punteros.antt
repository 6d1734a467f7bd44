-- ===== src/Memoria/Coherencia/Punteros.antt =====
-- Writes through pointers to processes and pages of memoria/src/memory.c, and what is found after
-- them.
use mathlib.Core.Path.{subst}
use exitos_con_esto.Prelude.{
  ℕ, ◌≡◌, refl, ap, inl, inr, true, false, ◌&&◌, List, [], ◌∷◌, some, arith, ◌==◌, ==→eq,
  Bool-cases,
}
use exitos_con_esto.Memoria.Datos.{Carpincho, Pagina}
use exitos_con_esto.Memoria.Metadatos.{get_page}
use exitos_con_esto.Memoria.Carpinchos.{buscar, reemplazar}
use exitos_con_esto.Memoria.Marcos.{asentar_en_lista, asentar_pagina}

pub buscar-pid :
    (cs : List Carpincho) (pid : ℕ) (c : Carpincho) → buscar cs pid ≡ some c → c.pid ≡ pid
unfolding buscar
buscar-pid [] pid c e = cc
buscar-pid (d ∷ cs) pid c e = elim (Bool-cases (d.pid == pid)) [
  | inl h ↦
      let e' = rw h at e in
      let q : d ≡ c = cc in subst (λ (x : Carpincho). x.pid ≡ pid) q (==→eq _ _ h)
  | inr h ↦ buscar-pid cs pid c (rw h at e)
]

pub buscar-reemplazar :
    (cs : List Carpincho) (pid : ℕ) (c c' : Carpincho)
    → buscar cs pid ≡ some c
    → c'.pid ≡ pid
    → buscar (reemplazar cs c') pid ≡ some c'
unfolding buscar reemplazar
buscar-reemplazar [] pid c c' e p = cc
buscar-reemplazar (d ∷ cs) pid c c' e p = elim (Bool-cases (d.pid == pid)) [
  | inl h ↦
      let k : (d.pid == c'.pid) ≡ true = ground (arith, h, p) in
      let l : (c'.pid == pid) ≡ true = ground (arith, p) in rw k (rw l refl)
  | inr h ↦
      let k : (d.pid == c'.pid) ≡ false = ground (arith, h, p) in
      rw k (rw h (buscar-reemplazar cs pid c c' (rw h at e) p))
]

pub buscar-asentar_pagina :
    (cs : List Carpincho) (pid : ℕ) (c : Carpincho) (q : Pagina)
    → buscar cs pid ≡ some c
    → q.carpincho_pid ≡ pid
    → buscar (asentar_pagina q cs) pid ≡ some (record c { paginas = asentar_en_lista q c.paginas })
unfolding buscar asentar_pagina
buscar-asentar_pagina [] pid c q e p = cc
buscar-asentar_pagina (d ∷ cs) pid c q e p = elim (Bool-cases (d.pid == pid)) [
  | inl h ↦
      let k : (d.pid == q.carpincho_pid) ≡ true = ground (arith, h, p) in
      let e' = rw h at e in
      let s : d ≡ c = cc in
      rw k (
        rw h (ap (λ (x : Carpincho). some (record x { paginas = asentar_en_lista q x.paginas })) s))
  | inr h ↦
      let k : (d.pid == q.carpincho_pid) ≡ false = ground (arith, h, p) in
      rw k (rw h (buscar-asentar_pagina cs pid c q (rw h at e) p))
]

-- The page is the one of that pid and number.
abbrev pub Clave : ℕ → ℕ → Pagina → Type 0
Clave pid pagina p = (p.carpincho_pid ≡ pid) × (p.pagina ≡ pagina)

pub get_page-Clave :
    (ps : List Pagina) (pid pagina : ℕ) (p : Pagina)
    → get_page ps pid pagina ≡ some p
    → Clave pid pagina p
unfolding get_page
get_page-Clave [] pid pagina p e = cc
get_page-Clave (x ∷ ps) pid pagina p e =
    elim (Bool-cases (x.carpincho_pid == pid && x.pagina == pagina)) [
      | inl h ↦
          let e' = rw h at e in
          let q : x ≡ p = cc in subst (Clave pid pagina) q (ground (arith, h), ground (arith, h))
      | inr h ↦ get_page-Clave ps pid pagina p (rw h at e)
    ]

pub get_page-asentar_en_lista :
    (ps : List Pagina) (pid pagina : ℕ) (p q : Pagina)
    → get_page ps pid pagina ≡ some p
    → Clave pid pagina q
    → get_page (asentar_en_lista q ps) pid pagina ≡ some q
unfolding get_page asentar_en_lista
get_page-asentar_en_lista [] pid pagina p q e k = cc
get_page-asentar_en_lista (x ∷ ps) pid pagina p q e k =
    elim (Bool-cases (x.carpincho_pid == pid && x.pagina == pagina)) [
      | inl h ↦
          let a : (x.carpincho_pid == q.carpincho_pid && x.pagina == q.pagina) ≡ true =
            ground (arith, h, k) in
          let b : (q.carpincho_pid == pid && q.pagina == pagina) ≡ true = ground (arith, k) in
          rw a (rw b refl)
      | inr h ↦
          let a : (x.carpincho_pid == q.carpincho_pid && x.pagina == q.pagina) ≡ false =
            ground (arith, h, k) in
          rw a (rw h (get_page-asentar_en_lista ps pid pagina p q (rw h at e) k))
    ]
