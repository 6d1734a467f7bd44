-- ===== src/Memoria/Procesos.antt =====
-- The list of processes of memoria/src/memory.c: create_carpincho, get_carpincho and memory_memfree_all.
use exitos_con_esto.Prelude.{
  ℕ, zero, suc, ◌+◌, ◌≡◌, refl, ◌∙◌, ap, inl, inr, false, List, [], ◌∷◌, ◌++◌, none, some, arith,
  ◌==◌, ==→eq, ==-refl, remove_at, Bool-cases, Option-cases,
}
use exitos_con_esto.Memoria.Datos.{Carpincho, StatusMemoryOp, direccion_invalida, exito}
use exitos_con_esto.Memoria.Carpinchos.{
  Carpinchos, buscar, create_carpincho, get_carpincho, memory_memfree_all, nuevo_carpincho,
  ultimo_indice,
}

-- No pid stands twice.
abbrev pub PidUnicos : List Carpincho → Type 0
PidUnicos [] = Unit {0}
PidUnicos (c ∷ cs) = (buscar cs c.pid ≡ none) × PidUnicos cs

ultimo_indice-falta :
    (cs : List Carpincho) (k pid : ℕ) → buscar cs pid ≡ none → ultimo_indice k cs pid ≡ none
unfolding buscar ultimo_indice
ultimo_indice-falta [] k pid e = refl
ultimo_indice-falta (c ∷ cs) k pid e = elim (Bool-cases (c.pid == pid)) [
  | inl s ↦ let e' = rw s at e in cc
  | inr n ↦ rw (ultimo_indice-falta cs (suc k) pid (rw n at e)) (rw n refl)
]

buscar-remove_at :
    (cs : List Carpincho) (i pid : ℕ) → buscar cs pid ≡ none → buscar (remove_at cs i) pid ≡ none
unfolding buscar
buscar-remove_at [] i pid e = refl
buscar-remove_at (c ∷ cs) i pid e = elim (Bool-cases (c.pid == pid)) [
  | inl s ↦ let e' = rw s at e in cc
  | inr n ↦ en i n (rw n at e) (λ j. buscar-remove_at cs j pid (rw n at e))
]
  where
    en :
        (i : ℕ)
        → (c.pid == pid) ≡ false
        → buscar cs pid ≡ none
        → ((j : ℕ) → buscar (remove_at cs j) pid ≡ none)
        → buscar (remove_at (c ∷ cs) i) pid ≡ none
    en zero n e r = e
    en (suc i) n e r = rw n (r i)

-- Where the pid stands, and the list without it.
record Quitado (cs : List Carpincho) (k pid : ℕ) : Type 0 where
  i : ℕ
  indice : ultimo_indice k cs pid ≡ some (k + i)
  ido : buscar (remove_at cs i) pid ≡ none
  otros : (otro : ℕ) → (pid == otro) ≡ false → buscar (remove_at cs i) otro ≡ buscar cs otro
  unicos : PidUnicos (remove_at cs i)

quitar :
    (cs : List Carpincho) (k pid : ℕ) (c : Carpincho)
    → PidUnicos cs
    → buscar cs pid ≡ some c
    → Quitado cs k pid
unfolding buscar ultimo_indice
quitar [] k pid c u e = cc
quitar (d ∷ cs) k pid c u e = elim (Bool-cases (d.pid == pid)) [
  | inl s ↦
      let q : d.pid ≡ pid = ==→eq d.pid pid s in
      let falta : buscar cs pid ≡ none = rw q at u.0 in
      record {
        i = 0;
        indice = rw (ultimo_indice-falta cs (suc k) pid falta) (rw s (ap some (omega arith)));
        ido = falta;
        otros = λ otro n. (let n' : (d.pid == otro) ≡ false = rw q n in rw n' refl);
        unicos = u.1;
      }
  | inr n ↦
      let r = quitar cs (suc k) pid c u.1 (rw n at e) in
      record {
        i = suc r.i;
        indice = rw r.indice (ap some (omega arith));
        ido = rw n r.ido;
        otros = λ otro m. (elim (Bool-cases (d.pid == otro)) [
          | inl s ↦ rw s refl
          | inr t ↦ rw t (r.otros otro m)
        ]);
        unicos = (buscar-remove_at cs r.i d.pid u.0, r.unicos);
      }
]

-- What memory_memfree_all leaves.
pub data Fin (s : Carpinchos) (pid : ℕ) (r : Carpinchos × StatusMemoryOp) : Type 0 where
  desconocido : get_carpincho s pid ≡ none → r ≡ (s, direccion_invalida) → Fin s pid r
  quitado :
      r.1 ≡ exito
      → get_carpincho r.0 pid ≡ none
      → ((otro : ℕ) → (pid == otro) ≡ false → get_carpincho r.0 otro ≡ get_carpincho s otro)
      → PidUnicos r.0.lista
      → Fin s pid r

-- If no pid stands twice in the list, then either the pid is unknown and memory_memfree_all
-- answers an invalid address with everything as it was; or it answers success, the pid is not
-- found any more, every other pid is found as before, and no pid stands twice.
pub memory_memfree_all-Fin :
    (s : Carpinchos) (pid : ℕ) → PidUnicos s.lista → Fin s pid (memory_memfree_all s pid)
unfolding memory_memfree_all get_carpincho
memory_memfree_all-Fin s pid u = elim (Option-cases (buscar s.lista pid)) [
  | inl e ↦ desconocido e (rw (e, memory_memfree_all) refl)
  | inr (c, e) ↦
      let q = quitar s.lista 0 pid c u e in
      let indice : ultimo_indice 0 s.lista pid ≡ some q.i = q.indice ∙ ap some (omega arith) in
      rw (e, memory_memfree_all, indice) (quitado refl q.ido q.otros q.unicos)
]

buscar-append :
    (cs : List Carpincho) (d : Carpincho) (pid : ℕ)
    → buscar cs pid ≡ none
    → (d.pid == pid) ≡ false
    → buscar (cs ++ d ∷ []) pid ≡ none
unfolding buscar
buscar-append [] d pid e n = rw n refl
buscar-append (c ∷ cs) d pid e n = elim (Bool-cases (c.pid == pid)) [
  | inl s ↦ let e' = rw s at e in cc
  | inr m ↦ rw m (buscar-append cs d pid (rw m at e) n)
]

PidUnicos-append :
    (cs : List Carpincho) (d : Carpincho)
    → PidUnicos cs
    → buscar cs d.pid ≡ none
    → PidUnicos (cs ++ d ∷ [])
unfolding buscar
PidUnicos-append [] d u e = (refl, tt)
PidUnicos-append (c ∷ cs) d u e = elim (Bool-cases (c.pid == d.pid)) [
  | inl s ↦ let e' = rw s at e in cc
  | inr n ↦
      let n' : (d.pid == c.pid) ≡ false = ground (arith, n) in
      (buscar-append cs d c.pid u.0 n', PidUnicos-append cs d u.1 (rw n at e))
]

buscar-nuevo :
    (cs : List Carpincho) (d : Carpincho)
    → buscar cs d.pid ≡ none
    → buscar (cs ++ d ∷ []) d.pid ≡ some d
unfolding buscar
buscar-nuevo [] d e = rw (==-refl d.pid) refl
buscar-nuevo (c ∷ cs) d e = elim (Bool-cases (c.pid == d.pid)) [
  | inl s ↦ let e' = rw s at e in cc
  | inr n ↦ rw n (buscar-nuevo cs d (rw n at e))
]

-- If no pid stands twice in the list, then after create_carpincho the pid is found as the process
-- that it answers, and no pid stands twice.
pub create_carpincho-get_carpincho :
    (s : Carpinchos) (pid : ℕ)
    → PidUnicos s.lista
    → let r = create_carpincho s pid in (get_carpincho r.0 pid ≡ some r.1) × PidUnicos r.0.lista
unfolding create_carpincho get_carpincho
create_carpincho-get_carpincho s pid u = elim (Option-cases (buscar s.lista pid)) [
  | inr (c, e) ↦ rw (e, create_carpincho) (e, u)
  | inl e ↦
      let d : Carpincho = nuevo_carpincho pid (s.contador + 1) in
      rw (e, create_carpincho) (buscar-nuevo s.lista d e, PidUnicos-append s.lista d u e)
]
