-- ===== src/Kernel/Eleccion.antt =====
-- Which process the planners of kernel/src/kernel.c choose.
use exitos_con_esto.Prelude.{
  append-nil, ℕ, zero, suc, ◌+◌, ◌≡◌, refl, sym, ap, ◌⊎◌, inl, inr, true, false, List, [], ◌∷◌,
  ◌++◌, some, arith, bind-inv, ℤ, get_elem?, set, length, length-append, map, Bool-cases, All,
  ltb_ℤ, pos, negsuc,
}
use exitos_con_esto.Kernel.Estado.{Estado, Flotante, Pcb, exec}
use exitos_con_esto.Kernel.Colas.{calcular_estimacion, list_remove}
use exitos_con_esto.Kernel.Planificadores.{
  el_de_menor_sjf, el_mayor_rr, estimado, mayor_desde, menor_desde, planificar_por_hrrn,
}
use exitos_con_esto.Kernel.Poblacion.{en_sistema, list_remove-get, uno, veces, veces-list_remove}

snoc-append :
    {A : Type 0} → (xs : List A) (x : A) (ys : List A) → (xs ++ x ∷ []) ++ ys ≡ xs ++ x ∷ ys
snoc-append [] x ys = refl
snoc-append (z ∷ xs) x ys = ap (λ r. z ∷ r) (snoc-append xs x ys)

get_elem?-snoc :
    {A : Type 0}
    → (xs : List A) (i : ℕ) (a x : A) → get_elem? xs i ≡ some a
    → get_elem? (xs ++ x ∷ []) i ≡ some a
get_elem?-snoc [] i a x e = cc
get_elem?-snoc (y ∷ xs) zero a x e = e
get_elem?-snoc (y ∷ xs) (suc i) a x e = get_elem?-snoc xs i a x e

get_elem?-ultimo :
    {A : Type 0} → (xs : List A) (x : A) → get_elem? (xs ++ x ∷ []) (length xs) ≡ some x
get_elem?-ultimo [] x = refl
get_elem?-ultimo (y ∷ xs) x = get_elem?-ultimo xs x

-- What the planners need of the order of the floats; it holds of the C `<`, also with NaN.
pub record Orden (flotante : Flotante) : Type 0 where
  pub no_menor : (a : flotante.Float) → flotante.menor a a ≡ false
  pub transitivo :
      (a b c : flotante.Float)
      → flotante.menor a b ≡ true
      → flotante.menor b c ≡ true
      → flotante.menor a c ≡ true

module _ (flotante : Flotante) (alfa : flotante.Float) (orden : Orden flotante) where
  open flotante use {Float, de_nat, menor}

  -- No process has a lower estimation than `min`.
  abbrev pub NadieMenor : Float → List (Pcb Float) → Type 0
  NadieMenor min = All (λ p. menor p.proxima_estimacion min ≡ false)

  NadieMenor-bajar :
      (ps : List (Pcb Float)) (a b : Float) → menor a b ≡ true → NadieMenor b ps → NadieMenor a ps
  NadieMenor-bajar [] a b h n = tt
  NadieMenor-bajar (p ∷ ps) a b h n = (
    elim (Bool-cases (menor p.proxima_estimacion a)) [
      | inl s ↦ let t = orden.transitivo p.proxima_estimacion a b s h in cc
      | inr m ↦ m
    ],
    NadieMenor-bajar ps a b h n.1,
  )

  NadieMenor-snoc :
      (ps : List (Pcb Float)) (p : Pcb Float) (a : Float)
      → NadieMenor a ps
      → menor p.proxima_estimacion a ≡ false
      → NadieMenor a (ps ++ p ∷ [])
  NadieMenor-snoc [] p a n h = (h, tt)
  NadieMenor-snoc (q ∷ ps) p a n h = (n.0, NadieMenor-snoc ps p a n.1 h)

  -- What the loop of elDeMenorSJF knows when it has seen `ps`.
  abbrev Visto : List (Pcb Float) → Float → ℕ → Type 0
  Visto ps min id =
      NadieMenor min ps
      × (((id ≡ 0) × (min ≡ de_nat 9999999))
          ⊎ ((p : Pcb Float) × (get_elem? ps id ≡ some p) × (p.proxima_estimacion ≡ min)))

  Visto-no :
      (ps : List (Pcb Float)) (p : Pcb Float) (min : Float) (id : ℕ)
      → Visto ps min id
      → menor p.proxima_estimacion min ≡ false
      → Visto (ps ++ p ∷ []) min id
  Visto-no ps p min id (n, inl x) h = (NadieMenor-snoc ps p min n h, inl x)
  Visto-no ps p min id (n, inr (q, e, f)) h =
      (NadieMenor-snoc ps p min n h, inr (q, get_elem?-snoc ps id q p e, f))

  Visto-si :
      (ps : List (Pcb Float)) (p : Pcb Float) (min : Float) (id : ℕ)
      → Visto ps min id
      → menor p.proxima_estimacion min ≡ true
      → Visto (ps ++ p ∷ []) p.proxima_estimacion (length ps)
  Visto-si ps p min id v h = (
    NadieMenor-snoc ps p p.proxima_estimacion (NadieMenor-bajar ps p.proxima_estimacion min h v.0)
        (orden.no_menor p.proxima_estimacion),
    inr (p, get_elem?-ultimo ps p, refl),
  )

  menor_desde-Visto :
      (resto vistos : List (Pcb Float)) (i : ℕ) (min : Float) (id : ℕ)
      → i ≡ length vistos
      → Visto vistos min id
      → (m : Float) × Visto (vistos ++ resto) m (menor_desde flotante alfa resto i min id)
  unfolding menor_desde
  menor_desde-Visto [] vistos i min id e v = (min, rw (append-nil vistos) v)
  menor_desde-Visto (p ∷ resto) vistos i min id e v =
      elim (Bool-cases (menor p.proxima_estimacion min)) [
        | inl s ↦
            rw (s, sym (snoc-append vistos p resto))
              (menor_desde-Visto resto (vistos ++ p ∷ []) (suc i) p.proxima_estimacion i
                (omega (arith, length-append vistos (p ∷ []), e))
                (rw e (Visto-si vistos p min id v s)))
        | inr n ↦
            rw (n, sym (snoc-append vistos p resto))
              (menor_desde-Visto resto (vistos ++ p ∷ []) (suc i) min id
                (omega (arith, length-append vistos (p ∷ []), e)) (Visto-no vistos p min id v n))
      ]

  estimado-uno : (pid : ℤ) (p : Pcb Float) → uno pid (estimado flotante alfa p) ≡ uno pid p
  unfolding estimado calcular_estimacion
  estimado-uno pid p = elim (Bool-cases (flotante.es_cero p.rafaga_real_cpu)) [
    | inl s ↦ rw s refl
    | inr n ↦ rw n refl
  ]

  veces-estimado :
      (pid : ℤ) (ps : List (Pcb Float)) → veces pid (map (estimado flotante alfa) ps) ≡ veces pid ps
  veces-estimado pid [] = refl
  veces-estimado pid (p ∷ ps) = omega (arith, estimado-uno pid p, veces-estimado pid ps)

  -- With an order of floats that is irreflexive and transitive, where elDeMenorSJF gives a process
  -- it has taken one occurrence of it out of the queues, and of the ready processes with their
  -- estimations none has a lower one than it, or none is below 9999999.
  pub el_de_menor_sjf-menor :
      (s t : Estado Float) (p : Pcb Float)
      → el_de_menor_sjf flotante alfa s ≡ some (p, t)
      → let listos = map (estimado flotante alfa) s.process_ready in
        ((pid : ℤ) → en_sistema pid t + uno pid p ≡ en_sistema pid s)
        × (NadieMenor p.proxima_estimacion listos ⊎ NadieMenor (de_nat 9999999) listos)
  unfolding el_de_menor_sjf
  el_de_menor_sjf-menor s t p e =
      let listos : List (Pcb Float) = map (estimado flotante alfa) s.process_ready in
      let k : ℕ = menor_desde flotante alfa listos 0 (de_nat 9999999) 0 in
      let ((q, resto), f, g) = bind-inv (list_remove listos k) _ _ e in
      let a : q ≡ p = cc in
      let u : Estado Float = record s { process_ready = resto } in
      let b : u ≡ t = cc in
      let (m, v) = menor_desde-Visto listos [] 0 (de_nat 9999999) 0 refl (tt, inl (refl, refl)) in
      let z : get_elem? listos k ≡ some q = list_remove-get listos k q resto f in
      (
        rw (sym a, sym b)
            (λ pid. omega (
              arith,
              veces-list_remove pid listos resto k q f,
              veces-estimado pid s.process_ready,
            )),
        rw (sym a) (fin listos k m q v z),
      )
    where
      fin :
          (listos : List (Pcb Float)) (k : ℕ) (m : Float) (q : Pcb Float)
          → Visto listos m k
          → get_elem? listos k ≡ some q
          → NadieMenor q.proxima_estimacion listos ⊎ NadieMenor (de_nat 9999999) listos
      fin listos k m q (n, inl (_, h)) z = inr (rw h at n)
      fin listos k m q (n, inr (r, h, j)) z =
          let x : r ≡ q = cc in let y : q.proxima_estimacion ≡ m = rw (sym x) j in inl (rw y n)

-- The loop of elMayorRR: the position chosen is in the queue, and no process has a higher ratio.
abbrev pub NadieMayor : {F : Type 0} → (Pcb F → ℤ) → ℤ → List (Pcb F) → Type 0
NadieMayor calculo max = All (λ p. ltb_ℤ max (calculo p) ≡ false)

ltb_ℤ-bajar : (a b c : ℤ) → ltb_ℤ a b ≡ true → ltb_ℤ a c ≡ false → ltb_ℤ b c ≡ false
ltb_ℤ-bajar (pos a) (pos b) (pos c) h k = ground arith
ltb_ℤ-bajar (pos a) (pos b) (negsuc c) h k = ground arith
ltb_ℤ-bajar (pos a) (negsuc b) c h k = ground arith
ltb_ℤ-bajar (negsuc a) (pos b) (pos c) h k = ground arith
ltb_ℤ-bajar (negsuc a) (pos b) (negsuc c) h k = ground arith
ltb_ℤ-bajar (negsuc a) (negsuc b) (pos c) h k = ground arith
ltb_ℤ-bajar (negsuc a) (negsuc b) (negsuc c) h k = ground arith

ltb_ℤ-no : (a : ℤ) → ltb_ℤ a a ≡ false
ltb_ℤ-no (pos a) = ground arith
ltb_ℤ-no (negsuc a) = ground arith

module _ {F : Type 0} (calculo : Pcb F → ℤ) where
  NadieMayor-subir :
      (ps : List (Pcb F)) (a b : ℤ)
      → ltb_ℤ a b ≡ true
      → NadieMayor calculo a ps
      → NadieMayor calculo b ps
  NadieMayor-subir [] a b h n = tt
  NadieMayor-subir (p ∷ ps) a b h n =
      (ltb_ℤ-bajar a b (calculo p) h n.0, NadieMayor-subir ps a b h n.1)

  NadieMayor-snoc :
      (ps : List (Pcb F)) (p : Pcb F) (a : ℤ)
      → NadieMayor calculo a ps
      → ltb_ℤ a (calculo p) ≡ false
      → NadieMayor calculo a (ps ++ p ∷ [])
  NadieMayor-snoc [] p a n h = (h, tt)
  NadieMayor-snoc (q ∷ ps) p a n h = (n.0, NadieMayor-snoc ps p a n.1 h)

  -- The process at the position has the ratio `max`, and nobody has a higher one.
  abbrev EsMayor : List (Pcb F) → ℕ → Type 0
  EsMayor ps id = (p : Pcb F) × (get_elem? ps id ≡ some p) × NadieMayor calculo (calculo p) ps

  mayor_desde-EsMayor :
      (resto vistos : List (Pcb F)) (i : ℕ) (p : Pcb F) (id : ℕ)
      → i ≡ length vistos
      → get_elem? vistos id ≡ some p
      → NadieMayor calculo (calculo p) vistos
      → EsMayor (vistos ++ resto) (mayor_desde calculo resto i (calculo p) id)
  unfolding mayor_desde
  mayor_desde-EsMayor [] vistos i p id e g n = rw (append-nil vistos) (p, g, n)
  mayor_desde-EsMayor (q ∷ resto) vistos i p id e g n =
      elim (Bool-cases (ltb_ℤ (calculo p) (calculo q))) [
        | inl s ↦
            rw (s, sym (snoc-append vistos q resto))
              (mayor_desde-EsMayor resto (vistos ++ q ∷ []) (suc i) q i
                (omega (arith, length-append vistos (q ∷ []), e)) (rw e (get_elem?-ultimo vistos q))
                (NadieMayor-snoc vistos q (calculo q)
                  (NadieMayor-subir vistos (calculo p) (calculo q) s n) (ltb_ℤ-no (calculo q))))
        | inr m ↦
            rw (m, sym (snoc-append vistos q resto))
              (mayor_desde-EsMayor resto (vistos ++ q ∷ []) (suc i) p id
                (omega (arith, length-append vistos (q ∷ []), e)) (get_elem?-snoc vistos id p q g)
                (NadieMayor-snoc vistos q (calculo p) n m))
      ]

  el_mayor_rr-EsMayor : (ps : List (Pcb F)) (i : ℕ) → el_mayor_rr calculo ps ≡ some i → EsMayor ps i
  unfolding el_mayor_rr mayor_desde
  el_mayor_rr-EsMayor [] i e = cc
  el_mayor_rr-EsMayor (p ∷ ps) i e =
      let q : mayor_desde calculo ps 1 (calculo p) 0 ≡ i =
        (let e' = rw (ltb_ℤ-no (calculo p)) at e in cc) in
      rw (sym q) (mayor_desde-EsMayor ps (p ∷ []) 1 p 0 refl refl (ltb_ℤ-no (calculo p), tt))

  veces-set :
      (pid : ℤ) (ps : List (Pcb F)) (i : ℕ) (p q : Pcb F)
      → get_elem? ps i ≡ some p
      → q.pid ≡ p.pid
      → veces pid (set ps i q) ≡ veces pid ps
  veces-set pid [] i p q e h = cc
  veces-set pid (x ∷ ps) zero p q e h =
      let r : x ≡ p = cc in let k : q.pid ≡ x.pid = rw r h in rw k refl
  veces-set pid (x ∷ ps) (suc i) p q e h = omega (arith, veces-set pid ps i p q e h)

  -- Where a round of planificarPorHRRN does not fault, the process that it marks as EXEC, at its
  -- place in the ready queue, has a ratio that no other exceeds, the other processes stay as they
  -- are, and every pid stands in the ready queue as often as before.
  pub planificar_por_hrrn-mayor :
      (s t : Estado F)
      → planificar_por_hrrn calculo s ≡ some t
      → (i : ℕ) × (p : Pcb F) × (get_elem? s.process_ready i ≡ some p)
        × (t.process_ready ≡ set s.process_ready i (record p { status = exec }))
        × NadieMayor calculo (calculo p) s.process_ready
        × ((pid : ℤ) → veces pid t.process_ready ≡ veces pid s.process_ready)
  unfolding planificar_por_hrrn
  planificar_por_hrrn-mayor s t e =
      let (i, f, g) = bind-inv (el_mayor_rr calculo s.process_ready) _ _ e in
      let (p, h, k) = bind-inv (get_elem? s.process_ready i) _ _ g in
      let u : Estado F = record s {
        process_ready = set s.process_ready i (record p { status = exec });
      } in
      let a : u ≡ t = cc in
      let (q, z, n) = el_mayor_rr-EsMayor s.process_ready i f in
      let r : q ≡ p = cc in
      (
        i,
        p,
        h,
        ap (λ v. v.process_ready) (sym a),
        rw r at n,
        rw (sym a) (λ pid. veces-set pid s.process_ready i p (record p { status = exec }) h refl),
      )
