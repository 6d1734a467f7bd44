-- ===== src/Kernel/Rondas.antt =====
-- The rounds of the planners of kernel/src/kernel.c: what they keep and what they choose.
use exitos_con_esto.Prelude.{
  ◌+◌, ◌-◌, ◌≡◌, refl, ◌∙◌, ap, inl, inr, List, [], ◌∷◌, ◌++◌, arith, ◌==◌, ℤ, length, Bool-cases,
  Option-cases,
}
use exitos_con_esto.Kernel.Estado.{Estado, Pcb}
use exitos_con_esto.Kernel.Colas.{list_remove}
use exitos_con_esto.Kernel.Planificadores.{
  Ronda, admitir, avisar_nuevos, entrar_suspendido, espera, falla, hay_que_suspender,
  largo_plazo_con, planificador_largo_plazo, planificador_mediano_plazo, retiene, sigue, suspender,
  suspendido_a_listo, suspendido_con, trabado,
}
use exitos_con_esto.Kernel.Poblacion.{en_sistema, uno, veces, veces-append, veces-list_remove}

-- The threads that move processes between the queues.
pub data Hilo : Type 0 where
  largo_plazo mediano_plazo suspendidos : Hilo

abbrev pub ronda : {F : Type 0} → Hilo → Estado F → Ronda F
ronda largo_plazo s = planificador_largo_plazo s
ronda mediano_plazo s = planificador_mediano_plazo s
ronda suspendidos s = suspendido_a_listo s

-- After a round every pid stands in the queues, or in the hands of the thread, as often as before.
abbrev pub Conserva : {F : Type 0} → Estado F → Ronda F → Type 0
Conserva s (espera t) = (pid : ℤ) → en_sistema pid t ≡ en_sistema pid s
Conserva s (retiene p t) = (pid : ℤ) → en_sistema pid t + uno pid p ≡ en_sistema pid s
Conserva s (trabado t) = (pid : ℤ) → en_sistema pid t ≡ en_sistema pid s
Conserva s falla = Unit {0}
Conserva s (sigue t) = (pid : ℤ) → en_sistema pid t ≡ en_sistema pid s

largo_plazo_con-Conserva :
    {F : Type 0}
    → (s : Estado F) (nuevos cola : List (Pcb F)) → s.process_new ≡ nuevos
    → Conserva s (largo_plazo_con s nuevos cola)
unfolding largo_plazo_con admitir
largo_plazo_con-Conserva s [] cola e = λ pid. refl
largo_plazo_con-Conserva s (p ∷ resto) (q ∷ cola) e = λ pid. refl
largo_plazo_con-Conserva s (p ∷ resto) [] e =
    elim (Bool-cases (s.senales.puede_entrar_al_sistema == 0)) [
      | inl c ↦ rw c (λ pid. refl)
      | inr c ↦
          rw c (λ pid. omega (arith, veces-append pid s.process_ready (p ∷ []), ap (veces pid) e))
    ]

suspender-Conserva : {F : Type 0} → (s : Estado F) → Conserva s (suspender s)
unfolding suspender
suspender-Conserva s =
    elim (Option-cases (list_remove s.process_blocked (length s.process_blocked - 1))) [
      | inl f ↦ rw (f, suspender) tt
      | inr ((p, resto), f) ↦
          rw (f, suspender)
            (λ pid. omega (
              arith,
              veces-list_remove pid s.process_blocked resto (length s.process_blocked - 1) p f,
              veces-append pid s.process_suspended_blocked (p ∷ []),
            ))
    ]

avisar_nuevos-en_sistema :
    {F : Type 0} → (s : Estado F) (pid : ℤ) → en_sistema pid (avisar_nuevos s) ≡ en_sistema pid s
unfolding avisar_nuevos
avisar_nuevos-en_sistema s pid = elim (Bool-cases (length s.process_suspended_ready == 0)) [
  | inl c ↦ rw c refl
  | inr c ↦ rw c refl
]

suspendido_con-Conserva :
    {F : Type 0}
    → (s : Estado F) (cola : List (Pcb F)) → s.process_suspended_ready ≡ cola
    → Conserva s (suspendido_con s cola)
unfolding suspendido_con entrar_suspendido
suspendido_con-Conserva s [] e = tt
suspendido_con-Conserva {F = F} s (p ∷ resto) e =
    elim (Bool-cases (s.senales.puede_entrar_al_sistema == 0)) [
      | inl c ↦ rw c (λ pid. omega (arith, ap (veces pid) e))
      | inr c ↦
          let t : Estado F = record s {
            process_suspended_ready = resto;
            process_ready = s.process_ready ++ p ∷ [];
            senales = record s.senales {
              puede_entrar_al_sistema = s.senales.puede_entrar_al_sistema - 1;
            };
          } in
          rw c (λ pid.
            avisar_nuevos-en_sistema t pid
            ∙ omega (arith, veces-append pid s.process_ready (p ∷ []), ap (veces pid) e))
    ]

-- After a round of the long-term planner, the medium-term planner or the thread for suspended
-- processes that does not fault, every pid stands in the queues, or in the hands of the thread, as
-- often as before.
pub ronda-Conserva : {F : Type 0} → (h : Hilo) (s : Estado F) → Conserva s (ronda h s)
unfolding planificador_largo_plazo planificador_mediano_plazo suspendido_a_listo
ronda-Conserva largo_plazo s = elim (Bool-cases (s.senales.proceso_nuevo == 0)) [
  | inl c ↦ rw c (λ pid. refl)
  | inr c ↦ rw c (
      largo_plazo_con-Conserva
        (record s { senales = record s.senales { proceso_nuevo = s.senales.proceso_nuevo - 1 } })
        s.process_new s.process_suspended_ready refl)
]
ronda-Conserva mediano_plazo s = elim (Bool-cases (s.senales.planif_mediano_plazo == 0)) [
  | inl c ↦ rw c (λ pid. refl)
  | inr c ↦ rw c (elim (Bool-cases (hay_que_suspender s)) [
    | inl d ↦ rw d (
        suspender-Conserva (record s {
          senales = record s.senales { planif_mediano_plazo = s.senales.planif_mediano_plazo - 1 };
        }))
    | inr d ↦ rw d (λ pid. refl)
  ])
]
ronda-Conserva suspendidos s = elim (Bool-cases (s.senales.suspendido_a_ready == 0)) [
  | inl c ↦ rw c (λ pid. refl)
  | inr c ↦ rw c (
      suspendido_con-Conserva
        (record s {
          senales = record s.senales { suspendido_a_ready = s.senales.suspendido_a_ready - 1 };
        })
        s.process_suspended_ready refl)
]
