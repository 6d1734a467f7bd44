-- ===== src/Kernel/Despertar.antt =====
-- Waking and suspending processes in kernel/src/kernel.c: sem_post and the medium-term planner.
use Prim.Native.String.{String}
use text.Mathlib.TextPositions.{eq_refl}
use exitos_con_esto.Prelude.{
  ℕ, ◌+◌, ◌-◌, ◌<◌, ◌≡◌, ◌⊎◌, refl, ◌∙◌, [], ◌∷◌, ◌++◌, Option, none, some, bind-inv, ℤ, get_elem?,
  remove_at, length,
}
use exitos_con_esto.Kernel.Estado.{Estado, Flotante, Pcb, post, ready}
use exitos_con_esto.Kernel.Semaforos.{sumar_sem}
use exitos_con_esto.Kernel.Semaforos.Tabla.{incrementado, sumar_sem-valor, valor_de}
use exitos_con_esto.Kernel.Colas.{
  buscar_requerido, calcular_estimacion, desbloquear_bloqueado, desbloquear_en,
  desbloquear_proceso_por_semaforo, list_remove, operaciones_semaforo, pasar_a_ready, reanudar_en,
}
use exitos_con_esto.Kernel.Planificadores.{Ronda, espera, sigue, trabado}

module _ (flotante : Flotante) (alfa : flotante.Float) where
  open flotante use {Float}

  -- The process and the table of semaphores after the wake.
  pub record Despierto (s t : Estado Float) (p : Pcb Float) (nombre : String) : Type 0 where
    pub en_ready :
        t.process_ready
        ≡ s.process_ready ++ calcular_estimacion flotante alfa (record p { status = ready }) ∷ []
    pub valor :
        valor_de t.semaforos_kernel nombre ≡ incrementado (valor_de s.semaforos_kernel nombre)

  despertar :
      (s t : Estado Float) (p : Pcb Float) (nombre : String) (j : ℕ)
      → buscar_requerido flotante alfa 0 s.process_suspended_blocked nombre ≡ some none
      → buscar_requerido flotante alfa 0 s.process_blocked nombre ≡ some (some j)
      → get_elem? s.process_blocked j ≡ some p
      → desbloquear_proceso_por_semaforo flotante alfa
          (record s { semaforos_kernel = sumar_sem s.semaforos_kernel nombre })
          nombre
        ≡ some t
      → Despierto s t p nombre
  unfolding desbloquear_proceso_por_semaforo reanudar_en desbloquear_bloqueado desbloquear_en
      pasar_a_ready list_remove
  despertar s t p nombre j a b g e =
      let e1 = rw g at (rw b at (rw a at e)) in
      let u : Estado Float = record s {
        semaforos_kernel = sumar_sem s.semaforos_kernel nombre;
        process_blocked = remove_at s.process_blocked j;
        process_ready =
            s.process_ready ++ calcular_estimacion flotante alfa (record p { status = ready }) ∷ [];
        senales = record s.senales {
          cantidad_carpinchos_en_ready = s.senales.cantidad_carpinchos_en_ready + 1;
        };
      } in
      let q : u ≡ t = cc in
      let v : valor_de (sumar_sem s.semaforos_kernel nombre) nombre
          ≡ incrementado (valor_de s.semaforos_kernel nombre) =
        sumar_sem-valor s.semaforos_kernel nombre nombre ∙ rw (eq_refl nombre) refl in
      let d : Despierto s u p nombre = record { en_ready = refl; valor = v } in rw q at d

  -- If no suspended process asks for the name and a blocked one does, then a sem_post of the name
  -- that does not fault puts the blocked process at the end of the ready queue and raises the
  -- value of the name as well.
  pub operaciones_semaforo-post :
      (s t : Estado Float) (p otro : Pcb Float) (q : Option (Pcb Float)) (rafaga : Float)
      (nombre : String) (valor : ℤ) (j : ℕ)
      → buscar_requerido flotante alfa 0 s.process_suspended_blocked nombre ≡ some none
      → buscar_requerido flotante alfa 0 s.process_blocked nombre ≡ some (some j)
      → get_elem? s.process_blocked j ≡ some p
      → operaciones_semaforo flotante alfa s otro rafaga post nombre valor ≡ some (t, q)
      → Despierto s t p nombre
  unfolding operaciones_semaforo
  operaciones_semaforo-post s t p otro q rafaga nombre valor j a b g e =
      let (u, f, h) =
        bind-inv
          (desbloquear_proceso_por_semaforo flotante alfa
            (record s { semaforos_kernel = sumar_sem s.semaforos_kernel nombre }) nombre)
          _ _ e in
      let k : u ≡ t = cc in rw k at (despertar s u p nombre j a b g f)

-- Nobody is ready, somebody is blocked and somebody is new.
abbrev pub Apremia : {F : Type 0} → Estado F → Type 0
Apremia s =
    (length s.process_ready ≡ 0) × (0 < length s.process_blocked) × (0 < length s.process_new)

-- The signal of a round of the medium-term planner is taken.
abbrev pub avisado : {F : Type 0} → Estado F → Estado F
avisado s = record s {
  senales = record s.senales { planif_mediano_plazo = s.senales.planif_mediano_plazo - 1 };
}

-- The state in which the medium-term planner is stuck.
abbrev pub suspendido_ultimo : {F : Type 0} → Estado F → Pcb F → Estado F
suspendido_ultimo s p = record (avisado s) {
  process_blocked = remove_at s.process_blocked (length s.process_blocked - 1);
  process_suspended_blocked = s.process_suspended_blocked ++ p ∷ [];
}

-- The three ends of a round of the medium-term planner.
abbrev pub MedianoPlazo : {F : Type 0} → Estado F → Ronda F → Type 0
MedianoPlazo {F} s r =
    ((s.senales.planif_mediano_plazo ≡ 0) × (r ≡ espera s))
    ⊎ ((0 < s.senales.planif_mediano_plazo)
        × Apremia s
        × (p : Pcb F) × (get_elem? s.process_blocked (length s.process_blocked - 1) ≡ some p)
        × (r ≡ trabado (suspendido_ultimo s p)))
    ⊎ ((0 < s.senales.planif_mediano_plazo) × (¬ Apremia s) × (r ≡ sigue (avisado s)))
