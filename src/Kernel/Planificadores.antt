-- ===== src/Kernel/Planificadores.antt =====
-- The planners of the kernel, one round of each thread: kernel/src/kernel.c. The flags `uso` and
-- `planificacion`, the clock and the sockets are left out.
use exitos_con_esto.Prelude.{
  ℕ, suc, ◌+◌, ◌-◌, Bool, true, false, List, [], ◌∷◌, ◌++◌, Option, none, some, ◌==◌, if◌then◌else◌,
  ◌>>=◌, ℤ, map, ltb_ℤ, get_elem?, set, length,
}
use exitos_con_esto.Kernel.Estado.{Estado, Flotante, IoReq, Pcb, exec}
use exitos_con_esto.Kernel.Semaforos.{sacar_recursos}
use exitos_con_esto.Kernel.Colas.{calcular_estimacion, desbloquear_pid, list_remove}

-- How a round of a thread ends: it waits for a semaphore, alone or with a process that it has taken
-- out of a queue; it waits for ever for a lock that it holds; it faults; or the next round begins.
pub data Ronda (F : Type 0) : Type 0 where
  espera : Estado F → Ronda F
  retiene : Pcb F → Estado F → Ronda F
  trabado : Estado F → Ronda F
  falla : Ronda F
  sigue : Estado F → Ronda F

-- sem_wait(&puedeEntrarAlSistema), and from NEW to READY.
unfoldable pub admitir : {F : Type 0} → Estado F → Pcb F → List (Pcb F) → Ronda F
admitir s p resto =
    if s.senales.puede_entrar_al_sistema == 0
    then espera s
    else sigue (record s {
      process_new = resto;
      process_ready = s.process_ready ++ p ∷ [];
      senales = record s.senales {
        puede_entrar_al_sistema = s.senales.puede_entrar_al_sistema - 1;
        cantidad_carpinchos_en_ready = s.senales.cantidad_carpinchos_en_ready + 1;
      };
    })

unfoldable pub largo_plazo_con : {F : Type 0} → Estado F → List (Pcb F) → List (Pcb F) → Ronda F
unfolding admitir
largo_plazo_con s [] suspendidos = sigue s
largo_plazo_con s (p ∷ resto) [] = admitir s p resto
largo_plazo_con s (p ∷ resto) (q ∷ suspendidos) = sigue s

unfoldable pub planificador_largo_plazo : {F : Type 0} → Estado F → Ronda F
unfolding largo_plazo_con
planificador_largo_plazo s =
    if s.senales.proceso_nuevo == 0
    then espera s
    else largo_plazo_con
        (record s { senales = record s.senales { proceso_nuevo = s.senales.proceso_nuevo - 1 } })
        s.process_new s.process_suspended_ready

-- The condition of the medium term: nobody is ready, somebody is blocked and somebody is new.
unfoldable pub hay_que_suspender : {F : Type 0} → Estado F → Bool
hay_que_suspender s =
    if length s.process_ready == 0
    then (if length s.process_blocked == 0
        then false
        else if length s.process_new == 0
        then false
        else true)
    else false

-- The lock of processSuspendedBlocked is taken a second time where it should be let go.
unfoldable pub suspender : {F : Type 0} → Estado F → Ronda F
unfolding list_remove
suspender s = elim (list_remove s.process_blocked (length s.process_blocked - 1)) [
  | none ↦ falla
  | some r ↦ trabado (record s {
    process_blocked = r.1;
    process_suspended_blocked = s.process_suspended_blocked ++ r.0 ∷ [];
  })
]

unfoldable pub planificador_mediano_plazo : {F : Type 0} → Estado F → Ronda F
unfolding hay_que_suspender suspender
planificador_mediano_plazo s =
    let t = record s {
      senales = record s.senales { planif_mediano_plazo = s.senales.planif_mediano_plazo - 1 };
    } in
    if s.senales.planif_mediano_plazo == 0
    then espera s
    else if hay_que_suspender s
    then suspender t
    else sigue t

-- procesoNuevo is posted once for each new process when no suspended one is left.
unfoldable pub avisar_nuevos : {F : Type 0} → Estado F → Estado F
avisar_nuevos s =
    if length s.process_suspended_ready == 0
    then record s {
      senales = record s.senales { proceso_nuevo = s.senales.proceso_nuevo + length s.process_new };
    }
    else s

-- The rest of a round of suspendidoAListo, with the process that queue_pop gave.
unfoldable pub entrar_suspendido : {F : Type 0} → Estado F → Pcb F → Ronda F
unfolding avisar_nuevos
entrar_suspendido s p =
    if s.senales.puede_entrar_al_sistema == 0
    then retiene p s
    else sigue (
        avisar_nuevos (record s {
          process_ready = s.process_ready ++ p ∷ [];
          senales = record s.senales {
            puede_entrar_al_sistema = s.senales.puede_entrar_al_sistema - 1;
          };
        }))

-- queue_pop of an empty queue is a null process, which the code first adds to the ready queue.
unfoldable pub suspendido_con : {F : Type 0} → Estado F → List (Pcb F) → Ronda F
unfolding entrar_suspendido
suspendido_con s [] = falla
suspendido_con s (p ∷ resto) = entrar_suspendido (record s { process_suspended_ready = resto }) p

unfoldable pub suspendido_a_listo : {F : Type 0} → Estado F → Ronda F
unfolding suspendido_con
suspendido_a_listo s =
    if s.senales.suspendido_a_ready == 0
    then espera s
    else suspendido_con
        (record s {
          senales = record s.senales { suspendido_a_ready = s.senales.suspendido_a_ready - 1 };
        })
        s.process_suspended_ready

unfoldable pub finalizar_con : {F : Type 0} → Estado F → List (Pcb F) → Ronda F
unfolding sacar_recursos
finalizar_con s [] = sigue s
finalizar_con s (p ∷ resto) = elim (sacar_recursos s.semaforos_kernel) [
  | none ↦ falla
  | some sems ↦ sigue (record s {
    process_exit = resto;
    semaforos_kernel = sems;
    senales = record s.senales { puede_entrar_al_sistema = s.senales.puede_entrar_al_sistema + 1 };
  })
]

unfoldable pub finalizar_proceso : {F : Type 0} → Estado F → Ronda F
unfolding finalizar_con
finalizar_proceso s =
    if s.senales.sem_finalizar_proceso == 0
    then espera s
    else finalizar_con
        (record s {
          senales = record s.senales {
            sem_finalizar_proceso = s.senales.sem_finalizar_proceso - 1;
          };
        })
        s.process_exit

module _ (flotante : Flotante) (alfa : flotante.Float) where
  open flotante use {Float, de_nat, menor, es_cero}

  unfoldable pub io_con : Estado Float → List IoReq → Ronda Float
  unfolding desbloquear_pid
  io_con s [] = falla
  io_con s (req ∷ resto) =
      elim (desbloquear_pid flotante alfa (record s { cola_io = resto }) req.pid) [
        | none ↦ falla
        | some t ↦ sigue t
      ]

  unfoldable pub planificador_io : Estado Float → Ronda Float
  unfolding io_con
  planificador_io s =
      if s.senales.ejecutar_io == 0
      then espera s
      else io_con
          (record s { senales = record s.senales { ejecutar_io = s.senales.ejecutar_io - 1 } })
          s.cola_io

  -- The loop of elDeMenorSJF over the processes from position `i` on.
  unfoldable pub menor_desde : List (Pcb Float) → ℕ → Float → ℕ → ℕ
  menor_desde [] i min id = id
  menor_desde (p ∷ ps) i min id =
      if menor p.proxima_estimacion min
      then menor_desde ps (suc i) p.proxima_estimacion i
      else menor_desde ps (suc i) min id

  -- A process without a real burst gets its estimation.
  unfoldable pub estimado : Pcb Float → Pcb Float
  unfolding calcular_estimacion
  estimado p = if es_cero p.rafaga_real_cpu then calcular_estimacion flotante alfa p else p

  unfoldable pub el_de_menor_sjf : Estado Float → Option (Pcb Float × Estado Float)
  unfolding menor_desde estimado list_remove
  el_de_menor_sjf s =
      let listos = map estimado s.process_ready in
      list_remove listos (menor_desde listos 0 (de_nat 9999999) 0) >>= λ r.
      some (r.0, record s { process_ready = r.1 })

-- The loop of elMayorRR, with `calculo` for calculoRR: the position of the process chosen.
unfoldable pub mayor_desde : {F : Type 0} → (Pcb F → ℤ) → List (Pcb F) → ℕ → ℤ → ℕ → ℕ
mayor_desde calculo [] i max id = id
mayor_desde calculo (p ∷ ps) i max id =
    if ltb_ℤ max (calculo p)
    then mayor_desde calculo ps (suc i) (calculo p) i
    else mayor_desde calculo ps (suc i) max id

unfoldable pub el_mayor_rr : {F : Type 0} → (Pcb F → ℤ) → List (Pcb F) → Option ℕ
unfolding mayor_desde
el_mayor_rr calculo [] = none
el_mayor_rr calculo (p ∷ ps) = some (mayor_desde calculo (p ∷ ps) 0 (calculo p) 0)

-- A round of planificarPorHRRN: the process chosen is marked and stays in the queue.
unfoldable pub planificar_por_hrrn : {F : Type 0} → (Pcb F → ℤ) → Estado F → Option (Estado F)
unfolding el_mayor_rr
planificar_por_hrrn calculo s = do
  i ← el_mayor_rr calculo s.process_ready
  p ← get_elem? s.process_ready i
  some (record s { process_ready = set s.process_ready i (record p { status = exec }) })
