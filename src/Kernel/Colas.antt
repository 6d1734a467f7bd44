-- ===== src/Kernel/Colas.antt =====
-- The queues of the kernel: kernel/src/kernel.c. `none` is a fault (a null pointer, a removal out of
-- range). A float of the planners is of a `Flotante`, and alfa is the one of the configuration.
use Prim.Native.String.{String}
use text.Mathlib.Text.{◌==◌ as str_eq}
use exitos_con_esto.Prelude.{
  ℕ, suc, ◌+◌, true, false, List, [], ◌∷◌, ◌++◌, Option, none, some, if◌then◌else◌, ◌>>=◌, ℤ,
  negsuc, eq_ℤ, get_elem?, remove_at, length,
}
use exitos_con_esto.Kernel.Estado.{
  Estado, Flotante, Operation, Pcb, blocked, destroy, finished, init, new, otra, post, ready, wait,
}
use exitos_con_esto.Kernel.Semaforos.{
  crear_semaforo_kernel, eliminar_semaforo_kernel, restar_sem, sumar_sem,
}

-- The list without the element at a position, and that element.
unfoldable pub list_remove : {A : Type 0} → List A → ℕ → Option (A × List A)
list_remove xs i = get_elem? xs i >>= λ x. some (x, remove_at xs i)

-- create_pcb; the fields that it does not set are arguments.
unfoldable pub create_pcb : {F : Type 0} → F → F → F → ℤ → Option String → Pcb F
create_pcb cero inicial proxima pid semaforo = record {
  pid = pid;
  semaforo_requerido = semaforo;
  io_finished = false;
  status = new;
  proxima_estimacion = proxima;
  previa_estimacion = inicial;
  rafaga_real_cpu = cero;
}

-- processNew, when a carpincho arrives.
unfoldable pub llegar : {F : Type 0} → Estado F → Pcb F → Estado F
llegar s p = record s {
  process_new = s.process_new ++ p ∷ [];
  senales = record s.senales { proceso_nuevo = s.senales.proceso_nuevo + 1 };
}

module _ (flotante : Flotante) (alfa : flotante.Float) where
  open flotante use {Float, de_nat, menor, es_cero, suma, resta, producto, truncado}

  unfoldable pub calcular_estimacion : Pcb Float → Pcb Float
  calcular_estimacion p = record p {
    proxima_estimacion =
        suma (producto (truncado alfa) p.rafaga_real_cpu)
          (producto (resta (de_nat 1) alfa) p.previa_estimacion);
  }

  -- The first position whose process asks for the semaphore.
  unfoldable pub buscar_requerido : ℕ → List (Pcb Float) → String → Option (Option ℕ)
  buscar_requerido i [] nombre = some none
  buscar_requerido i (p ∷ ps) nombre = p.semaforo_requerido >>= λ pedido.
      (if str_eq pedido nombre then some (some i) else buscar_requerido (suc i) ps nombre)

  -- The process at position `i` of processBlocked goes to processReady.
  unfoldable pub pasar_a_ready : Estado Float → ℕ → Option (Estado Float)
  unfolding list_remove calcular_estimacion
  pasar_a_ready s i = do
    (p, resto) ← list_remove s.process_blocked i
    some (record s {
      process_blocked = resto;
      process_ready = s.process_ready ++ calcular_estimacion (record p { status = ready }) ∷ [];
      senales = record s.senales {
        cantidad_carpinchos_en_ready = s.senales.cantidad_carpinchos_en_ready + 1;
      };
    })

  unfoldable pub desbloquear_en : Estado Float → Option ℕ → Option (Estado Float)
  unfolding pasar_a_ready
  desbloquear_en s none = some s
  desbloquear_en s (some j) = pasar_a_ready s j

  -- The second loop of desbloquearProcesoPorSemaforo.
  unfoldable pub desbloquear_bloqueado : Estado Float → String → Option (Estado Float)
  unfolding buscar_requerido desbloquear_en
  desbloquear_bloqueado s nombre = buscar_requerido 0 s.process_blocked nombre >>= desbloquear_en s

  -- The first loop: a suspended process goes to processSuspendedReady, and no thread is told.
  unfoldable pub reanudar_en : Estado Float → String → Option ℕ → Option (Estado Float)
  unfolding list_remove calcular_estimacion desbloquear_bloqueado
  reanudar_en s nombre none = desbloquear_bloqueado s nombre
  reanudar_en s nombre (some i) = do
    (p, resto) ← list_remove s.process_suspended_blocked i
    some (record s {
      process_suspended_blocked = resto;
      process_suspended_ready = s.process_suspended_ready ++ calcular_estimacion p ∷ [];
    })

  unfoldable pub desbloquear_proceso_por_semaforo : Estado Float → String → Option (Estado Float)
  unfolding buscar_requerido reanudar_en
  desbloquear_proceso_por_semaforo s nombre =
      buscar_requerido 0 s.process_suspended_blocked nombre >>= reanudar_en s nombre

  unfoldable pub buscar_pid : ℕ → List (Pcb Float) → ℤ → Option ℕ
  buscar_pid i [] pid = none
  buscar_pid i (p ∷ ps) pid = if eq_ℤ p.pid pid then some i else buscar_pid (suc i) ps pid

  -- The second loop of desbloquearPID removes at `i`, where the first loop ended, and keeps nothing.
  unfoldable pub desbloquear_suspendido : Estado Float → Option ℕ → Option (Estado Float)
  unfolding list_remove
  desbloquear_suspendido s none = some s
  desbloquear_suspendido s (some j) =
      list_remove s.process_suspended_blocked (length s.process_blocked) >>= λ r. some (record s {
        process_suspended_blocked = r.1;
        senales = record s.senales { suspendido_a_ready = s.senales.suspendido_a_ready + 1 };
      })

  unfoldable pub desbloquear_pid_en : Estado Float → ℤ → Option ℕ → Option (Estado Float)
  unfolding buscar_pid pasar_a_ready desbloquear_suspendido
  desbloquear_pid_en s pid none =
      desbloquear_suspendido s (buscar_pid 0 s.process_suspended_blocked pid)
  desbloquear_pid_en s pid (some i) = pasar_a_ready s i

  unfoldable pub desbloquear_pid : Estado Float → ℤ → Option (Estado Float)
  unfolding buscar_pid desbloquear_pid_en
  desbloquear_pid s pid = desbloquear_pid_en s pid (buscar_pid 0 s.process_blocked pid)

  -- Where a process leaves the CPU for processBlocked; `rafaga` is the measured burst.
  unfoldable pub bloquear : Estado Float → Pcb Float → Float → Estado Float
  bloquear s p rafaga = record s {
    process_blocked =
        s.process_blocked
        ++ record p {
          status = blocked;
          previa_estimacion = p.proxima_estimacion;
          rafaga_real_cpu = rafaga;
        }
          ∷ [];
  }

  -- operacionesSemaforo for the process in a CPU: the state and the process, if it stays in the CPU.
  unfoldable pub operaciones_semaforo :
      Estado Float
      → Pcb Float
      → Float
      → Operation
      → String
      → ℤ
      → Option (Estado Float × Option (Pcb Float))
  unfolding bloquear desbloquear_proceso_por_semaforo sumar_sem restar_sem crear_semaforo_kernel
      eliminar_semaforo_kernel
  operaciones_semaforo s p rafaga init nombre valor = some (
    record s { semaforos_kernel = crear_semaforo_kernel s.semaforos_kernel nombre valor },
    some (record p { semaforo_requerido = some nombre }),
  )
  operaciones_semaforo s p rafaga wait nombre valor =
      let q = record p { semaforo_requerido = some nombre } in
      let r = restar_sem s.semaforos_kernel nombre in
      let t = record s { semaforos_kernel = r.0 } in
      some (if eq_ℤ r.1 (negsuc 0) then (bloquear t q rafaga, none) else (t, some q))
  operaciones_semaforo s p rafaga post nombre valor =
      desbloquear_proceso_por_semaforo
        (record s { semaforos_kernel = sumar_sem s.semaforos_kernel nombre }) nombre
      >>= λ t. some (t, some (record p { semaforo_requerido = some nombre }))
  operaciones_semaforo s p rafaga destroy nombre valor =
      eliminar_semaforo_kernel s.semaforos_kernel s.process_blocked nombre >>= λ r. some (
        record s { semaforos_kernel = r.0; process_blocked = r.1 },
        some (record p { semaforo_requerido = some nombre }),
      )
  operaciones_semaforo s p rafaga otra nombre valor =
      some (s, some (record p { semaforo_requerido = some nombre }))

  -- encolarIO, and the IO case of ejecutarCarpincho: the request is queued before the process.
  unfoldable pub operacion_io : Estado Float → Pcb Float → Float → String → Estado Float
  operacion_io s p rafaga recurso = record s {
    cola_io = s.cola_io ++ record { pid = p.pid; nombre = recurso } ∷ [];
    process_blocked =
        s.process_blocked
        ++ record p {
          status = blocked;
          previa_estimacion = p.proxima_estimacion;
          rafaga_real_cpu = rafaga;
          io_finished = true;
        }
          ∷ [];
    senales = record s.senales { ejecutar_io = s.senales.ejecutar_io + 1 };
  }

  -- The FINALIZACION case, and the default, of ejecutarCarpincho.
  unfoldable pub finalizar : Estado Float → Pcb Float → Estado Float
  finalizar s p = record s {
    process_exit = s.process_exit ++ record p { status = finished } ∷ [];
    senales = record s.senales { sem_finalizar_proceso = s.senales.sem_finalizar_proceso + 1 };
  }

  -- What a CPU posts when its process leaves it.
  unfoldable pub liberar_cpu : Estado Float → Estado Float
  liberar_cpu s = record s {
    senales = record s.senales {
      planif_mediano_plazo = s.senales.planif_mediano_plazo + 1;
      planificar = s.senales.planificar + 1;
    };
  }
