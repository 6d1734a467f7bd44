-- ===== src/Kernel/Estado.antt =====
-- The state of the kernel: kernel/src/utils.h, and the globals of kernel/src/kernel.c.
use Prim.Native.String.{String}
use exitos_con_esto.Prelude.{ℕ, List, Bool, Option, ℤ}

-- The C floats are a type of their own, with the operations that the planners use.
pub record Flotante : Type 1 where
  pub Float : Type 0
  pub de_nat : ℕ → Float
  pub menor : Float → Float → Bool
  pub es_cero : Float → Bool
  pub suma : Float → Float → Float
  pub resta : Float → Float → Float
  pub producto : Float → Float → Float
  pub truncado : Float → Float

-- The enum state.
pub data State : Type 0 where
  new ready blocked exec suspended finished : State

-- What the planners read of a t_pcb; `none` is a pointer that was never set.
pub record Pcb (F : Type 0) : Type 0 where
  pub pid : ℤ
  pub semaforo_requerido : Option String
  pub io_finished : Bool
  pub status : State
  pub proxima_estimacion : F
  pub previa_estimacion : F
  pub rafaga_real_cpu : F

pub record IoReq : Type 0 where
  pub pid : ℤ
  pub nombre : String

pub record SemKernel : Type 0 where
  pub valor : ℤ
  pub nombre : String

-- The enum operation.
pub data Operation : Type 0 where
  init wait post destroy otra : Operation

-- The values of the semaphores that wake the threads.
pub record Senales : Type 0 where
  pub proceso_nuevo : ℕ
  pub puede_entrar_al_sistema : ℕ
  pub cantidad_carpinchos_en_ready : ℕ
  pub planificar : ℕ
  pub planif_mediano_plazo : ℕ
  pub suspendido_a_ready : ℕ
  pub sem_finalizar_proceso : ℕ
  pub ejecutar_io : ℕ

pub record Estado (F : Type 0) : Type 0 where
  pub process_new : List (Pcb F)
  pub process_ready : List (Pcb F)
  pub process_blocked : List (Pcb F)
  pub process_suspended_blocked : List (Pcb F)
  pub process_suspended_ready : List (Pcb F)
  pub process_exit : List (Pcb F)
  pub cola_io : List IoReq
  pub semaforos_kernel : List SemKernel
  pub senales : Senales
