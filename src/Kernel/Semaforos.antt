-- ===== src/Kernel/Semaforos.antt =====
-- The named semaphores of the kernel: kernel/src/kernel.c. A valor is an int that may be negative.
pub mod Tabla
use Prim.Native.String.{String}
use text.Mathlib.Text.{◌==◌ as str_eq}
use exitos_con_esto.Prelude.{
  ℕ, zero, suc, Bool, true, false, List, [], ◌∷◌, ◌++◌, Option, none, some, if◌then◌else◌, ◌>>=◌, ℤ,
  pos, negsuc, inc_ℤ, dec_ℤ, ltb_ℤ, get_elem?, set, remove_at, not,
}
use exitos_con_esto.Kernel.Estado.{Pcb, SemKernel}

-- The first position with the name; `none` is -1.
unfoldable pub verificar_desde : ℕ → List SemKernel → String → Option ℕ
verificar_desde i [] nombre = none
verificar_desde i (sem ∷ sems) nombre =
    if str_eq sem.nombre nombre then some i else verificar_desde (suc i) sems nombre

unfoldable pub verificar_existe_sem : List SemKernel → String → Option ℕ
unfolding verificar_desde
verificar_existe_sem sems nombre = verificar_desde 0 sems nombre

-- The semaphore at a position that verificarExisteSem gave.
unfoldable pub restar_en : List SemKernel → ℕ → Option SemKernel → List SemKernel × ℤ
restar_en sems i none = (sems, negsuc 1)
restar_en sems i (some sem) =
    if ltb_ℤ (pos 0) sem.valor
    then (set sems i (record sem { valor = dec_ℤ sem.valor }), pos 0)
    else (sems, negsuc 0)

unfoldable pub restar_sem : List SemKernel → String → List SemKernel × ℤ
unfolding verificar_existe_sem restar_en
restar_sem sems nombre = elim (verificar_existe_sem sems nombre) [
  | none ↦ (sems, negsuc 1)
  | some i ↦ restar_en sems i (get_elem? sems i)
]

unfoldable pub sumar_en : List SemKernel → ℕ → Option SemKernel → List SemKernel
sumar_en sems i none = sems
sumar_en sems i (some sem) = set sems i (record sem { valor = inc_ℤ sem.valor })

unfoldable pub sumar_sem : List SemKernel → String → List SemKernel
unfolding verificar_existe_sem sumar_en
sumar_sem sems nombre = elim (verificar_existe_sem sems nombre) [
  | none ↦ sems
  | some i ↦ sumar_en sems i (get_elem? sems i)
]

unfoldable pub crear_semaforo_kernel : List SemKernel → String → ℤ → List SemKernel
unfolding verificar_existe_sem
crear_semaforo_kernel sems nombre valor = elim (verificar_existe_sem sems nombre) [
  | none ↦ sems ++ record { valor = valor; nombre = nombre } ∷ []
  | some i ↦ sems
]

-- reasignarProcesos: each blocked process that asks for the semaphore loses its pid. The call of
-- list_replace has its arguments swapped; with a pointer for an index it finds no element to replace.
unfoldable pub reasignar_procesos : {F : Type 0} → List (Pcb F) → String → Option (List (Pcb F))
reasignar_procesos [] nombre = some []
reasignar_procesos (p ∷ ps) nombre = do
  pedido ← p.semaforo_requerido
  resto ← reasignar_procesos ps nombre
  some ((if str_eq pedido nombre then record p { pid = negsuc 0 } else p) ∷ resto)

unfoldable pub eliminar_semaforo_kernel :
    {F : Type 0} → List SemKernel → List (Pcb F) → String → Option (List SemKernel × List (Pcb F))
unfolding verificar_existe_sem reasignar_procesos
eliminar_semaforo_kernel sems ps nombre = elim (verificar_existe_sem sems nombre) [
  | none ↦ some (sems, ps)
  | some i ↦ reasignar_procesos ps nombre >>= λ qs. some (remove_at sems i, qs)
]

-- sacarRecursos takes a t_sem_kernel for a semaforo and reads its PID past the end of the block.
unfoldable pub sacar_recursos : List SemKernel → Option (List SemKernel)
sacar_recursos [] = some []
sacar_recursos (sem ∷ sems) = none
