-- ===== src/Kernel/Poblacion.antt =====
-- No process is lost and none appears twice: the queues of kernel/src/kernel.c as a whole.
use Prim.Native.String.{String}
use exitos_con_esto.Prelude.{
  ℕ, zero, suc, ◌+◌, ◌≡◌, ◌≢◌, refl, sym, ◌∙◌, ap, inl, inr, List, [], ◌∷◌, ◌++◌, Option, none,
  some, arith, if◌then◌else◌, bind-inv, ℤ, negsuc, eq_ℤ, get_elem?, remove_at, length, Bool-cases,
}
use exitos_con_esto.Kernel.Estado.{
  Estado, Flotante, Operation, Pcb, blocked, destroy, init, otra, post, ready, wait,
}
use exitos_con_esto.Kernel.Semaforos.{restar_sem, sumar_sem}
use exitos_con_esto.Kernel.Colas.{
  bloquear, buscar_pid, buscar_requerido, desbloquear_en, reanudar_en, desbloquear_pid_en,
  calcular_estimacion, desbloquear_bloqueado, desbloquear_pid, desbloquear_proceso_por_semaforo,
  desbloquear_suspendido, list_remove, operaciones_semaforo, pasar_a_ready,
}

-- 1 for a process with the pid.
abbrev pub uno : {F : Type 0} → ℤ → Pcb F → ℕ
uno pid p = if eq_ℤ p.pid pid then 1 else 0

abbrev pub veces : {F : Type 0} → ℤ → List (Pcb F) → ℕ
veces pid [] = 0
veces pid (p ∷ ps) = uno pid p + veces pid ps

-- How often a pid stands in the queues.
abbrev pub en_sistema : {F : Type 0} → ℤ → Estado F → ℕ
en_sistema pid s =
    veces pid s.process_new
    + veces pid s.process_ready
    + veces pid s.process_blocked
    + veces pid s.process_suspended_blocked
    + veces pid s.process_suspended_ready
    + veces pid s.process_exit

pub veces-append :
    {F : Type 0}
    → (pid : ℤ) (ps qs : List (Pcb F)) → veces pid (ps ++ qs) ≡ veces pid ps + veces pid qs
veces-append pid [] qs = omega arith
veces-append pid (p ∷ ps) qs = omega (arith, veces-append pid ps qs)

veces-remove_at :
    {F : Type 0}
    → (pid : ℤ) (ps : List (Pcb F)) (i : ℕ) (p : Pcb F) → get_elem? ps i ≡ some p
    → veces pid (remove_at ps i) + uno pid p ≡ veces pid ps
veces-remove_at pid [] i p e = cc
veces-remove_at pid (q ∷ ps) zero p e = let r : q ≡ p = cc in rw r (omega arith)
veces-remove_at pid (q ∷ ps) (suc i) p e = omega (arith, veces-remove_at pid ps i p e)

pub list_remove-get :
    {A : Type 0}
    → (xs : List A) (i : ℕ) (x : A) (r : List A) → list_remove xs i ≡ some (x, r)
    → get_elem? xs i ≡ some x
unfolding list_remove
list_remove-get xs i x r e =
    let (y, f, g) = bind-inv (get_elem? xs i) _ _ e in let a : y ≡ x = cc in f ∙ ap some a

pub veces-list_remove :
    {F : Type 0}
    → (pid : ℤ) (ps r : List (Pcb F)) (i : ℕ) (p : Pcb F) → list_remove ps i ≡ some (p, r)
    → veces pid r + uno pid p ≡ veces pid ps
unfolding list_remove
veces-list_remove pid ps r i p e =
    let (q, f, g) = bind-inv (get_elem? ps i) _ _ e in
    let a : q ≡ p = cc in
    let b : remove_at ps i ≡ r = cc in let c = veces-remove_at pid ps i q f in rw (sym a, sym b) c

module _ (flotante : Flotante) (alfa : flotante.Float) where
  open flotante use {Float}

  calcular_estimacion-uno :
      (pid : ℤ) (p : Pcb Float) → uno pid (calcular_estimacion flotante alfa p) ≡ uno pid p
  unfolding calcular_estimacion
  calcular_estimacion-uno pid p = refl

  abbrev en_estado : ℤ → Option (Estado Float) → ℕ
  en_estado pid none = 0
  en_estado pid (some t) = en_sistema pid t

  mismos :
      (pid : ℤ) (s t : Estado Float)
      → ◌≡◌ {A = Option (Estado Float)} (some s) (some t)
      → en_sistema pid t ≡ en_sistema pid s
  mismos pid s t e = sym (ap (en_estado pid) e)

  pasar_a_ready-en_sistema :
      (pid : ℤ) (s t : Estado Float) (i : ℕ)
      → pasar_a_ready flotante alfa s i ≡ some t
      → en_sistema pid t ≡ en_sistema pid s
  unfolding pasar_a_ready calcular_estimacion
  pasar_a_ready-en_sistema pid s t i e =
      let ((p, resto), f, g) = bind-inv (list_remove s.process_blocked i) _ _ e in
      mismos pid _ t g
      ∙ omega (
        arith,
        veces-list_remove pid s.process_blocked resto i p f,
        veces-append pid s.process_ready
            (calcular_estimacion flotante alfa (record p { status = ready }) ∷ []),
      )

  desbloquear_en-en_sistema :
      (pid : ℤ) (s t : Estado Float) (o : Option ℕ)
      → desbloquear_en flotante alfa s o ≡ some t
      → en_sistema pid t ≡ en_sistema pid s
  unfolding desbloquear_en
  desbloquear_en-en_sistema pid s t none e = mismos pid s t e
  desbloquear_en-en_sistema pid s t (some j) e = pasar_a_ready-en_sistema pid s t j e

  reanudar_en-en_sistema :
      (pid : ℤ) (s t : Estado Float) (nombre : String) (o : Option ℕ)
      → reanudar_en flotante alfa s nombre o ≡ some t
      → en_sistema pid t ≡ en_sistema pid s
  unfolding reanudar_en desbloquear_bloqueado calcular_estimacion
  reanudar_en-en_sistema pid s t nombre none e =
      let (o, f, g) = bind-inv (buscar_requerido flotante alfa 0 s.process_blocked nombre) _ _ e in
      desbloquear_en-en_sistema pid s t o g
  reanudar_en-en_sistema pid s t nombre (some i) e =
      let ((p, resto), f, g) = bind-inv (list_remove s.process_suspended_blocked i) _ _ e in
      mismos pid _ t g
      ∙ omega (
        arith,
        veces-list_remove pid s.process_suspended_blocked resto i p f,
        veces-append pid s.process_suspended_ready (calcular_estimacion flotante alfa p ∷ []),
      )

  pub desbloquear_proceso_por_semaforo-en_sistema :
      (pid : ℤ) (s t : Estado Float) (nombre : String)
      → desbloquear_proceso_por_semaforo flotante alfa s nombre ≡ some t
      → en_sistema pid t ≡ en_sistema pid s
  unfolding desbloquear_proceso_por_semaforo
  desbloquear_proceso_por_semaforo-en_sistema pid s t nombre e =
      let (o, f, g) =
        bind-inv (buscar_requerido flotante alfa 0 s.process_suspended_blocked nombre) _ _ e in
      reanudar_en-en_sistema pid s t nombre o g

  -- The process in the CPU counts too.
  abbrev pub en_sistema_con : ℤ → Estado Float → Option (Pcb Float) → ℕ
  en_sistema_con pid s none = en_sistema pid s
  en_sistema_con pid s (some p) = en_sistema pid s + uno pid p

  abbrev en_par : ℤ → Option (Estado Float × Option (Pcb Float)) → ℕ
  en_par pid none = 0
  en_par pid (some (t, p)) = en_sistema_con pid t p

  -- After a semaphore operation other than destroy that does not fault, every pid stands in the
  -- queues and in the CPU as often as before.
  pub operaciones_semaforo-en_sistema :
      (pid : ℤ) (s t : Estado Float) (p : Pcb Float) (q : Option (Pcb Float)) (rafaga : Float)
      (op : Operation) (nombre : String) (valor : ℤ)
      → op ≢ destroy
      → operaciones_semaforo flotante alfa s p rafaga op nombre valor ≡ some (t, q)
      → en_sistema_con pid t q ≡ en_sistema pid s + uno pid p
  unfolding operaciones_semaforo bloquear
  operaciones_semaforo-en_sistema pid s t p q rafaga init nombre valor d e = sym (ap (en_par pid) e)
  operaciones_semaforo-en_sistema pid s t p q rafaga wait nombre valor d e =
      elim (Bool-cases (eq_ℤ (restar_sem s.semaforos_kernel nombre).1 (negsuc 0))) [
        | inl n ↦
            sym (ap (en_par pid) (rw n at e))
            ∙ omega (
              arith,
              veces-append pid s.process_blocked (
                  (record p {
                    status = blocked;
                    semaforo_requerido = some nombre;
                    previa_estimacion = p.proxima_estimacion;
                    rafaga_real_cpu = rafaga;
                  })
                  ∷ []),
            )
        | inr n ↦ sym (ap (en_par pid) (rw n at e))
      ]
  operaciones_semaforo-en_sistema pid s t p q rafaga post nombre valor d e =
      let (u, f, g) =
        bind-inv
          (desbloquear_proceso_por_semaforo flotante alfa
            (record s { semaforos_kernel = sumar_sem s.semaforos_kernel nombre }) nombre)
          _ _ e in
      sym (ap (en_par pid) g)
      ∙ omega (
        arith,
        desbloquear_proceso_por_semaforo-en_sistema pid
            (record s { semaforos_kernel = sumar_sem s.semaforos_kernel nombre }) u nombre f,
      )
  operaciones_semaforo-en_sistema pid s t p q rafaga destroy nombre valor d e = absurd (d refl)
  operaciones_semaforo-en_sistema pid s t p q rafaga otra nombre valor d e = sym (ap (en_par pid) e)

  -- What desbloquearPID does to the processes: the blocked one becomes ready; there is none; or it
  -- is suspended, and the process at the index that is the count of blocked ones is lost.
  pub data Desbloqueo (s t : Estado Float) (pid : ℤ) : Type 0 where
    listo :
        (i : ℕ)
        → buscar_pid flotante alfa 0 s.process_blocked pid ≡ some i
        → ((otro : ℤ) → en_sistema otro t ≡ en_sistema otro s)
        → Desbloqueo s t pid
    ausente :
        buscar_pid flotante alfa 0 s.process_blocked pid ≡ none
        → buscar_pid flotante alfa 0 s.process_suspended_blocked pid ≡ none
        → ((otro : ℤ) → en_sistema otro t ≡ en_sistema otro s)
        → Desbloqueo s t pid
    perdido :
        (j : ℕ) (p : Pcb Float)
        → buscar_pid flotante alfa 0 s.process_blocked pid ≡ none
        → buscar_pid flotante alfa 0 s.process_suspended_blocked pid ≡ some j
        → get_elem? s.process_suspended_blocked (length s.process_blocked) ≡ some p
        → ((otro : ℤ) → en_sistema otro t + uno otro p ≡ en_sistema otro s)
        → Desbloqueo s t pid

  desbloquear_suspendido-Desbloqueo :
      (s t : Estado Float) (pid : ℤ) (o : Option ℕ)
      → buscar_pid flotante alfa 0 s.process_blocked pid ≡ none
      → buscar_pid flotante alfa 0 s.process_suspended_blocked pid ≡ o
      → desbloquear_suspendido flotante alfa s o ≡ some t
      → Desbloqueo s t pid
  unfolding desbloquear_suspendido
  desbloquear_suspendido-Desbloqueo s t pid none b c e = ausente b c (λ otro. mismos otro s t e)
  desbloquear_suspendido-Desbloqueo s t pid (some j) b c e =
      let ((p, resto), f, g) =
        bind-inv (list_remove s.process_suspended_blocked (length s.process_blocked)) _ _ e in
      perdido j p b c
        (list_remove-get s.process_suspended_blocked (length s.process_blocked) p resto f)
        (λ otro.
          let m = mismos otro _ t g in
          omega (
            arith,
            m,
            veces-list_remove otro s.process_suspended_blocked resto (length s.process_blocked) p f,
          ))

  desbloquear_pid_en-Desbloqueo :
      (s t : Estado Float) (pid : ℤ) (o : Option ℕ)
      → buscar_pid flotante alfa 0 s.process_blocked pid ≡ o
      → desbloquear_pid_en flotante alfa s pid o ≡ some t
      → Desbloqueo s t pid
  unfolding desbloquear_pid_en
  desbloquear_pid_en-Desbloqueo s t pid none b e =
      desbloquear_suspendido-Desbloqueo s t pid _ b refl e
  desbloquear_pid_en-Desbloqueo s t pid (some i) b e =
      listo i b (λ otro. pasar_a_ready-en_sistema otro s t i e)

  -- Where desbloquearPID does not fault, the pid is blocked and every pid stands in the queues as
  -- often as before; or it is neither blocked nor suspended, and the same holds; or it is
  -- suspended, and the suspended process whose position is the count of the blocked ones is in no
  -- queue any more.
  pub desbloquear_pid-Desbloqueo :
      (s t : Estado Float) (pid : ℤ)
      → desbloquear_pid flotante alfa s pid ≡ some t
      → Desbloqueo s t pid
  unfolding desbloquear_pid
  desbloquear_pid-Desbloqueo s t pid e = desbloquear_pid_en-Desbloqueo s t pid _ refl e
