-- ===== src/Kernel/Pruebas.antt =====
-- A kernel with two blocked processes, floats that are numbers, and runs of kernel/src/kernel.c.
use Prim.Native.String.{String}
use exitos_con_esto.Prelude.{
  ℕ, ◌+◌, ◌-◌, ◌*◌, ◌≡◌, ◌≢◌, refl, ◌⊎◌, false, List, [], ◌∷◌, Option, none, some, arith, ltb, ◌==◌,
  ℤ, pos, map, get_elem?, set,
}
use exitos_con_esto.Kernel.Estado.{
  Estado, Flotante, Pcb, SemKernel, Senales, blocked, destroy, exec, post,
}
use exitos_con_esto.Kernel.Semaforos.{restar_sem}
use exitos_con_esto.Kernel.Semaforos.Tabla.{Resta, restar_sem-Resta}
use exitos_con_esto.Kernel.Colas.{buscar_requerido, desbloquear_pid, operaciones_semaforo}
use exitos_con_esto.Kernel.Planificadores.{el_de_menor_sjf, estimado, planificar_por_hrrn}
use exitos_con_esto.Kernel.Poblacion.{
  Desbloqueo, desbloquear_pid-Desbloqueo, en_sistema, en_sistema_con,
  operaciones_semaforo-en_sistema, uno, veces,
}
use exitos_con_esto.Kernel.Rondas.{Conserva, largo_plazo, ronda, ronda-Conserva}
use exitos_con_esto.Kernel.Eleccion.{
  NadieMayor, NadieMenor, Orden, el_de_menor_sjf-menor, planificar_por_hrrn-mayor,
}
use exitos_con_esto.Kernel.Despertar.{Despierto, operaciones_semaforo-post}

abbrev numeros : Flotante
numeros = record {
  Float = ℕ;
  de_nat = λ n. n;
  menor = ltb;
  es_cero = λ n. n == 0;
  suma = λ a b. a + b;
  resta = λ a b. a - b;
  producto = λ a b. a * b;
  truncado = λ a. a;
}

orden : Orden numeros
orden = record { no_menor = λ a. ground arith; transitivo = λ a b c h k. ground arith }

abbrev proceso : ℤ → Option String → ℕ → Pcb ℕ
proceso pid sem rafaga = record {
  pid = pid;
  semaforo_requerido = sem;
  io_finished = false;
  status = blocked;
  proxima_estimacion = 0;
  previa_estimacion = 7;
  rafaga_real_cpu = rafaga;
}

abbrev senales : Senales
senales = record {
  proceso_nuevo = 1;
  puede_entrar_al_sistema = 1;
  cantidad_carpinchos_en_ready = 0;
  planificar = 1;
  planif_mediano_plazo = 1;
  suspendido_a_ready = 0;
  sem_finalizar_proceso = 0;
  ejecutar_io = 0;
}

abbrev sems : List SemKernel
sems = record { valor = pos 0; nombre = "a" } ∷ record { valor = pos 2; nombre = "b" } ∷ []

abbrev estado : Estado ℕ
estado = record {
  process_new = proceso (pos 1) none 0 ∷ [];
  process_ready = [];
  process_blocked = proceso (pos 2) (some "b") 3 ∷ proceso (pos 3) (some "a") 4 ∷ [];
  process_suspended_blocked = [];
  process_suspended_ready = [];
  process_exit = [];
  cola_io = [];
  semaforos_kernel = sems;
  senales = senales;
}

abbrev valor {ℓ} : {A : Type ℓ} → Option A → A → A
valor none d = d
valor (some a) d = a

restar_sem-Resta_example : Resta sems "b" (restar_sem sems "b")
restar_sem-Resta_example = restar_sem-Resta sems "b"

abbrev tras_post : Estado ℕ × Option (Pcb ℕ)
tras_post =
    valor (operaciones_semaforo numeros 0 estado (proceso (pos 9) none 1) 5 post "a" (pos 0))
      (estado, none)

operaciones_semaforo-post_example :
    Despierto numeros 0 estado tras_post.0 (proceso (pos 3) (some "a") 4) "a"
unfolding buscar_requerido operaciones_semaforo
operaciones_semaforo-post_example =
    operaciones_semaforo-post numeros 0 estado tras_post.0 (proceso (pos 3) (some "a") 4)
      (proceso (pos 9) none 1) tras_post.1 5 "a" (pos 0) 1 refl refl refl refl

no_destruye : post ≢ destroy
no_destruye h = cc

operaciones_semaforo-en_sistema_example :
    en_sistema_con numeros 0 (pos 3) tras_post.0 tras_post.1
    ≡ en_sistema (pos 3) estado + uno (pos 3) (proceso (pos 9) none 1)
unfolding operaciones_semaforo
operaciones_semaforo-en_sistema_example =
    operaciones_semaforo-en_sistema numeros 0 (pos 3) estado tras_post.0 (proceso (pos 9) none 1)
      tras_post.1 5 post "a" (pos 0) no_destruye refl

-- One blocked process and two suspended ones: the wake of pid 5 takes out pid 6.
abbrev suspendidos : Estado ℕ
suspendidos = record estado {
  process_blocked = proceso (pos 2) (some "b") 3 ∷ [];
  process_suspended_blocked = proceso (pos 5) none 1 ∷ proceso (pos 6) none 1 ∷ [];
}

abbrev tras_desbloquear : Estado ℕ
tras_desbloquear = valor (desbloquear_pid numeros 0 suspendidos (pos 5)) estado

desbloquear_pid-Desbloqueo_example : Desbloqueo numeros 0 suspendidos tras_desbloquear (pos 5)
unfolding desbloquear_pid
desbloquear_pid-Desbloqueo_example =
    desbloquear_pid-Desbloqueo numeros 0 suspendidos tras_desbloquear (pos 5) refl

ronda-Conserva_example : Conserva estado (ronda largo_plazo estado)
ronda-Conserva_example = ronda-Conserva largo_plazo estado

abbrev listos : Estado ℕ
listos = record estado { process_ready = proceso (pos 4) none 0 ∷ proceso (pos 8) none 1 ∷ [] }

abbrev elegido : Pcb ℕ × Estado ℕ
elegido = valor (el_de_menor_sjf numeros 0 listos) (proceso (pos 0) none 0, estado)

el_de_menor_sjf-menor_example :
    ((pid : ℤ) → en_sistema pid elegido.1 + uno pid elegido.0 ≡ en_sistema pid listos)
    × (NadieMenor numeros 0 orden elegido.0.proxima_estimacion
          (map (estimado numeros 0) listos.process_ready)
        ⊎ NadieMenor numeros 0 orden 9999999 (map (estimado numeros 0) listos.process_ready))
unfolding el_de_menor_sjf
el_de_menor_sjf-menor_example =
    el_de_menor_sjf-menor numeros 0 orden listos elegido.1 elegido.0 refl

abbrev razon : Pcb ℕ → ℤ
razon p = pos (p.rafaga_real_cpu + 1)

abbrev tras_hrrn : Estado ℕ
tras_hrrn = valor (planificar_por_hrrn razon listos) estado

planificar_por_hrrn-mayor_example :
    (i : ℕ) × (p : Pcb ℕ) × (get_elem? listos.process_ready i ≡ some p)
    × (tras_hrrn.process_ready ≡ set listos.process_ready i (record p { status = exec }))
    × NadieMayor razon (razon p) listos.process_ready
    × ((pid : ℤ) → veces pid tras_hrrn.process_ready ≡ veces pid listos.process_ready)
unfolding planificar_por_hrrn
planificar_por_hrrn-mayor_example = planificar_por_hrrn-mayor razon listos tras_hrrn refl
