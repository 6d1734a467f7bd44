-- ===== src/Mensajes/Instancia.antt =====
-- The instance of a process in matelib/src/matelib.c, and what each function of the library writes to
-- it before it sends it. A 32-bit integer is its word; a block of memory is the list of its bytes.
use exitos_con_esto.Prelude.{
  ℕ, ◌+◌, List, [], ◌∷◌, ◌++◌, length, take, Option, none, some, leb, if◌then◌else◌, ◌>>=◌, u32,
}

pub data Tipo : Type 0 where
  memoria : Tipo
  io : Tipo
  semaforo : Tipo
  inicializacion : Tipo
  finalizacion : Tipo

abbrev pub codigo_tipo : Tipo → ℕ
codigo_tipo Tipo.memoria = 0
codigo_tipo Tipo.io = 1
codigo_tipo Tipo.semaforo = 2
codigo_tipo Tipo.inicializacion = 3
codigo_tipo Tipo.finalizacion = 4

pub data OperacionMate : Type 0 where
  memalloc : OperacionMate
  memfree : OperacionMate
  memread : OperacionMate
  memwrite : OperacionMate

abbrev pub codigo_operacion : OperacionMate → ℕ
codigo_operacion OperacionMate.memalloc = 0
codigo_operacion OperacionMate.memfree = 1
codigo_operacion OperacionMate.memread = 2
codigo_operacion OperacionMate.memwrite = 3

-- operation, the one of the semaphores.
pub data OperacionSem : Type 0 where
  init : OperacionSem
  wait : OperacionSem
  post : OperacionSem
  destroy : OperacionSem

abbrev pub codigo_sem : OperacionSem → ℕ
codigo_sem OperacionSem.init = 0
codigo_sem OperacionSem.wait = 1
codigo_sem OperacionSem.post = 2
codigo_sem OperacionSem.destroy = 3

pub record SemaforoMate : Type 0 where
  pub operacion : ℕ
  pub nombre_sem : List ℕ
  pub longitud : ℕ
  pub valor : ℕ

pub record MateMemory : Type 0 where
  pub size : ℕ
  pub addr : ℕ
  pub tipo_op : ℕ
  pub valor : List ℕ

pub record MateIoResource : Type 0 where
  pub nombre : List ℕ
  pub longitud : ℕ

pub record MateInstance : Type 0 where
  pub sema : SemaforoMate
  pub pid : ℕ
  pub estado : ℕ
  pub nombre_io : MateIoResource
  pub memoria : MateMemory
  pub tipo : ℕ

-- memcpy of n bytes from the start of a block; past its end is a fault.
unfoldable pub leer_bloque : List ℕ → ℕ → Option (List ℕ)
leer_bloque bloque n = if leb n (length bloque) then some (take n bloque) else none

-- What malloc leaves in the integers and the blocks of one byte that mate_init does not set.
pub record SinIniciar : Type 0 where
  pub operacion : ℕ
  pub nombre_sem : ℕ
  pub valor_sem : ℕ
  pub addr : ℕ
  pub tipo_op : ℕ
  pub valor : ℕ
  pub nombre : ℕ

unfoldable pub mate_init : SinIniciar → ℕ → MateInstance
mate_init b pid = record {
  sema = record {
    operacion = b.operacion;
    nombre_sem = b.nombre_sem ∷ [];
    longitud = 1;
    valor = b.valor_sem;
  };
  pid = pid;
  estado = 0;
  nombre_io = record { nombre = b.nombre ∷ []; longitud = 1 };
  memoria = record { size = 1; addr = b.addr; tipo_op = b.tipo_op; valor = b.valor ∷ [] };
  tipo = codigo_tipo Tipo.inicializacion;
}

unfoldable pub mate_close : MateInstance → MateInstance
mate_close i = record i { tipo = codigo_tipo Tipo.finalizacion }

-- What the functions of semaphores share; `sem` holds the characters of the name.
abbrev pub con_semaforo : OperacionSem → List ℕ → ℕ → MateInstance → MateInstance
con_semaforo op sem valor i = record i {
  tipo = codigo_tipo Tipo.semaforo;
  sema = record {
    operacion = codigo_sem op;
    nombre_sem = sem ++ 0 ∷ [];
    longitud = u32 (length sem + 1);
    valor = valor;
  };
}

unfoldable pub mate_sem_init : MateInstance → List ℕ → ℕ → MateInstance
mate_sem_init i sem value = con_semaforo OperacionSem.init sem value i

unfoldable pub mate_sem_wait : MateInstance → List ℕ → MateInstance
mate_sem_wait i sem = con_semaforo OperacionSem.wait sem i.sema.valor i

unfoldable pub mate_sem_post : MateInstance → List ℕ → MateInstance
mate_sem_post i sem = con_semaforo OperacionSem.post sem i.sema.valor i

unfoldable pub mate_sem_destroy : MateInstance → List ℕ → MateInstance
mate_sem_destroy i sem = con_semaforo OperacionSem.destroy sem i.sema.valor i

unfoldable pub mate_call_io : MateInstance → List ℕ → MateInstance
mate_call_io i nombre = record i {
  tipo = codigo_tipo Tipo.io;
  nombre_io = record { nombre = nombre ++ 0 ∷ []; longitud = u32 (length nombre + 1) };
}

-- The block `valor` stays the one of before.
unfoldable pub mate_memalloc : MateInstance → ℕ → MateInstance
mate_memalloc i size = record i {
  tipo = codigo_tipo Tipo.memoria;
  memoria = record (i.memoria) { size = size; tipo_op = codigo_operacion OperacionMate.memalloc };
}

unfoldable pub mate_memfree : MateInstance → ℕ → MateInstance
mate_memfree i addr = record i {
  tipo = codigo_tipo Tipo.memoria;
  memoria = record (i.memoria) { addr = addr; tipo_op = codigo_operacion OperacionMate.memfree };
}

unfoldable pub mate_memread : MateInstance → ℕ → ℕ → MateInstance
mate_memread i origin size = record i {
  tipo = codigo_tipo Tipo.memoria;
  memoria = record (i.memoria) {
    addr = origin;
    size = size;
    tipo_op = codigo_operacion OperacionMate.memread;
  };
}

abbrev pub con_escritura : MateInstance → List ℕ → ℕ → ℕ → MateInstance
con_escritura i valor dest size = record i {
  tipo = codigo_tipo Tipo.memoria;
  memoria = record {
    addr = dest;
    size = size;
    tipo_op = codigo_operacion OperacionMate.memwrite;
    valor = valor;
  };
}

-- `origin` is a block of the caller.
unfoldable pub mate_memwrite : MateInstance → List ℕ → ℕ → ℕ → Option MateInstance
unfolding leer_bloque
mate_memwrite i origin dest size =
    leer_bloque origin size >>= λ valor. some (con_escritura i valor dest size)
