-- ===== src/Mensajes/Servidor.antt =====
-- server_procesar_mensaje of memoria/src/server.c, the answers that the kernel passes on
-- (serializar_instancia of kernel/src/kernel.c), and what the library makes of them (matelib/src/
-- matelib.c). A send is the bytes that it sends.
use exitos_con_esto.Prelude.{
  ℕ, ◌-◌, List, [], ◌++◌, Bool, Option, none, some, leb, ltb, ◌&&◌, not, ◌==◌, if◌then◌else◌, ◌>>=◌,
  ℤ, pos, negsuc,
}
use exitos_con_esto.Memoria.Metadatos.{bytes_u32}
use exitos_con_esto.Mensajes.Instancia.{
  MateInstance, OperacionMate, Tipo, codigo_operacion, codigo_tipo, SinIniciar, mate_init,
  mate_memalloc, mate_memread, mate_memwrite,
}
use exitos_con_esto.Mensajes.Serializar.{
  recibir, recibir_int, recibir_mensaje, serializar_instancia,
}

-- The functions of memory.c that the server calls, on the state of the memory process; `none` is a
-- fault. A refusal is `none` inside, or false.
pub record OperacionesMemoria : Type 1 where
  pub Estado : Type 0
  pub memory_memalloc : Estado → ℕ → ℕ → Option (Estado × Option ℕ)
  pub memory_memfree : Estado → ℕ → ℕ → Option (Estado × Bool)
  pub memory_memread : Estado → ℕ → ℕ → ℕ → Option (Estado × Option (List ℕ))
  pub memory_memwrite : Estado → ℕ → ℕ → ℕ → List ℕ → Option (Estado × Bool)
  pub memory_memfree_all : Estado → ℕ → Option (Estado × Bool)

-- The codes of err_code that are below 0, as words.
abbrev pub negativo : ℕ → ℕ
negativo n = 4294967296 - n

abbrev pub mate_alloc_fault : ℕ
mate_alloc_fault = negativo 4

abbrev pub mate_free_fault : ℕ
mate_free_fault = negativo 5

abbrev pub mate_read_fault : ℕ
mate_read_fault = negativo 6

abbrev pub mate_write_fault : ℕ
mate_write_fault = negativo 7

abbrev pub mate_end_fault : ℕ
mate_end_fault = negativo 9

abbrev pub mate_free_ok : ℕ
mate_free_ok = 5

abbrev pub mate_write_ok : ℕ
mate_write_ok = 7

abbrev pub mate_end_ok : ℕ
mate_end_ok = 9

module _ (m : OperacionesMemoria) where
  open m use {Estado}

  abbrev pub responder_memalloc : Estado × Option ℕ → Estado × List ℕ
  responder_memalloc (s, none) = (s, bytes_u32 mate_alloc_fault)
  responder_memalloc (s, some direccion) = (s, bytes_u32 direccion)

  abbrev pub responder : ℕ → ℕ → Estado × Bool → Estado × List ℕ
  responder bien mal (s, exito) = (s, bytes_u32 (if exito then bien else mal))

  abbrev pub responder_memread : ℕ → Estado × Option (List ℕ) → Estado × List ℕ
  responder_memread size (s, none) = (s, bytes_u32 mate_read_fault)
  responder_memread size (s, some leido) = (s, bytes_u32 size ++ leido)

  -- The switch on tipoOp; the value of FINALIZACION is the one of its last case.
  unfoldable pub procesar_memoria : Estado → MateInstance → Option (Estado × List ℕ)
  procesar_memoria s i =
      let op = i.memoria.tipo_op in
      if op == codigo_operacion OperacionMate.memalloc
      then (m.memory_memalloc s i.pid i.memoria.size >>= λ r. some (responder_memalloc r))
      else if op == codigo_operacion OperacionMate.memfree
      then (m.memory_memfree s i.pid i.memoria.addr >>= λ r.
          some (responder mate_free_ok mate_free_fault r))
      else if op == codigo_operacion OperacionMate.memread
      then (m.memory_memread s i.pid i.memoria.addr i.memoria.size >>= λ r.
          some (responder_memread i.memoria.size r))
      else if op == codigo_operacion OperacionMate.memwrite
      then (m.memory_memwrite s i.pid i.memoria.addr i.memoria.size i.memoria.valor >>= λ r.
          some (responder mate_write_ok mate_write_fault r))
      else if op == codigo_tipo Tipo.finalizacion
      then (m.memory_memfree_all s i.pid >>= λ r. some (responder mate_end_ok mate_end_fault r))
      else some (s, [])

  unfoldable pub server_procesar_mensaje : Estado → MateInstance → Option (Estado × List ℕ)
  unfolding procesar_memoria
  server_procesar_mensaje s i =
      if i.tipo == codigo_tipo Tipo.memoria
      then procesar_memoria s i
      else some (s, bytes_u32 (negativo 10))

-- recv of an int and of as many bytes, into a block of malloc(unTamanio + sizeof(int)): a negative
-- one gives no block that can hold them.
abbrev pub recibir_leido : List ℕ → Option (List ℕ × List ℕ)
recibir_leido bytes = do
  (tamanio, resto) ← recibir_int bytes
  (leido, resto') ← if leb 2147483648 tamanio then none else recibir tamanio resto
  some (bytes_u32 tamanio ++ leido, resto')

-- What serializar_instancia receives for an operation of memory: the kernel from the memory process,
-- and the library from the kernel. The kernel sends it on.
unfoldable pub recibir_respuesta : MateInstance → List ℕ → Option (List ℕ × List ℕ)
recibir_respuesta i bytes =
    if i.memoria.tipo_op == codigo_operacion OperacionMate.memread
    then recibir_leido bytes
    else recibir 4 bytes

-- The state of the memory process, and the bytes that it has sent to the kernel and that wait to be
-- received.
abbrev pub Conexion : OperacionesMemoria → Type 0
Conexion m = m.Estado × List ℕ

-- One request of a process, through the kernel to the memory process, and the answer back to it.
unfoldable pub consultar :
    (m : OperacionesMemoria) → Conexion m → MateInstance → Option (Conexion m × List ℕ)
consultar m (s, pendiente) i = do
  enviado ← serializar_instancia i
  (en_kernel, r1) ← recibir_mensaje enviado
  reenviado ← serializar_instancia en_kernel
  (en_memoria, r2) ← recibir_mensaje reenviado
  (s', respuesta) ← server_procesar_mensaje m s en_memoria
  (del_kernel, pendiente') ← recibir_respuesta en_kernel (pendiente ++ respuesta)
  (recibido, r4) ← recibir_respuesta i del_kernel
  some ((s', pendiente'), recibido)

-- The instance of finalizacionCarpincho; 4 is PROCESS_ENDED, and 5 the state FINISHED.
abbrev pub instancia_final : SinIniciar → ℕ → MateInstance
instancia_final b pid =
    let i = mate_init b pid in
    record i {
      tipo = codigo_tipo Tipo.memoria;
      estado = 5;
      memoria = record (i.memoria) { tipo_op = 4 };
    }

-- The kernel tells the memory process that a process has ended, and receives nothing.
unfoldable pub finalizacion_carpincho :
    (m : OperacionesMemoria) → SinIniciar → Conexion m → ℕ → Option (Conexion m)
unfolding mate_init
finalizacion_carpincho m b (s, pendiente) pid = do
  enviado ← serializar_instancia (instancia_final b pid)
  (en_memoria, r) ← recibir_mensaje enviado
  (s', respuesta) ← server_procesar_mensaje m s en_memoria
  some (s', pendiente ++ respuesta)

-- What the functions of the library return for it. mate_memread returns no more than a code.
unfoldable pub resultado_memalloc : List ℕ → Option ℕ
resultado_memalloc bytes = recibir_int bytes >>= λ r. some r.0

unfoldable pub resultado_memread : List ℕ → Option ℤ
resultado_memread bytes =
    recibir_int bytes >>= λ r. some (if ltb 0 r.0 && ltb r.0 2147483648 then pos 0 else negsuc 0)

unfoldable pub resultado_memwrite : List ℕ → Option ℤ
resultado_memwrite bytes =
    recibir_int bytes >>= λ r. some (if not (r.0 == 0) then pos 0 else negsuc 0)

module _ (m : OperacionesMemoria) where
  -- The whole functions of the library: the request, the answer and what they return.
  unfoldable pub llamar_memalloc : Conexion m → MateInstance → ℕ → Option (Conexion m × ℕ)
  unfolding mate_memalloc consultar resultado_memalloc
  llamar_memalloc s i size = do
    (s', recibido) ← consultar m s (mate_memalloc i size)
    direccion ← resultado_memalloc recibido
    some (s', direccion)

  unfoldable pub llamar_memread : Conexion m → MateInstance → ℕ → ℕ → Option (Conexion m × ℤ)
  unfolding mate_memread consultar resultado_memread
  llamar_memread s i origin size = do
    (s', recibido) ← consultar m s (mate_memread i origin size)
    result ← resultado_memread recibido
    some (s', result)

  unfoldable pub llamar_memwrite :
      Conexion m → MateInstance → List ℕ → ℕ → ℕ → Option (Conexion m × ℤ)
  unfolding mate_memwrite consultar resultado_memwrite
  llamar_memwrite s i origin dest size = do
    pedido ← mate_memwrite i origin dest size
    (s', recibido) ← consultar m s pedido
    result ← resultado_memwrite recibido
    some (s', result)
