-- ===== src/Mensajes/Serializar.antt =====
-- serializar_instancia of matelib/src/matelib.c and of kernel/src/kernel.c, and deserializar_instancia
-- of kernel/src/kernel.c and of memoria/src/server.c: the bytes of an instance.
use exitos_con_esto.Prelude.{
  ℕ, ◌+◌, ◌*◌, List, ◌∷◌, ◌++◌, length, take, drop, Option, none, some, leb, ◌==◌, if◌then◌else◌,
  ◌>>=◌, u32,
}
use exitos_con_esto.Memoria.Metadatos.{bytes_u32}
use exitos_con_esto.Mensajes.Instancia.{MateInstance, leer_bloque}

-- The size of the block for the message.
unfoldable pub tamanio_mensaje : MateInstance → ℕ
tamanio_mensaje i =
    u32
      (i.nombre_io.longitud + i.memoria.size + 4 + 6 * 4 + 4 + 4 + 4 + 4 + 4 + 4 + i.sema.longitud)

abbrev pub codigo_process : ℕ
codigo_process = 1

-- The bytes in the order of the copies.
abbrev pub mensaje : MateInstance → List ℕ → List ℕ → List ℕ → List ℕ
mensaje i nombre_sem valor nombre =
    bytes_u32 codigo_process
    ++ (bytes_u32 i.tipo
        ++ (bytes_u32 i.sema.operacion
            ++ (bytes_u32 i.sema.longitud
                ++ (bytes_u32 i.sema.valor
                    ++ (nombre_sem
                        ++ (bytes_u32 i.pid
                            ++ (bytes_u32 i.estado
                                ++ (bytes_u32 i.memoria.size
                                    ++ (valor
                                        ++ (bytes_u32 i.memoria.addr
                                            ++ (bytes_u32 i.memoria.tipo_op
                                                ++ (bytes_u32 i.nombre_io.longitud
                                                    ++ nombre))))))))))))

unfoldable pub serializar_instancia : MateInstance → Option (List ℕ)
unfolding leer_bloque
serializar_instancia i = do
  nombre_sem ← leer_bloque i.sema.nombre_sem i.sema.longitud
  valor ← leer_bloque i.memoria.valor i.memoria.size
  nombre ← leer_bloque i.nombre_io.nombre i.nombre_io.longitud
  some (mensaje i nombre_sem valor nombre)

-- recv with MSG_WAITALL on the bytes that have come; `none` if they are too few.
unfoldable pub recibir : ℕ → List ℕ → Option (List ℕ × List ℕ)
recibir n bytes = if leb n (length bytes) then some (take n bytes, drop n bytes) else none

unfoldable pub recibir_int : List ℕ → Option (ℕ × List ℕ)
recibir_int (a ∷ b ∷ c ∷ d ∷ bytes) = some (a + 256 * b + 65536 * c + 16777216 * d, bytes)
recibir_int bytes = none

unfoldable pub deserializar_instancia : List ℕ → Option (MateInstance × List ℕ)
deserializar_instancia b0 = do
  (tipo, b1) ← recibir_int b0
  (operacion, b2) ← recibir_int b1
  (longitud_sem, b3) ← recibir_int b2
  (valor_sem, b4) ← recibir_int b3
  (nombre_sem, b5) ← recibir longitud_sem b4
  (pid, b6) ← recibir_int b5
  (estado, b7) ← recibir_int b6
  (size, b8) ← recibir_int b7
  (valor, b9) ← recibir size b8
  (addr, b10) ← recibir_int b9
  (tipo_op, b11) ← recibir_int b10
  (longitud, b12) ← recibir_int b11
  (nombre, b13) ← recibir longitud b12
  some (
    record {
      sema = record {
        operacion = operacion;
        nombre_sem = nombre_sem;
        longitud = longitud_sem;
        valor = valor_sem;
      };
      pid = pid;
      estado = estado;
      nombre_io = record { nombre = nombre; longitud = longitud };
      memoria = record { size = size; addr = addr; tipo_op = tipo_op; valor = valor };
      tipo = tipo;
    },
    b13,
  )

-- recibir_operacion, and the instance behind a code that is 1.
unfoldable pub recibir_mensaje : List ℕ → Option (MateInstance × List ℕ)
recibir_mensaje bytes = do
  (cod_op, resto) ← recibir_int bytes
  if cod_op == codigo_process then deserializar_instancia resto else none
