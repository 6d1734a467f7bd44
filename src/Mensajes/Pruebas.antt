-- ===== src/Mensajes/Pruebas.antt =====
-- The requests of one process of matelib/src/matelib.c over a memory of a few bytes.
use exitos_con_esto.Prelude.{
  ℕ, ◌+◌, ◌≤◌, ◌≡◌, refl, List, [], ◌∷◌, ◌++◌, true, false, none, some, arith, leb, length, take,
  if◌then◌else◌, ◌>>=◌, pos,
}
use exitos_con_esto.Memoria.Metadatos.{bytes_u32}
use exitos_con_esto.Mensajes.Instancia.{
  MateInstance, SinIniciar, con_escritura, leer_bloque, mate_init, mate_memalloc, mate_memread,
  mate_sem_init,
}
use exitos_con_esto.Mensajes.Serializar.{
  mensaje, recibir_mensaje, serializar_instancia, tamanio_mensaje,
}
use exitos_con_esto.Mensajes.IdaVuelta.{
  Palabras, con_bloques, length-serializar_instancia, recibir_mensaje-serializar_instancia,
}
use exitos_con_esto.Mensajes.Servidor.{
  OperacionesMemoria, finalizacion_carpincho, instancia_final, mate_end_ok, llamar_memalloc,
  llamar_memread, llamar_memwrite, recibir_respuesta, server_procesar_mensaje,
}
use exitos_con_esto.Mensajes.Consulta.{
  llamar_memalloc-finalizacion_carpincho, llamar_memalloc_lem, llamar_memread_rechazado,
  llamar_memwrite_lem, mate_memalloc-serializar_instancia,
}

abbrev sin_iniciar : SinIniciar
sin_iniciar = record {
  operacion = 0;
  nombre_sem = 0;
  valor_sem = 0;
  addr = 0;
  tipo_op = 0;
  valor = 0;
  nombre = 0;
}

-- A process with the semaphore "A".
abbrev carpincho : MateInstance
carpincho = mate_sem_init (mate_init sin_iniciar 7) (65 ∷ []) 2

-- A memory that keeps four bytes of the last write.
abbrev cuatro : OperacionesMemoria
cuatro = record {
  Estado = List ℕ;
  memory_memalloc = λ s pid size. some (s, if leb size 4 then some 9 else none);
  memory_memfree = λ s pid addr. some (s, true);
  memory_memread =
      λ s pid addr size. some (s, if leb size (length s) then some (take size s) else none);
  memory_memwrite =
      λ s pid addr size valor. some (if leb size 4 then (valor, true) else (s, false));
  memory_memfree_all = λ s pid. some (s, true);
}

abbrev enviado : List ℕ
enviado = mensaje carpincho (65 ∷ 0 ∷ []) (0 ∷ []) (0 ∷ [])

se_envia : serializar_instancia carpincho ≡ some enviado
unfolding mate_init mate_sem_init serializar_instancia
se_envia = refl

palabras : Palabras carpincho
unfolding mate_init mate_sem_init
palabras = record {
  tipo = omega arith;
  operacion = omega arith;
  longitud_sem = omega arith;
  valor_sem = omega arith;
  pid = omega arith;
  estado = omega arith;
  size = omega arith;
  addr = omega arith;
  tipo_op = omega arith;
  longitud = omega arith;
}

recibir_mensaje-serializar_instancia_example :
    (j : MateInstance) × (recibir_mensaje (enviado ++ 5 ∷ []) ≡ some (j, 5 ∷ []))
    × (serializar_instancia j ≡ some enviado)
    × (j
        ≡ con_bloques carpincho
            (take carpincho.sema.longitud carpincho.sema.nombre_sem)
            (take carpincho.memoria.size carpincho.memoria.valor)
            (take carpincho.nombre_io.longitud carpincho.nombre_io.nombre))
recibir_mensaje-serializar_instancia_example =
    recibir_mensaje-serializar_instancia carpincho enviado (5 ∷ []) palabras se_envia

length-serializar_instancia_example :
    (length enviado
      ≡ 44 + (carpincho.sema.longitud + carpincho.memoria.size + carpincho.nombre_io.longitud))
    × (length enviado ≤ tamanio_mensaje carpincho)
unfolding mate_init mate_sem_init
length-serializar_instancia_example =
    length-serializar_instancia carpincho enviado (omega arith) se_envia

-- The block of the value has one byte until the first write.
mate_memalloc-serializar_instancia_example : serializar_instancia (mate_memalloc carpincho 4) ≡ none
unfolding mate_init mate_sem_init
mate_memalloc-serializar_instancia_example =
    mate_memalloc-serializar_instancia carpincho 4 (omega arith)

abbrev pedido : List ℕ
pedido = mensaje (mate_memalloc carpincho 1) (65 ∷ 0 ∷ []) (0 ∷ []) (0 ∷ [])

se_pide : serializar_instancia (mate_memalloc carpincho 1) ≡ some pedido
unfolding mate_init mate_sem_init mate_memalloc serializar_instancia
se_pide = refl

memalloc-Palabras : Palabras (mate_memalloc carpincho 1)
unfolding mate_init mate_sem_init mate_memalloc
memalloc-Palabras = record {
  tipo = omega arith;
  operacion = omega arith;
  longitud_sem = omega arith;
  valor_sem = omega arith;
  pid = omega arith;
  estado = omega arith;
  size = omega arith;
  addr = omega arith;
  tipo_op = omega arith;
  longitud = omega arith;
}

llamar_memalloc_example : llamar_memalloc cuatro ([], []) carpincho 1 ≡ some (([], []), 9)
llamar_memalloc_example =
    llamar_memalloc_lem cuatro [] [] carpincho 1 (some 9) pedido memalloc-Palabras se_pide refl
      (omega arith)

-- Five bytes, which the memory refuses.
abbrev cinco : List ℕ
cinco = 1 ∷ 2 ∷ 3 ∷ 4 ∷ 5 ∷ []

abbrev escritura : List ℕ
escritura = mensaje (con_escritura carpincho cinco 9 5) (65 ∷ 0 ∷ []) cinco (0 ∷ [])

se_escribe : serializar_instancia (con_escritura carpincho cinco 9 5) ≡ some escritura
unfolding mate_init mate_sem_init serializar_instancia
se_escribe = refl

memwrite-Palabras : Palabras (con_escritura carpincho cinco 9 5)
unfolding mate_init mate_sem_init
memwrite-Palabras = record {
  tipo = omega arith;
  operacion = omega arith;
  longitud_sem = omega arith;
  valor_sem = omega arith;
  pid = omega arith;
  estado = omega arith;
  size = omega arith;
  addr = omega arith;
  tipo_op = omega arith;
  longitud = omega arith;
}

llamar_memwrite_example :
    llamar_memwrite cuatro ([], []) carpincho cinco 9 5 ≡ some (([], []), pos 0)
unfolding leer_bloque
llamar_memwrite_example =
    llamar_memwrite_lem cuatro [] [] carpincho cinco cinco 9 5 false escritura refl
      memwrite-Palabras se_escribe refl

abbrev lectura : List ℕ
lectura = mensaje (mate_memread carpincho 9 1) (65 ∷ 0 ∷ []) (0 ∷ []) (0 ∷ [])

se_lee : serializar_instancia (mate_memread carpincho 9 1) ≡ some lectura
unfolding mate_init mate_sem_init mate_memread serializar_instancia
se_lee = refl

memread-Palabras : Palabras (mate_memread carpincho 9 1)
unfolding mate_init mate_sem_init mate_memread
memread-Palabras = record {
  tipo = omega arith;
  operacion = omega arith;
  longitud_sem = omega arith;
  valor_sem = omega arith;
  pid = omega arith;
  estado = omega arith;
  size = omega arith;
  addr = omega arith;
  tipo_op = omega arith;
  longitud = omega arith;
}

-- Nothing is received behind the end of a process, and the answer is taken for the next one.
abbrev final : MateInstance
final = instancia_final sin_iniciar 3

final-Palabras : Palabras final
unfolding mate_init
final-Palabras = record {
  tipo = omega arith;
  operacion = omega arith;
  longitud_sem = omega arith;
  valor_sem = omega arith;
  pid = omega arith;
  estado = omega arith;
  size = omega arith;
  addr = omega arith;
  tipo_op = omega arith;
  longitud = omega arith;
}

llamar_memalloc-finalizacion_carpincho_example :
    (finalizacion_carpincho cuatro sin_iniciar ([], []) 3 >>= λ c.
    llamar_memalloc cuatro c carpincho 1)
    ≡ some (([], bytes_u32 9), mate_end_ok)
llamar_memalloc-finalizacion_carpincho_example =
    llamar_memalloc-finalizacion_carpincho cuatro sin_iniciar 3 [] [] [] true carpincho 1 (some 9)
      pedido final-Palabras refl memalloc-Palabras se_pide refl

llamar_memread_rechazado_example :
    (en_kernel : MateInstance) × (respuesta : List ℕ) × (recibir_mensaje lectura
      ≡ some (en_kernel, []))
    × (server_procesar_mensaje cuatro [] en_kernel ≡ some ([], respuesta))
    × (length respuesta ≡ 4)
    × ((resto : List ℕ) → recibir_respuesta en_kernel (respuesta ++ resto) ≡ none)
    × (llamar_memread cuatro ([], []) carpincho 9 1 ≡ none)
llamar_memread_rechazado_example =
    llamar_memread_rechazado cuatro [] [] carpincho 9 1 lectura memread-Palabras se_lee refl
