-- ===== src/Mensajes/Consulta.antt =====
-- What a process gets from the memory process through the kernel: the requests of matelib/src/
-- matelib.c, the kernel's serializar_instancia and server_procesar_mensaje together.
use exitos_con_esto.Prelude.{
  take-todo, append-nil, ℕ, ◌<◌, ◌≡◌, refl, sym, ◌∙◌, ap, inl, inr, Bool, true, false, List, [],
  ◌++◌, Option, none, some, arith, length, take, leb, Option-cases, if◌then◌else◌, ◌>>=◌, ℤ, pos,
}
use exitos_con_esto.Memoria.Metadatos.{bytes_u32}
use exitos_con_esto.Mensajes.Instancia.{
  MateInstance, SinIniciar, con_escritura, mate_init, leer_bloque, mate_memalloc, mate_memfree,
  mate_memread, mate_memwrite,
}
use exitos_con_esto.Mensajes.Serializar.{
  recibir, recibir_int, recibir_mensaje, serializar_instancia,
}
use exitos_con_esto.Mensajes.IdaVuelta.{
  Palabras, con_bloques, length-leer_bloque, palabra, recibir-append,
  recibir_mensaje-serializar_instancia,
}
use exitos_con_esto.Mensajes.Servidor.{
  Conexion, OperacionesMemoria, consultar, finalizacion_carpincho, instancia_final, mate_end_fault,
  mate_end_ok, llamar_memalloc, llamar_memread, llamar_memwrite, mate_alloc_fault, mate_free_fault,
  mate_free_ok, mate_read_fault, mate_write_fault, mate_write_ok, procesar_memoria, recibir_leido,
  recibir_respuesta, resultado_memalloc, resultado_memwrite, responder, responder_memalloc,
  server_procesar_mensaje,
}

-- The instance as it arrives.
abbrev pub recortada : MateInstance → MateInstance
recortada i =
    con_bloques i (take i.sema.longitud i.sema.nombre_sem) (take i.memoria.size i.memoria.valor)
      (take i.nombre_io.longitud i.nombre_io.nombre)

llega :
    (i : MateInstance) (bytes : List ℕ)
    → Palabras i
    → serializar_instancia i ≡ some bytes
    → (recibir_mensaje bytes ≡ some (recortada i, []))
      × (serializar_instancia (recortada i) ≡ some bytes)
llega i bytes p e =
    let (j, r, s, q) = recibir_mensaje-serializar_instancia i bytes [] p e in
    (
      ap recibir_mensaje (sym (append-nil bytes)) ∙ r ∙ ap (λ k. some (k, [])) q,
      ap serializar_instancia (sym q) ∙ s,
    )

recibir_leido-append :
    (size : ℕ) (leido : List ℕ)
    → length leido ≡ size
    → size < 2147483648
    → recibir_leido (bytes_u32 size ++ leido) ≡ some (bytes_u32 size ++ leido, [])
unfolding recibir_int
recibir_leido-append size leido n l =
    let a : leb 2147483648 size ≡ false = ground (arith, l) in
    let b : recibir size leido ≡ some (leido, []) =
      ap (recibir size) (sym (append-nil leido)) ∙ recibir-append size leido [] n in
    rw (palabra size (omega (arith, l))) (rw a (rw b refl))

module _ (m : OperacionesMemoria) where
  open m use {Estado}

  -- The answer back to the process, behind the bytes that wait.
  abbrev vuelve : List ℕ → MateInstance → Estado × List ℕ → Option (Conexion m × List ℕ)
  vuelve pendiente i r = do
    (del_kernel, pendiente') ← recibir_respuesta (recortada i) (pendiente ++ r.1)
    (recibido, r4) ← recibir_respuesta i del_kernel
    some ((r.0, pendiente'), recibido)

  -- The request arrives as it was sent.
  consultar-server_procesar_mensaje :
      (s : Estado) (pendiente : List ℕ) (i : MateInstance) (bytes : List ℕ)
      → Palabras i
      → serializar_instancia i ≡ some bytes
      → consultar m (s, pendiente) i
        ≡ (server_procesar_mensaje m s (recortada i) >>= vuelve pendiente i)
  unfolding consultar
  consultar-server_procesar_mensaje s pendiente i bytes p e =
      let (r, q) = llega i bytes p e in rw e (rw r (rw q (rw r refl)))

  abbrev pub direccion_o_error : Option ℕ → ℕ
  direccion_o_error none = mate_alloc_fault
  direccion_o_error (some direccion) = direccion

  -- If no bytes wait on the connection, the integers of the request are words, the request can be
  -- serialized, memory_memalloc returns, and its address, where it gives one, is a word, then
  -- mate_memalloc returns that address, or -4 as a word for a refusal, with the state that
  -- memory_memalloc leaves and no bytes waiting.
  pub llamar_memalloc_lem :
      (s s' : Estado) (i : MateInstance) (size : ℕ) (r : Option ℕ) (bytes : List ℕ)
      → Palabras (mate_memalloc i size)
      → serializar_instancia (mate_memalloc i size) ≡ some bytes
      → m.memory_memalloc s i.pid size ≡ some (s', r)
      → direccion_o_error r < 4294967296
      → llamar_memalloc m (s, []) i size ≡ some ((s', []), direccion_o_error r)
  unfolding llamar_memalloc mate_memalloc server_procesar_mensaje procesar_memoria recibir_respuesta
      recibir recibir_int resultado_memalloc
  llamar_memalloc_lem s s' i size r bytes p e h l =
      rw (consultar-server_procesar_mensaje s [] (mate_memalloc i size) bytes p e)
        (rw h (respuesta r l))
    where
      devuelto : Conexion m × List ℕ → Option (Conexion m × ℕ)
      devuelto x = resultado_memalloc x.1 >>= λ direccion. some (x.0, direccion)

      respuesta :
          (r : Option ℕ)
          → direccion_o_error r < 4294967296
          → (vuelve [] (mate_memalloc i size) (responder_memalloc m (s', r)) >>= devuelto)
            ≡ some ((s', []), direccion_o_error r)
      respuesta none l = refl
      respuesta (some d) l = ap (λ n. some ((s', []), n)) (palabra d l)

  -- mate_memfree
  pub consultar-mate_memfree :
      (s s' : Estado) (i : MateInstance) (addr : ℕ) (exito : Bool) (bytes : List ℕ)
      → Palabras (mate_memfree i addr)
      → serializar_instancia (mate_memfree i addr) ≡ some bytes
      → m.memory_memfree s i.pid addr ≡ some (s', exito)
      → consultar m (s, []) (mate_memfree i addr)
        ≡ some ((s', []), bytes_u32 (if exito then mate_free_ok else mate_free_fault))
  unfolding mate_memfree server_procesar_mensaje procesar_memoria recibir_respuesta recibir
  consultar-mate_memfree s s' i addr exito bytes p e h =
      rw (consultar-server_procesar_mensaje s [] (mate_memfree i addr) bytes p e) (rw h refl)

  -- If no bytes wait on the connection, the bytes to write are in the block of the caller, the
  -- integers of the request are words, the request can be serialized and memory_memwrite of these
  -- bytes returns, then mate_memwrite returns 0 whether memory_memwrite did the write or refused
  -- it, with the state that it leaves.
  pub llamar_memwrite_lem :
      (s s' : Estado) (i : MateInstance) (origin valor : List ℕ) (dest size : ℕ) (exito : Bool)
      (bytes : List ℕ)
      → leer_bloque origin size ≡ some valor
      → Palabras (con_escritura i valor dest size)
      → serializar_instancia (con_escritura i valor dest size) ≡ some bytes
      → m.memory_memwrite s i.pid dest size valor ≡ some (s', exito)
      → llamar_memwrite m (s, []) i origin dest size ≡ some ((s', []), pos 0)
  unfolding llamar_memwrite mate_memwrite server_procesar_mensaje procesar_memoria recibir_respuesta
      recibir recibir_int resultado_memwrite
  llamar_memwrite_lem s s' i origin valor dest size exito bytes a p e h = rw a (
      rw (consultar-server_procesar_mensaje s [] (con_escritura i valor dest size) bytes p e) (
        rw (take-todo size valor (length-leer_bloque origin size valor a))
          (rw h (respuesta exito))))
    where
      devuelto : Conexion m × List ℕ → Option (Conexion m × ℤ)
      devuelto x = resultado_memwrite x.1 >>= λ r. some (x.0, r)

      respuesta :
          (exito : Bool)
          → (vuelve []
                (con_escritura i valor dest size)
                (responder m mate_write_ok mate_write_fault (s', exito))
              >>= devuelto)
            ≡ some ((s', []), pos 0)
      respuesta true = refl
      respuesta false = refl

  -- mate_memread
  pub consultar-mate_memread :
      (s s' : Estado) (i : MateInstance) (origin size : ℕ) (leido bytes : List ℕ)
      → Palabras (mate_memread i origin size)
      → serializar_instancia (mate_memread i origin size) ≡ some bytes
      → m.memory_memread s i.pid origin size ≡ some (s', some leido)
      → length leido ≡ size
      → size < 2147483648
      → consultar m (s, []) (mate_memread i origin size) ≡ some ((s', []), bytes_u32 size ++ leido)
  unfolding mate_memread server_procesar_mensaje procesar_memoria recibir_respuesta
  consultar-mate_memread s s' i origin size leido bytes p e h n l =
      let r = recibir_leido-append size leido n l in
      rw (consultar-server_procesar_mensaje s [] (mate_memread i origin size) bytes p e)
        (rw h (rw r (rw r refl)))

  -- If no bytes wait on the connection, the integers of the request are words, the request can be
  -- serialized, and memory_memread refuses the read, then the request comes to the kernel, the
  -- memory process answers with 4 bytes, the kernel faults when it receives this answer, however
  -- many bytes follow it, and mate_memread gives no result.
  pub llamar_memread_rechazado :
      (s s' : Estado) (i : MateInstance) (origin size : ℕ) (bytes : List ℕ)
      → Palabras (mate_memread i origin size)
      → serializar_instancia (mate_memread i origin size) ≡ some bytes
      → m.memory_memread s i.pid origin size ≡ some (s', none)
      → (en_kernel : MateInstance) × (respuesta : List ℕ) × (recibir_mensaje bytes
          ≡ some (en_kernel, []))
        × (server_procesar_mensaje m s en_kernel ≡ some (s', respuesta))
        × (length respuesta ≡ 4)
        × ((resto : List ℕ) → recibir_respuesta en_kernel (respuesta ++ resto) ≡ none)
        × (llamar_memread m (s, []) i origin size ≡ none)
  unfolding llamar_memread mate_memread server_procesar_mensaje procesar_memoria recibir_respuesta
      recibir_int
  llamar_memread_rechazado s s' i origin size bytes p e h = (
    recortada (mate_memread i origin size),
    bytes_u32 mate_read_fault,
    (llega (mate_memread i origin size) bytes p e).0,
    rw h refl,
    refl,
    λ resto. refl,
    rw (consultar-server_procesar_mensaje s [] (mate_memread i origin size) bytes p e) (rw h refl),
  )

  -- If no bytes wait on the connection, the kernel tells the memory process the end of a process,
  -- memory_memfree_all returns, and then another process calls mate_memalloc, whose request can be
  -- serialized and for which memory_memalloc returns, then mate_memalloc returns the answer to the
  -- end, 9 or -9 as a word, and its own answer waits on the connection.
  pub llamar_memalloc-finalizacion_carpincho :
      (b : SinIniciar) (pid : ℕ) (s s1 s2 : Estado) (exito : Bool) (i : MateInstance) (size : ℕ)
      (r : Option ℕ) (bytes : List ℕ)
      → Palabras (instancia_final b pid)
      → m.memory_memfree_all s pid ≡ some (s1, exito)
      → Palabras (mate_memalloc i size)
      → serializar_instancia (mate_memalloc i size) ≡ some bytes
      → m.memory_memalloc s1 i.pid size ≡ some (s2, r)
      → (finalizacion_carpincho m b (s, []) pid >>= λ c. llamar_memalloc m c i size)
        ≡ some
            ((s2, bytes_u32 (direccion_o_error r)), if exito then mate_end_ok else mate_end_fault)
  unfolding finalizacion_carpincho llamar_memalloc mate_init mate_memalloc serializar_instancia
      leer_bloque server_procesar_mensaje procesar_memoria recibir_respuesta recibir recibir_int
      resultado_memalloc
  llamar_memalloc-finalizacion_carpincho b pid s s1 s2 exito i size r bytes w f p e h =
      let g = llega (instancia_final b pid) _ w refl in
      rw g.0 (
        rw f (
          rw (consultar-server_procesar_mensaje s1 (fin exito) (mate_memalloc i size) bytes p e)
            (rw h (respuesta exito r))))
    where
      fin : Bool → List ℕ
      fin exito = bytes_u32 (if exito then mate_end_ok else mate_end_fault)

      devuelto : Conexion m × List ℕ → Option (Conexion m × ℕ)
      devuelto x = resultado_memalloc x.1 >>= λ direccion. some (x.0, direccion)

      respuesta :
          (exito : Bool) (r : Option ℕ)
          → (vuelve (fin exito) (mate_memalloc i size) (responder_memalloc m (s2, r)) >>= devuelto)
            ≡ some (
              (s2, bytes_u32 (direccion_o_error r)),
              if exito then mate_end_ok else mate_end_fault,
            )
      respuesta true none = refl
      respuesta true (some d) = refl
      respuesta false none = refl
      respuesta false (some d) = refl

-- If the size asked for is larger than the block of the value of the instance, then the
-- serialization of the request of mate_memalloc reads past that block.
pub mate_memalloc-serializar_instancia :
    (i : MateInstance) (size : ℕ)
    → length i.memoria.valor < size
    → serializar_instancia (mate_memalloc i size) ≡ none
unfolding serializar_instancia mate_memalloc leer_bloque
mate_memalloc-serializar_instancia i size h =
    let l : leb size (length i.memoria.valor) ≡ false = ground (arith, h) in
    elim (Option-cases (leer_bloque i.sema.nombre_sem i.sema.longitud)) [
      | inl f ↦ rw f refl
      | inr (x, f) ↦ rw f (rw l refl)
    ]
