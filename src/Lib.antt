-- ===== src/Lib.antt =====
-- exitosConEsto: an operating system of four processes that talk through sockets.
--
-- kernel plans the processes (carpinchos), memoria gives them memory in pages, swamp-v2 keeps the
-- pages that do not fit in files, and matelib is what a carpincho links against. A carpincho calls
-- matelib, which sends the call to the kernel or to memoria; memoria asks swamp-v2 whether a process
-- may take more pages, and sends and fetches pages.
--
-- Prelude: numbers, lists by native numbers, signed integers, failure as Option.
-- Memoria (memoria/src/memory.c, memory.h): the heap of a process. Datos has the structs; Allocs the
--   searches in the list of blocks; Metadatos the bytes of the metadata and how they are split over
--   pages; Memalloc the choice of a strategy and the three ways to place a block; Carpinchos the
--   list of processes and memory_memalloc; Memfree memory_memfree and the compaction; Direcciones
--   the validation of addresses and memory_memwrite; Procesos has the theorems on the list of
--   processes; Tlb the TLB, with its theorems in Tlb/Entrar and Tlb/Reemplazo. Bloques has the
--   lemmas on lists of blocks, Invariante the heap invariant HeapValido and what keeps it,
--   Invariante/Alcance which addresses memory_memwrite writes, Escrituras the metadata writes, Pruebas
--   the examples.
-- Mensajes (matelib/src/matelib.c, matelib.h, memoria/src/server.c, server.h, and serializar_instancia
--   and finalizacionCarpincho of kernel/src/kernel.c): Instancia has the instance of a process and
--   what each function of the library writes to it, Serializar the message, Servidor the dispatch of
--   the memory process and the way of a request and its answer through the kernel. IdaVuelta and
--   Consulta have the theorems, Pruebas the examples. The operations of memory.c are an interface
--   there (OperacionesMemoria), with no laws.
-- Memoria, the frames (memoria/src/memory.c, and lectura_swamp of memoria/src/client.c): Marcos has
--   the frame list and the globals, Cache the main memory, Reloj the clock algorithm, Swampear the
--   replacement of a page, Paginas create_pagina, obtener_marco_para_pagina, leer_en_pagina,
--   escribir_en_pagina and vaciar_pagina. Coherencia has the agreement of the frames and the TLB and
--   what keeps it, Cuentas its lemmas, Reloj/Elegida and Reloj/Encuentra the theorems on the clock,
--   Cache/IdaVuelta those on the bytes. Lecturas has memory_memread, and memory_memwrite with its
--   writes done in the frames; Lecturas/Escribir joins them, with Coherencia/Forma and
--   Coherencia/Conserva for what a write leaves as it was. PruebasPaginas, PruebasVuelve,
--   PruebasReleer and PruebasLecturas have the examples. memory_memalloc and memory_memfree ask for
--   pages through Paginador and give their writes of metadata as a list of escribir_en_pagina calls.
-- Swamp (swamp-v2/src/swamp.c, swamp.h): Estado has the structs and the state; Marcos the frame
--   list; Archivos the files and the process table; Operaciones the requests and
--   server_procesar_mensaje. Disposicion, Espacio, Guardado, Grabado, IdaVuelta and Fallas have the
--   theorems, Pruebas the examples.
-- Kernel (kernel/src/kernel.c, utils.h): Estado has the process, the semaphores and the queues;
--   Semaforos the named semaphores; Colas the moves of processes between queues; Planificadores a
--   round of each thread. Semaforos/Tabla, Poblacion, Rondas, Eleccion and Despertar have the
--   theorems, Pruebas the examples.
--
-- Conventions. `none` is a fault: a null pointer is read, memory is read or written out of its
-- bounds, or a function ends without a value; a recv of more bytes than come is `none` as well.
-- Pointers have 32 bits, which the casts of matelib need. A t_list is a List, list_get out of
-- range is `none`, and a pointer into a list is an index. uint32_t arithmetic wraps (u32,
-- sub_u32); a size is a number below 2^31, where int and uint32_t agree, and the overflow of a
-- signed int is not modelled. Output, sleeps and locks are left out, and so is the debug output of
-- the swap process. A page size of 0 is not modelled.
--
-- Where the model is coarser than the code: obtener_cant_archivos copies the text of the configuration
-- without its 0 into a fresh block of 200 bytes before it splits it, and the model splits the text
-- itself. memory_memwrite copies `size` bytes of the value, and the model takes what there is of a
-- value that is shorter. suspendidoAListo goes on with a null process when the queue is empty, which
-- is a fault at once here. A write past the size of a swap file is a fault, also where the mapping is
-- rounded up to a page of the machine.
--
-- Parameters: the frame side of create_pagina (Paginador: what the new page is, and that its
-- number is the count of pages plus one), list_sort (Ordenar, with its laws in Tlb/Reemplazo,
-- Coherencia/Cargar and Coherencia/Crear), the swap process as the memory process sees it (Swamp
-- and Swap), the operations of memory.c as the server calls them (OperacionesMemoria), what malloc
-- leaves in fresh memory, the C floats (Flotante, with an order in Eleccion), and the measured
-- times of the kernel, which are one function for all comparisons of a round. A removal out of range
-- of a t_list is a fault.
--
-- Fuel: the compaction loop of memory_memfree has as many rounds as there are blocks, and two
-- more; Memoria.Invariante shows that two rounds are enough. obtener_marco_para_pagina calls
-- itself after it has emptied an entry of the TLB: it has as many rounds as there are entries, and
-- one more; Memoria.Coherencia.Obtener shows that it never calls itself in a coherent state.
--
-- Not modelled: the deadlock detection of the kernel and its flags uso and planificacion, the
-- sockets, configuration, signals, and the dumps. The integer answers of the semaphore and device
-- functions of matelib are passed on as they come.
pub mod Prelude
pub mod Memoria
pub mod Swamp
pub mod Kernel
pub mod Mensajes
