-- ===== src/Memoria/Pruebas.antt =====
-- A heap of two pages, one frame allocator, and runs of memoria/src/memory.c on them.
use exitos_con_esto.Prelude.{
  ℕ, zero, suc, ◌+◌, ◌*◌, ◌<◌, ◌≤◌, ◌≡◌, refl, sym, ap, All, true, false, List, [], ◌∷◌, Option,
  none, some, arith, length, inl, get_elem?, pos, pos_part, u32,
}
use exitos_con_esto.Memoria.Datos.{Alloc, Carpincho, Config, Pagina, direccion_invalida, exito}
use exitos_con_esto.Memoria.Allocs.{
  calcular_cantidad_paginas_necesaria, espacio_ocupado, obtener_alloc_de_un_carpincho,
  primer_libre_con_espacio,
}
use exitos_con_esto.Memoria.Metadatos.{Escritura, get_page, persistir_metadata_heap}
use exitos_con_esto.Memoria.Memalloc.{
  Paginador, Swamp, check_alloc, colocar, memalloc_asignar_en_heap_libre, truncar,
}
use exitos_con_esto.Memoria.Carpinchos.{
  Carpinchos, Respuesta, get_carpincho, memalloc_con, memory_memalloc,
}
use exitos_con_esto.Memoria.Memfree.{compactar_todo, liberar, memory_memfree}
use exitos_con_esto.Memoria.Bloques.Unir.{Contiguos}
use exitos_con_esto.Memoria.Bloques.Liberar.{Libera, liberar-Libera}
use exitos_con_esto.Memoria.Escrituras.{PaginasNumeradas}
use exitos_con_esto.Memoria.Invariante.{HeapValido, compactar_todo-HeapValido}
use exitos_con_esto.Memoria.Invariante.Memfree.{memfree_exito, memfree_rechaza}
use exitos_con_esto.Memoria.Invariante.Memalloc.{calcular_cantidad_paginas_necesaria-minima}
use exitos_con_esto.Memoria.Invariante.Truncar.{truncar_desordena}
use exitos_con_esto.Memoria.Invariante.Estrategia.{Estrategia, check_alloc-Estrategia}
use exitos_con_esto.Memoria.Invariante.Pedido.{Pedible, memory_memalloc-All}

abbrev config : Config
config = record { tamanio_pagina = 32; marcos_por_carpincho = 4; fija = false }

abbrev pagina_numero : ℕ → Pagina
pagina_numero n = record {
  marco = pos n;
  carpincho_pid = 7;
  pagina = n;
  bit_presencia = true;
  bit_de_uso = false;
  bit_de_modificacion = false;
  carp_num = 1;
  timestamp = 0;
}

abbrev bloque_libre : Alloc
bloque_libre = record { direccion = 0; is_free = true; tamanio_data = 30 }

abbrev bloque_usado : Alloc
bloque_usado = record { direccion = 39; is_free = false; tamanio_data = 4 }

abbrev bloques : List Alloc
bloques = bloque_libre ∷ bloque_usado ∷ []

abbrev carpincho : Carpincho
carpincho = record {
  pid = 7;
  tlb_hits = 0;
  tlb_miss = 0;
  algoritm_stack_pointer = 0;
  paginas = pagina_numero 1 ∷ pagina_numero 2 ∷ [];
  allocs = bloques;
  numero = 1;
}

valido : HeapValido config carpincho
unfolding espacio_ocupado
valido = record {
  contiguos = (refl, (refl, tt));
  separados = (refl, (refl, tt));
  capacidad = omega arith;
  acotado = omega arith;
}

numeradas : PaginasNumeradas carpincho
unfolding get_page
numeradas zero h = (pagina_numero 1, refl)
numeradas (suc zero) h = (pagina_numero 2, refl)
numeradas (suc (suc i)) h = absurd (omega (arith, h))

abbrev ocupar : ℕ → Carpincho → Option (ℕ × Pagina)
ocupar m c = some (m + 1, pagina_numero (length c.paginas + 1))

ocupar_numero :
    (m m' : ℕ) (c : Carpincho) (p : Pagina)
    → ocupar m c ≡ some (m', p)
    → p.pagina ≡ length c.paginas + 1
ocupar_numero m m' c p e = sym (ap numero e)
  where
    numero : Option (ℕ × Pagina) → ℕ
    numero none = 0
    numero (some (n, q)) = q.pagina

-- Frames are counted, and the n-th page gets the next of them.
abbrev paginador : Paginador
paginador = record { Marcos = ℕ; ocupar_marco = ocupar; ocupar_marco_numero = ocupar_numero }

abbrev permite : Swamp
permite = λ pid n. true

abbrev procesos : Carpinchos
procesos = record { lista = carpincho ∷ []; contador = 1 }

abbrev otra_respuesta : Respuesta ℕ
otra_respuesta = record {
  carpinchos = procesos;
  marcos = 0;
  status = exito;
  direccion = none;
  escrituras = [];
}

abbrev valor {ℓ} : {A : Type ℓ} → Option A → A → A
valor none d = d
valor (some a) d = a

pedible : (c : Carpincho) → get_carpincho procesos 7 ≡ some c → Pedible c 10
unfolding get_carpincho primer_libre_con_espacio espacio_ocupado
pedible c e = let q : carpincho ≡ c = cc in rw (sym q) heap
  where
    heap : Pedible carpincho 10
    heap = (omega arith, λ k a f. inl (ground arith))

memory_memalloc-All_example :
    All
      (HeapValido config)
      (valor
        (memory_memalloc paginador config permite procesos 0 7 10)
        otra_respuesta).carpinchos.lista
unfolding memory_memalloc memalloc_con get_carpincho colocar check_alloc
    memalloc_asignar_en_heap_libre persistir_metadata_heap obtener_alloc_de_un_carpincho
memory_memalloc-All_example =
    memory_memalloc-All paginador config permite procesos 0 7 10
      (valor (memory_memalloc paginador config permite procesos 0 7 10) otra_respuesta)
      (omega arith) (omega arith) pedible (valido, tt) refl

memfree_exito_example :
    (c' : Carpincho) × (es : List Escritura) × (memory_memfree config carpincho 48
      ≡ some (c', exito, es))
    × HeapValido config c'
memfree_exito_example =
    memfree_exito config carpincho 1 bloque_usado (omega arith) (omega arith) (omega arith) valido
      numeradas refl refl (omega arith)

memfree_rechaza_example :
    memory_memfree config carpincho 9 ≡ some (carpincho, direccion_invalida, [])
memfree_rechaza_example = memfree_rechaza config carpincho 9 libres
  where
    libres :
        (i : ℕ) (a : Alloc)
        → get_elem? bloques i ≡ some a
        → u32 (a.direccion + 9) ≡ 9
        → a.is_free ≡ true
    libres zero a e d = let q : bloque_libre ≡ a = cc in ap (λ x. x.is_free) (sym q)
    libres (suc zero) a e d =
        let q : bloque_usado ≡ a = cc in
        let d' : u32 48 ≡ 9 = rw (sym q) at d in absurd (omega (arith, d'))
    libres (suc (suc i)) a e d = cc

compactar_todo-HeapValido_example :
    (c' : Carpincho) × (compactar_todo 4 config carpincho ≡ some c') × HeapValido config c'
compactar_todo-HeapValido_example =
    compactar_todo-HeapValido config carpincho 2 (omega arith) (omega arith) valido

check_alloc-Estrategia_example :
    Estrategia config permite carpincho 10 (check_alloc config permite carpincho 10)
check_alloc-Estrategia_example = check_alloc-Estrategia config permite carpincho 10

calcular_cantidad_paginas_necesaria-minima_example :
    let n = pos_part (calcular_cantidad_paginas_necesaria config (pos 12) 40) in
    (40 + 9 ≤ 12 + n * 32) × (12 + n * 32 < 40 + 9 + 32)
calcular_cantidad_paginas_necesaria-minima_example =
    calcular_cantidad_paginas_necesaria-minima config 12 40 (omega arith) (omega arith)

abbrev segundo_libre : List Alloc
segundo_libre =
    record { direccion = 0; is_free = false; tamanio_data = 4 }
    ∷ record { direccion = 13; is_free = true; tamanio_data = 42 }
    ∷ []

truncar_desordena_example :
    ¬ Contiguos 0
      (truncar segundo_libre 1 (record { direccion = 13; is_free = true; tamanio_data = 42 }) 10).0
unfolding espacio_ocupado
truncar_desordena_example =
    truncar_desordena segundo_libre 0 10
      (record { direccion = 13; is_free = true; tamanio_data = 42 }) (refl, (refl, tt))
      (omega arith) refl (omega arith)

liberar-Libera_example : Libera false 0 bloques (liberar bloques 1 bloque_usado).0
liberar-Libera_example =
    liberar-Libera bloques 0 1 bloque_usado refl refl (refl, (refl, tt)) (refl, (refl, tt))
