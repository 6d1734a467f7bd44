-- ===== src/Memoria/Coherencia/Alcanzable.antt =====
-- The states that the page operations of memoria/src/memory.c reach from the start of the program.
use exitos_con_esto.Prelude.{
  ℕ, zero, suc, ◌<◌, ◌≡◌, refl, Bool, List, [], Option, some, arith, ℤ, pos, replicate,
}
use exitos_con_esto.Memoria.Datos.{Pagina}
use exitos_con_esto.Memoria.Carpinchos.{create_carpincho}
use exitos_con_esto.Memoria.Tlb.{crear_items, create_tlb}
use exitos_con_esto.Memoria.Marcos.{
  Globales, Marco, Opciones, Swap, create_marcos, get_amount_marcos,
}
use exitos_con_esto.Memoria.Paginas.{
  create_pagina, escribir_en_pagina, leer_en_pagina, obtener_marco_para_pagina, vaciar_pagina,
}
use exitos_con_esto.Memoria.Cuentas.{Cumple-eq, cuenta}
use exitos_con_esto.Memoria.Coherencia.{Coherente, MarcosBien, Ubicada, en_marco, miente}
use exitos_con_esto.Memoria.Coherencia.Cargar.{Cuenta}
use exitos_con_esto.Memoria.Coherencia.Operaciones.{obtener_marco_para_pagina-Hallada}
use exitos_con_esto.Memoria.Coherencia.Accesos.{
  escribir_en_pagina-Coherente, leer_en_pagina-Coherente, vaciar_pagina-Coherente,
}
use exitos_con_esto.Memoria.Coherencia.Crear.{Elementos, create_pagina-Coherente}

-- inicializarMemoria, with what malloc leaves in the entries of the TLB and the state of the swap
-- process.
unfoldable pub inicializar_memoria : {Sw : Type 0} → Opciones → (ℕ → ℕ) → Sw → Globales Sw
unfolding create_marcos get_amount_marcos create_tlb
inicializar_memoria o fresco swap = record {
  carpinchos = record { lista = []; contador = 0 };
  marcos = create_marcos 0 (get_amount_marcos o);
  cache = replicate o.tamanio 95;
  tlb = create_tlb o.tlb_lru fresco 0 o.cantidad_entradas_tlb;
  contador_timestamp = 0;
  algoritm_stack_pointer = 0;
  tlb_hits_totales = 0;
  tlb_miss_totales = 0;
  swap = swap;
}

create_marcos-MarcosBien : (k n : ℕ) → MarcosBien k (create_marcos k n)
unfolding create_marcos
create_marcos-MarcosBien k zero = tt
create_marcos-MarcosBien k (suc n) = (refl, λ h. refl, create_marcos-MarcosBien (suc k) n)

crear_items-veraz :
    (ms : List Marco) (lru : Bool) (fresco : ℕ → ℕ) (i contador n : ℕ)
    → cuenta (miente ms) (crear_items lru fresco i contador n) ≡ 0
unfolding crear_items
crear_items-veraz ms lru fresco i contador zero = refl
crear_items-veraz ms lru fresco i contador (suc n) =
    omega (arith, crear_items-veraz ms lru fresco (suc i) (suc contador) n)

crear_items_sin_marcos :
    (j : ℕ) (lru : Bool) (fresco : ℕ → ℕ) (i contador n : ℕ)
    → cuenta (en_marco (pos j)) (crear_items lru fresco i contador n) ≡ 0
unfolding crear_items
crear_items_sin_marcos j lru fresco i contador zero = refl
crear_items_sin_marcos j lru fresco i contador (suc n) =
    omega (arith, crear_items_sin_marcos j lru fresco (suc i) (suc contador) n)

inicializar_memoria-Coherente :
    {Sw : Type 0} (o : Opciones) (fresco : ℕ → ℕ) (swap : Sw)
    → let s = inicializar_memoria o fresco swap in Coherente s.marcos s.tlb.items
unfolding inicializar_memoria
inicializar_memoria-Coherente o fresco swap = record {
  bien = create_marcos-MarcosBien 0 (get_amount_marcos o);
  veraz = crear_items-veraz _ o.tlb_lru fresco 0 0 o.cantidad_entradas_tlb;
  unicos =
      λ j. omega (arith, crear_items_sin_marcos j o.tlb_lru fresco 0 0 o.cantidad_entradas_tlb);
}

module _ (swap : Swap) (o : Opciones) where
  open swap use {Estado}

  -- An operation that does not fault. The pages are numbered from 1 on.
  pub data Paso (s : Globales Estado) (s' : Globales Estado) : Type 0 where
    entra :
        (pid : ℕ) → s' ≡ record s { carpinchos = (create_carpincho s.carpinchos pid).0 } → Paso s s'
    crea : (pid : ℕ) (p : Pagina) → create_pagina swap o pid s ≡ some (s', p) → Paso s s'
    lee :
        (pid pagina tamanio offset : ℕ) (r : Option (List ℕ))
        → 0 < pagina
        → leer_en_pagina swap o pid pagina tamanio offset s ≡ some (s', r)
        → Paso s s'
    escribe :
        (pid pagina : ℕ) (buffer : List ℕ) (offset : ℕ) (r : ℤ)
        → 0 < pagina
        → escribir_en_pagina swap o pid pagina buffer offset s ≡ some (s', r)
        → Paso s s'
    vacia : (pid pagina n : ℕ) → vaciar_pagina o pid pagina s ≡ some (s', n) → Paso s s'

  pub data Alcanzable : Globales Estado → Type 0 where
    inicio : (fresco : ℕ → ℕ) (e : Estado) → Alcanzable (inicializar_memoria o fresco e)
    luego : (s s' : Globales Estado) → Alcanzable s → Paso s s' → Alcanzable s'

  module _ (cuentas : Cuenta o.ordenar_tlb) (elementos : Elementos o.ordenar_marcos) where
    Paso-Coherente :
        (s s' : Globales Estado)
        → Coherente s.marcos s.tlb.items
        → Paso s s'
        → Coherente s'.marcos s'.tlb.items
    Paso-Coherente s s' c (Paso.entra pid e) = rw e c
    Paso-Coherente s s' c (Paso.crea pid p e) =
        Cumple-eq _ _ (s', p) (create_pagina-Coherente swap o cuentas elementos pid s c) e
    Paso-Coherente s s' c (Paso.lee pid pagina tamanio offset r h e) =
        Cumple-eq _ _ (s', r)
          (leer_en_pagina-Coherente swap o cuentas pid pagina h tamanio offset s c) e
    Paso-Coherente s s' c (Paso.escribe pid pagina buffer offset r h e) =
        Cumple-eq _ _ (s', r)
          (escribir_en_pagina-Coherente swap o cuentas pid pagina h buffer offset s c) e
    Paso-Coherente s s' c (Paso.vacia pid pagina n e) =
        Cumple-eq _ _ (s', n) (vaciar_pagina-Coherente o pid pagina s c) e

    -- If the sorts keep their elements, then in every state that is reached from the start by new
    -- processes, create_pagina, reads, writes and vaciar_pagina the frames are numbered in order,
    -- a free frame holds no page, no entry of the TLB names a frame that does not hold its page,
    -- and no frame stands in two entries.
    pub Alcanzable-Coherente : (s : Globales Estado) → Alcanzable s → Coherente s.marcos s.tlb.items
    Alcanzable-Coherente _ (Alcanzable.inicio fresco e) = inicializar_memoria-Coherente o fresco e
    Alcanzable-Coherente _ (Alcanzable.luego s s' a p) =
        Paso-Coherente s s' (Alcanzable-Coherente s a) p

    -- If the sorts keep their elements, then in every state that is reached from the start by new
    -- processes, create_pagina, reads, writes and vaciar_pagina, where obtener_marco_para_pagina
    -- of a page number from 1 on does not fault, it gives -1 or a frame that is not free and holds
    -- the page.
    pub obtener_marco_para_pagina-Ubicada :
        (s s' : Globales Estado) (pid pagina : ℕ) (marco : ℤ)
        → Alcanzable s
        → 0 < pagina
        → obtener_marco_para_pagina swap o pid pagina s ≡ some (s', marco)
        → Ubicada s'.marcos marco pid pagina
    obtener_marco_para_pagina-Ubicada s s' pid pagina marco a h e =
        (Cumple-eq _ _ (s', marco)
          (obtener_marco_para_pagina-Hallada swap o cuentas pid pagina h s
            (Alcanzable-Coherente s a))
          e).1
