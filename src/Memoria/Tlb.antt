-- ===== src/Memoria/Tlb.antt =====
-- The TLB of memoria/src/memory.c. list_sort is an argument; `none` is a fault (a null pointer). The
-- calls of log_info without a logger are left out with the rest of the log.
pub mod Entrar
pub mod Reemplazo
pub mod Pruebas
use exitos_con_esto.Prelude.{
  ℕ, zero, suc, ◌+◌, Bool, true, false, ◌&&◌, ◌||◌, List, [], ◌∷◌, Option, none, some, leb, ltb,
  ◌==◌, if◌then◌else◌, ◌>>=◌, ℤ, negsuc, eq_ℤ, get_elem?, set,
}

-- memory.h: a pid of 0 is NULL, and marks a free entry.
pub record TlbItem : Type 0 where
  pub entrada : ℕ
  pub pid : ℕ
  pub pagina : ℕ
  pub marco : ℤ
  pub timestamp : ℕ

-- The globals tlb_list, tlb_fifo_pointer and contador_timestamp_tlb.
pub record Tlb : Type 0 where
  pub items : List TlbItem
  pub fifo_pointer : ℕ
  pub contador : ℕ

-- list_sort of the library, with the comparison that it calls.
abbrev pub Ordenar : Type 0
Ordenar = (TlbItem → TlbItem → Bool) → List TlbItem → List TlbItem

-- create_tlb from entry `i` on; without LRU the timestamps are what malloc leaves.
unfoldable pub crear_items : Bool → (ℕ → ℕ) → ℕ → ℕ → ℕ → List TlbItem
crear_items lru fresco i contador zero = []
crear_items lru fresco i contador (suc n) =
    record {
      entrada = i;
      pid = 0;
      pagina = 0;
      marco = negsuc 0;
      timestamp = if lru then contador else fresco i;
    }
    ∷ crear_items lru fresco (suc i) (suc contador) n

unfoldable pub create_tlb : Bool → (ℕ → ℕ) → ℕ → ℕ → Tlb
unfolding crear_items
create_tlb lru fresco contador n = record {
  items = crear_items lru fresco 0 contador n;
  fifo_pointer = 0;
  contador = if lru then contador + n else contador;
}

unfoldable pub is_marco_in_tlb : List TlbItem → ℤ → Bool
is_marco_in_tlb [] marco = false
is_marco_in_tlb (x ∷ xs) marco = eq_ℤ x.marco marco || is_marco_in_tlb xs marco

unfoldable pub pagina_is_in_tlb : List TlbItem → ℕ → ℕ → Bool
pagina_is_in_tlb [] pid pagina = false
pagina_is_in_tlb (x ∷ xs) pid pagina =
    (x.pid == pid && x.pagina == pagina) || pagina_is_in_tlb xs pid pagina

-- The position of get_next_free_tlb_item; there is one where any_tlb_item_is_free.
unfoldable pub get_next_free_tlb_item : List TlbItem → Option ℕ
get_next_free_tlb_item [] = none
get_next_free_tlb_item (x ∷ xs) =
    if x.pid == 0 then some 0 else (get_next_free_tlb_item xs >>= λ i. some (suc i))

abbrev pub menor_entrada : TlbItem → TlbItem → Bool
menor_entrada a b = ltb a.entrada b.entrada

abbrev pub menor_timestamp : TlbItem → TlbItem → Bool
menor_timestamp a b = ltb a.timestamp b.timestamp

-- The position of the entry that goes out, in the list as the search leaves it.
unfoldable pub proxima_pagina_a_sacar_tlb_by_lru : Ordenar → Tlb → Tlb × ℕ
unfolding get_next_free_tlb_item
proxima_pagina_a_sacar_tlb_by_lru ordenar t = elim (get_next_free_tlb_item t.items) [
  | some i ↦ (t, i)
  | none ↦ (record t { items = ordenar menor_timestamp (ordenar menor_entrada t.items) }, 0)
]

unfoldable pub proxima_pagina_a_sacar_tlb_by_fifo : Ordenar → ℕ → Tlb → Tlb × ℕ
unfolding get_next_free_tlb_item
proxima_pagina_a_sacar_tlb_by_fifo ordenar cantidad t = elim (get_next_free_tlb_item t.items) [
  | some i ↦ (t, i)
  | none ↦ (
    record t {
      items = ordenar menor_entrada t.items;
      fifo_pointer = if leb cantidad (t.fifo_pointer + 1) then 0 else t.fifo_pointer + 1;
    },
    t.fifo_pointer,
  )
]

unfoldable pub vaciar_pagina_tlb : List TlbItem → ℕ → Option (List TlbItem)
vaciar_pagina_tlb items i = get_elem? items i >>= λ x.
    some (set items i (record x { pid = 0; pagina = 0; marco = negsuc 0 }))

unfoldable pub cargar_pagina_pagina_tlb : Tlb → ℕ → ℕ → ℤ → Option Tlb
unfolding get_next_free_tlb_item
cargar_pagina_pagina_tlb t pid pagina marco = do
  i ← get_next_free_tlb_item t.items
  x ← get_elem? t.items i
  some (record t {
    items =
        set t.items i
          (record x { pid = pid; pagina = pagina; marco = marco; timestamp = t.contador });
    contador = t.contador + 1;
  })

-- The entry that goes out is emptied, and the page goes into the first free one.
unfoldable pub reemplazar_tlb : Tlb × ℕ → ℕ → ℕ → ℤ → Option Tlb
unfolding vaciar_pagina_tlb cargar_pagina_pagina_tlb
reemplazar_tlb r pid pagina marco = do
  items ← vaciar_pagina_tlb (r.0).items (r.1)
  cargar_pagina_pagina_tlb (record (r.0) { items = items }) pid pagina marco

-- Where the frame is in the TLB already, a page is passed for an entry: what follows is not defined.
unfoldable pub actualizar_tlb : Ordenar → Bool → ℕ → Tlb → ℕ → ℕ → ℤ → Option Tlb
unfolding is_marco_in_tlb reemplazar_tlb proxima_pagina_a_sacar_tlb_by_lru
    proxima_pagina_a_sacar_tlb_by_fifo
actualizar_tlb ordenar lru cantidad t pid pagina marco =
    if eq_ℤ marco (negsuc 0)
    then some t
    else if is_marco_in_tlb t.items marco
    then none
    else reemplazar_tlb
        (if lru
          then proxima_pagina_a_sacar_tlb_by_lru ordenar t
          else proxima_pagina_a_sacar_tlb_by_fifo ordenar cantidad t)
        pid pagina marco
