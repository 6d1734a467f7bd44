-- ===== src/Memoria/Coherencia/Crear.antt =====
-- create_pagina of memoria/src/memory.c keeps the frames and the TLB in agreement.
use exitos_con_esto.Prelude.{
  ℕ, zero, suc, ◌+◌, ◌≤◌, ◌≡◌, refl, sym, ap, ◌∙◌, inl, inr, Bool, true, List, [], ◌∷◌, some, arith,
  Bool-cases, pos, eq_ℤ, eq_ℤ→eq, get_elem?, length,
}
use exitos_con_esto.Memoria.Datos.{Carpincho}
use exitos_con_esto.Memoria.Carpinchos.{buscar}
use exitos_con_esto.Memoria.Tlb.{TlbItem, actualizar_tlb}
use exitos_con_esto.Memoria.Marcos.{
  Globales, Marco, Opciones, OrdenarMarcos, Swap, filtrar, get_free_marco,
  get_marco_by_marco_number, menor_numero,
}
use exitos_con_esto.Memoria.Swampear.{swampear_pagina_when_create_page}
use exitos_con_esto.Memoria.Paginas.{
  can_carpincho_add_marco_to_page, create_pagina, marco_para_nueva,
}
use exitos_con_esto.Memoria.Cuentas.{Cumple, Cumple-bind, Cumple-bind_eq, Cumple-if, cuenta}
use exitos_con_esto.Memoria.Coherencia.{Coherente, en_marco, miente, miente_en}
use exitos_con_esto.Memoria.Coherencia.Numeros.{MarcosBien-get_elem?, por_numero}
use exitos_con_esto.Memoria.Coherencia.Cargar.{Cuenta, actualizar_tlb-Coherente}
use exitos_con_esto.Memoria.Coherencia.Ceder.{
  asignar-Cedido, Vaciado, swampear_pagina_when_create_page-Cedido,
}

-- What the code relies on in list_sort: its elements are those of the list.
pub record Elementos (ordenar : OrdenarMarcos) : Type 0 where
  pub del_original :
      (menor : Marco → Marco → Bool) (xs : List Marco) (i : ℕ) (m : Marco)
      → get_elem? (ordenar menor xs) i ≡ some m
      → (j : ℕ) × (get_elem? xs j ≡ some m)

abbrev Viene : (Marco → Bool) → List Marco → Marco → Type 0
Viene q xs m = (i : ℕ) × (get_elem? xs i ≡ some m) × (q m ≡ true)

abbrev mas_lejos :
    (q : Marco → Bool) (xs : List Marco) (x m : Marco) → Viene q xs m → Viene q (x ∷ xs) m
mas_lejos q xs x m (i, g, k) = (suc i, g, k)

get_elem?-filtrar :
    (q : Marco → Bool) (xs : List Marco) (j : ℕ) (m : Marco)
    → get_elem? (filtrar q xs) j ≡ some m
    → Viene q xs m
get_elem?-filtrar q [] j m e = cc
get_elem?-filtrar q (x ∷ xs) j m e = elim (Bool-cases (q x)) [
  | inr h ↦ mas_lejos q xs x m (get_elem?-filtrar q xs j m (rw h at e))
  | inl h ↦ cabeza j (rw h at e) h (λ k. get_elem?-filtrar q xs k m)
]
  where
    cabeza :
        (j : ℕ)
        → get_elem? (x ∷ filtrar q xs) j ≡ some m
        → q x ≡ true
        → ((k : ℕ) → get_elem? (filtrar q xs) k ≡ some m → Viene q xs m)
        → Viene q (x ∷ xs) m
    cabeza zero e h resto = let p : x ≡ m = cc in (0, e, ap q (sym p) ∙ h)
    cabeza (suc j) e h resto = mas_lejos q xs x m (resto j e)

-- No entry names a free frame.
libre_sin_entrada :
    (ms : List Marco) (items : List TlbItem) (i : ℕ) (m : Marco)
    → get_elem? ms i ≡ some m
    → m.is_free ≡ true
    → cuenta (en_marco (pos i)) items ≤ cuenta (miente ms) items
libre_sin_entrada ms [] i m g f = omega arith
libre_sin_entrada ms (x ∷ xs) i m g f =
    let resto = libre_sin_entrada ms xs i m g f in
    elim (Bool-cases (eq_ℤ x.marco (pos i))) [
      | inr e ↦ rw e (omega (arith, resto))
      | inl e ↦
          let q : miente ms x ≡ true =
            rw (eq_ℤ→eq x.marco (pos i) e) (rw (g, miente_en) (rw f refl)) in
          rw (e, q) (omega (arith, resto))
    ]

-- The frame for a new page: the TLB does not name it.
abbrev Disponible : Marco → List Marco → List TlbItem → Type 0
Disponible m ms items =
    Vaciado (pos m.marco) ms items × (get_marco_by_marco_number ms (pos m.marco) ≡ some m)

disponible :
    (ms : List Marco) (items : List TlbItem) (i : ℕ) (m : Marco)
    → Coherente ms items
    → cuenta (en_marco (pos i)) items ≡ 0
    → get_elem? ms i ≡ some m
    → Disponible m ms items
disponible ms items i m c z g =
    let n = (MarcosBien-get_elem? 0 ms i m c.bien g).0 in
    let p : i ≡ m.marco = omega (arith, n) in mismo m.marco p
  where
    mismo :
        (k : ℕ) → i ≡ k → Vaciado (pos k) ms items × (get_marco_by_marco_number ms (pos k) ≡ some m)
    mismo k p = rw (sym p) ((c, z), por_numero ms i c.bien ∙ g)

libre-Disponible :
    (ordenar : OrdenarMarcos)
    → Elementos ordenar
    → (ms : List Marco) (items : List TlbItem) (m : Marco) → Coherente ms items
    → get_free_marco ordenar ms ≡ some m
    → Disponible m ms items
unfolding get_free_marco
libre-Disponible ordenar elementos ms items m c e =
    let (j, f) = elementos.del_original menor_numero (filtrar (λ m. m.is_free) ms) 0 m e in
    let (i, g, l) = get_elem?-filtrar (λ m. m.is_free) ms j m f in
    disponible ms items i m c (omega (arith, libre_sin_entrada ms items i m g l, c.veraz)) g

module _ (swap : Swap) (o : Opciones) (cuentas : Cuenta o.ordenar_tlb)
    (elementos : Elementos o.ordenar_marcos) where
  open swap use {Estado}

  marco_para_nueva-Disponible :
      (c : Carpincho) (numero : ℕ) (s : Globales Estado)
      → Coherente s.marcos s.tlb.items
      → Cumple
          (λ r. Disponible r.1 (r.0).marcos (r.0).tlb.items)
          (marco_para_nueva swap o c numero s)
  unfolding marco_para_nueva
  marco_para_nueva-Disponible c numero s v =
      Cumple-if _ (can_carpincho_add_marco_to_page o s c) _ _
        (λ e.
          Cumple-bind_eq _ (get_free_marco o.ordenar_marcos s.marcos) _
            λ m f. libre-Disponible o.ordenar_marcos elementos s.marcos s.tlb.items m v f)
        λ e.
          Cumple-bind _ _ (swampear_pagina_when_create_page swap o s c.pid numero) _
            (swampear_pagina_when_create_page-Cedido swap o s c.pid numero v)
            λ r w. Cumple-bind_eq _ (get_marco_by_marco_number (r.0).marcos (pos r.1)) _ λ m f.
              disponible (r.0).marcos (r.0).tlb.items (r.1) m w.0 w.1
                (sym (por_numero (r.0).marcos (r.1) (w.0).bien) ∙ f)

  -- create_pagina
  pub create_pagina-Coherente :
      (pid : ℕ) (s : Globales Estado)
      → Coherente s.marcos s.tlb.items
      → Cumple (λ r. Coherente (r.0).marcos (r.0).tlb.items) (create_pagina swap o pid s)
  unfolding create_pagina
  create_pagina-Coherente pid s v = Cumple-bind_eq _ (buscar s.carpinchos.lista pid) _ λ c e.
      let numero = length c.paginas + 1 in
      Cumple-bind _ _ (marco_para_nueva swap o c numero s) _
        (marco_para_nueva-Disponible c numero s v)
        λ r d.
          (let m = r.1 in
            let (c1, z, t) =
              asignar-Cedido (pos m.marco) (r.0).marcos (r.0).tlb.items m c.pid numero d.0 d.1 in
            let (m', g, f, suyo) = t in
            Cumple-bind _ _
              (actualizar_tlb o.ordenar_tlb o.tlb_lru o.cantidad_entradas_tlb (r.0).tlb c.pid numero
                (pos m.marco))
              _
              (actualizar_tlb-Coherente o.ordenar_tlb cuentas _ c.pid numero m.marco m' g f suyo
                o.tlb_lru o.cantidad_entradas_tlb (r.0).tlb c1)
              λ u c2. Cumple-bind_eq _ (buscar (r.0).carpinchos.lista pid) _ λ c' k. c2)
