-- ===== src/Memoria/Coherencia/Forma.antt =====
-- An access to a page leaves the processes of memoria/src/memory.c, their blocks and the numbers of
-- their pages as they were.
use exitos_con_esto.Prelude.{
  ℕ, ◌+◌, ◌≡◌, refl, sym, ◌∙◌, ap, inl, inr, Bool, true, false, ◌&&◌, List, [], ◌∷◌, Option, some,
  arith, map, ◌==◌, Bool-cases, ℤ, get_elem?, if◌then◌else◌,
}
use exitos_con_esto.Memoria.Datos.{Alloc, Carpincho, Pagina}
use exitos_con_esto.Memoria.Carpinchos.{buscar, reemplazar}
use exitos_con_esto.Memoria.Tlb.{vaciar_pagina_tlb}
use exitos_con_esto.Memoria.Reloj.{m_clock, menor_marco}
use exitos_con_esto.Memoria.Marcos.{
  Globales, Opciones, asentar_en_lista, asentar_pagina, asentar_paginas, es_de,
  get_all_pages_in_cache, get_marco_by_marco_number, get_pages_in_cache_by_carpincho_pid,
}
use exitos_con_esto.Memoria.Swampear.{
  elegir_pagina, get_proxima_a_swampear_by_lru, get_proxima_a_swampear_by_m_clock,
}
use exitos_con_esto.Memoria.Paginas.{
  cambiar_pagina, fechar_tlb, get_marco_de_tlb, get_page_by_ints, get_tlb_item, marcar, tlb_hit,
  tlb_miss,
}
use exitos_con_esto.Memoria.Cuentas.{Cumple, Cumple-bind_eq, Cumple-if}
use exitos_con_esto.Memoria.Coherencia.Punteros.{buscar-pid}

abbrev pub clave : Pagina → ℕ × ℕ
clave p = (p.carpincho_pid, p.pagina)

abbrev pub forma_de : Carpincho → ℕ × List Alloc × List (ℕ × ℕ)
forma_de c = (c.pid, c.allocs, map clave c.paginas)

abbrev pub forma : List Carpincho → List (ℕ × List Alloc × List (ℕ × ℕ))
forma cs = map forma_de cs

claves-asentar_en_lista :
    (q : Pagina) (ps : List Pagina) → map clave (asentar_en_lista q ps) ≡ map clave ps
unfolding asentar_en_lista
claves-asentar_en_lista q [] = refl
claves-asentar_en_lista q (x ∷ ps) =
    elim (Bool-cases (x.carpincho_pid == q.carpincho_pid && x.pagina == q.pagina)) [
      | inl h ↦
          let a : q.carpincho_pid ≡ x.carpincho_pid = ground (arith, h) in
          let b : q.pagina ≡ x.pagina = ground (arith, h) in
          rw h (
            ap (λ k. (k, q.pagina) ∷ map clave ps) a
            ∙ ap (λ k. (x.carpincho_pid, k) ∷ map clave ps) b)
      | inr h ↦ rw h (ap (◌∷◌ (clave x)) (claves-asentar_en_lista q ps))
    ]

pub forma-asentar_pagina :
    (q : Pagina) (cs : List Carpincho) → forma (asentar_pagina q cs) ≡ forma cs
unfolding asentar_pagina
forma-asentar_pagina q [] = refl
forma-asentar_pagina q (c ∷ cs) = elim (Bool-cases (c.pid == q.carpincho_pid)) [
  | inl h ↦ rw h (ap (λ ks. (c.pid, c.allocs, ks) ∷ forma cs) (claves-asentar_en_lista q c.paginas))
  | inr h ↦ rw h (ap (◌∷◌ (forma_de c)) (forma-asentar_pagina q cs))
]

forma-asentar_paginas :
    (qs : List Pagina) (cs : List Carpincho) → forma (asentar_paginas qs cs) ≡ forma cs
unfolding asentar_paginas
forma-asentar_paginas [] cs = refl
forma-asentar_paginas (q ∷ qs) cs =
    forma-asentar_paginas qs (asentar_pagina q cs) ∙ forma-asentar_pagina q cs

forma-reemplazar :
    (cs : List Carpincho) (pid : ℕ) (c c' : Carpincho)
    → buscar cs pid ≡ some c
    → forma_de c' ≡ forma_de c
    → forma (reemplazar cs c') ≡ forma cs
unfolding buscar reemplazar
forma-reemplazar [] pid c c' e f = refl
forma-reemplazar (d ∷ cs) pid c c' e f =
    let p : c'.pid ≡ pid = ap (λ x. x.0) f ∙ buscar-pid (d ∷ cs) pid c e in
    elim (Bool-cases (d.pid == pid)) [
      | inl h ↦
          let k : (d.pid == c'.pid) ≡ true = ground (arith, h, p) in
          let e' = rw h at e in
          let s : d ≡ c = cc in rw k (ap (λ x. x ∷ forma cs) (f ∙ ap forma_de (sym s)))
      | inr h ↦
          let k : (d.pid == c'.pid) ≡ false = ground (arith, h, p) in
          rw k (ap (◌∷◌ (forma_de d)) (forma-reemplazar cs pid c c' (rw h at e) f))
    ]

module _ {Sw : Type 0} (f : List (ℕ × List Alloc × List (ℕ × ℕ))) where
  -- The processes have this form.
  abbrev pub Con : Globales Sw → Type 0
  Con s = forma s.carpinchos.lista ≡ f

  pub tlb_hit-Con : (pid : ℕ) (s : Globales Sw) → Con s → Cumple Con (tlb_hit pid s)
  unfolding tlb_hit
  tlb_hit-Con pid s v =
      Cumple-bind_eq _ (buscar s.carpinchos.lista pid) _
        λ c e. forma-reemplazar s.carpinchos.lista pid c _ e refl ∙ v

  pub tlb_miss-Con : (pid : ℕ) (s : Globales Sw) → Con s → Cumple Con (tlb_miss pid s)
  unfolding tlb_miss
  tlb_miss-Con pid s v =
      Cumple-bind_eq _ (buscar s.carpinchos.lista pid) _
        λ c e. forma-reemplazar s.carpinchos.lista pid c _ e refl ∙ v

  pub cambiar_pagina-Con :
      (g : Pagina → Pagina) (pid pagina : ℕ) (s : Globales Sw)
      → Con s
      → Cumple Con (cambiar_pagina g pid pagina s)
  unfolding cambiar_pagina
  cambiar_pagina-Con g pid pagina s v =
      Cumple-bind_eq _ (get_page_by_ints s pid pagina) _
        λ p e. forma-asentar_pagina (g p) s.carpinchos.lista ∙ v

  pub fechar_tlb-Con :
      (pid pagina : ℕ) (s : Globales Sw) → Con s → Cumple Con (fechar_tlb pid pagina s)
  unfolding fechar_tlb
  fechar_tlb-Con pid pagina s v =
      Cumple-bind_eq _ (get_tlb_item s.tlb.items pid pagina) _
        λ k e. Cumple-bind_eq _ (get_elem? s.tlb.items k) _ λ x g. v

  pub marcar-Con :
      (o : Opciones) (escritura : Bool) (pid pagina : ℕ) (s : Globales Sw)
      → Con s
      → Cumple Con (marcar o escritura pid pagina s)
  unfolding marcar
  marcar-Con o escritura pid pagina s v =
      Cumple-if _ o.m_clock _ _ (λ e. cambiar_pagina-Con _ pid pagina s v)
        λ e.
          cambiar_pagina-Con _ pid pagina
            (record s { contador_timestamp = s.contador_timestamp + 1 }) v

  pub get_marco_de_tlb-Con :
      (obtener : Globales Sw → Option (Globales Sw × ℤ)) (pid pagina : ℕ) (s : Globales Sw)
      → ((t : Globales Sw) → Con t → Cumple (λ r. Con (r.0)) (obtener t))
      → Con s
      → Cumple (λ r. Con (r.0)) (get_marco_de_tlb obtener pid pagina s)
  unfolding get_marco_de_tlb
  get_marco_de_tlb-Con obtener pid pagina s h v =
      Cumple-bind_eq _ (get_tlb_item s.tlb.items pid pagina) _ λ k e.
        Cumple-bind_eq _ (get_elem? s.tlb.items k) _ λ x g.
          Cumple-bind_eq _ (get_marco_by_marco_number s.marcos x.marco) _ λ m d.
            Cumple-if _ (es_de pid pagina m) _ _ (λ b. v)
              λ b.
                Cumple-bind_eq _ (vaciar_pagina_tlb s.tlb.items k) _
                  λ items i. h (record s { tlb = record (s.tlb) { items = items } }) v

  pub m_clock-Con :
      (o : Opciones) (s : Globales Sw) (paginas : List Pagina)
      → Con s
      → Cumple (λ r. Con (r.0)) (get_proxima_a_swampear_by_m_clock o s paginas)
  unfolding get_proxima_a_swampear_by_m_clock
  m_clock-Con o s paginas v =
      let lista = s.carpinchos.lista in
      Cumple-if _ o.config.fija _ _
        (λ h. Cumple-bind_eq _ (get_elem? (o.ordenar_paginas menor_marco paginas) 0) _ λ primera e.
          Cumple-bind_eq _ (buscar lista primera.carpincho_pid) _ λ c g.
            Cumple-bind_eq _ (m_clock c.algoritm_stack_pointer _) _ λ r i.
              Cumple-bind_eq _ (buscar (asentar_paginas r.0 lista) primera.carpincho_pid) _ λ c' k.
                forma-reemplazar (asentar_paginas r.0 lista) primera.carpincho_pid c' _ k refl
                ∙ (forma-asentar_paginas r.0 lista ∙ v))
        λ h.
          Cumple-bind_eq _ (m_clock s.algoritm_stack_pointer _) _
            λ r g. forma-asentar_paginas r.0 lista ∙ v

  pub elegir_pagina-Con :
      (o : Opciones) (s : Globales Sw) (pid : ℕ)
      → Con s
      → Cumple (λ r. Con (r.0)) (elegir_pagina o s pid)
  unfolding elegir_pagina
  elegir_pagina-Con o s pid v =
      Cumple-bind_eq _
        (if o.config.fija
          then get_pages_in_cache_by_carpincho_pid s.marcos s.carpinchos.lista pid
          else some (get_all_pages_in_cache s.carpinchos.lista))
        _
        λ paginas e.
          Cumple-if _ o.m_clock _ _ (λ h. m_clock-Con o s paginas v)
            λ h. Cumple-bind_eq _ (get_proxima_a_swampear_by_lru o paginas) _ λ p g. v
