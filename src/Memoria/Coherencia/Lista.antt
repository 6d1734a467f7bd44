-- ===== src/Memoria/Coherencia/Lista.antt =====
-- A page that the TLB of memoria/src/memory.c names is read without a change of the frames, the TLB's
-- frame for it, or the main memory.
use mathlib.Core.Path.{subst}
use exitos_con_esto.Prelude.{
  ℕ, ◌+◌, ◌≡◌, refl, sym, ◌∙◌, ap, Bool, List, Option, none, some, bind-inv, pos, get_elem?, ◌>>=◌,
}
use exitos_con_esto.Memoria.Datos.{Carpincho, Pagina}
use exitos_con_esto.Memoria.Metadatos.{get_page}
use exitos_con_esto.Memoria.Carpinchos.{Carpinchos, buscar}
use exitos_con_esto.Memoria.Tlb.{Tlb}
use exitos_con_esto.Memoria.Marcos.{Globales}
use exitos_con_esto.Memoria.Paginas.{
  cambiar_pagina, fechar_tlb, get_page_by_ints, get_tlb_item, marcar, tlb_hit,
}
use exitos_con_esto.Memoria.Marcos.{Opciones}
use exitos_con_esto.Memoria.Cuentas.{
  Cumple, Cumple-bind_eq, Cumple-eq, Cumple-if, Devuelve, Devuelve-bind, Devuelve-if,
}
use exitos_con_esto.Memoria.Coherencia.{Coherente}
use exitos_con_esto.Memoria.Coherencia.Anotar.{fechar_tlb-EnTlb}
use exitos_con_esto.Memoria.Coherencia.EnTlb.{EnTlb}
use exitos_con_esto.Memoria.Coherencia.Obtener.{fechar_tlb-Coherente}
use exitos_con_esto.Memoria.Coherencia.Punteros.{
  Clave, buscar-asentar_pagina, buscar-pid, buscar-reemplazar, get_page-Clave,
  get_page-asentar_en_lista,
}

pub Devuelve-Cumple {ℓ κ μ ν} :
    {A : Type ℓ} (Q : A → Type κ) (P : A → Type μ) (R : A → Type ν) (o : Option A)
    → Devuelve Q o
    → Cumple P o
    → ((a : A) → Q a → P a → R a)
    → Devuelve R o
Devuelve-Cumple Q P R none (a, e, q) c f = cc
Devuelve-Cumple Q P R (some b) (a, e, q) c f = let p : a ≡ b = cc in (b, refl, f b (subst Q p q) c)

module _ {Sw : Type 0} (pid pagina : ℕ) where
  -- There is a page with that number.
  abbrev pub Hay : Globales Sw → Type 0
  Hay s = (p : Pagina) × (get_page_by_ints s pid pagina ≡ some p)

  -- Of its process.
  dueno :
      (s : Globales Sw) (p : Pagina)
      → get_page_by_ints s pid pagina ≡ some p
      → (c : Carpincho) × (buscar s.carpinchos.lista pid ≡ some c)
        × (get_page c.paginas pid pagina ≡ some p)
  unfolding get_page_by_ints
  dueno s p e = bind-inv (buscar s.carpinchos.lista pid) _ _ e

  pub cambiar_pagina-Hay :
      (f : Pagina → Pagina) (s : Globales Sw)
      → ((p : Pagina) → Clave pid pagina p → Clave pid pagina (f p))
      → Cumple Hay (cambiar_pagina f pid pagina s)
  unfolding cambiar_pagina get_page_by_ints
  cambiar_pagina-Hay f s k = Cumple-bind_eq _ (get_page_by_ints s pid pagina) _ λ p e.
      (let (c, b, g) = dueno s p e in
        let k' = k p (get_page-Clave c.paginas pid pagina p g) in
        (
          f p,
          rw (buscar-asentar_pagina s.carpinchos.lista pid c (f p) b k'.0)
              (get_page-asentar_en_lista c.paginas pid pagina p (f p) g k'),
        ))

  -- The rest is as it was.
  abbrev pub Mismos : Globales Sw → Globales Sw → Type 0
  Mismos s r = (r.marcos ≡ s.marcos) × (r.tlb ≡ s.tlb) × (r.cache ≡ s.cache)

  cambiar_pagina-Mismos :
      (f : Pagina → Pagina) (s : Globales Sw)
      → Hay s
      → Devuelve (Mismos s) (cambiar_pagina f pid pagina s)
  unfolding cambiar_pagina
  cambiar_pagina-Mismos f s (p, e) =
      Devuelve-bind (λ q. Unit {0}) _ (get_page_by_ints s pid pagina) _ (p, e, tt)
        λ q u. (_, refl, (refl, refl, refl))

  pub cambiar_pagina_vuelve :
      (f : Pagina → Pagina) (s : Globales Sw)
      → ((p : Pagina) → Clave pid pagina p → Clave pid pagina (f p))
      → Hay s
      → Devuelve (λ r. Mismos s r × Hay r) (cambiar_pagina f pid pagina s)
  cambiar_pagina_vuelve f s k h =
      Devuelve-Cumple (Mismos s) Hay _ (cambiar_pagina f pid pagina s) (cambiar_pagina-Mismos f s h)
        (cambiar_pagina-Hay f s k) λ r a b. (a, b)

  pub tlb_hit-Mismos :
      (s : Globales Sw) → Hay s → Devuelve (λ r. Mismos s r × Hay r) (tlb_hit pid s)
  unfolding tlb_hit get_page_by_ints
  tlb_hit-Mismos s (p, e) =
      let (c, b, g) = dueno s p e in
      Devuelve-bind (λ d. c ≡ d) _ (buscar s.carpinchos.lista pid) _ (c, b, refl)
        λ d q.
          (let b' : buscar s.carpinchos.lista pid ≡ some d = b ∙ ap some q in
            let d' = record d { tlb_hits = d.tlb_hits + 1 } in
            let g' : get_page d.paginas pid pagina ≡ some p =
              subst (λ (x : Carpincho). get_page x.paginas pid pagina ≡ some p) q g in
            (
              _,
              refl,
              (
                (refl, refl, refl),
                (
                  p,
                  rw
                      (buscar-reemplazar s.carpinchos.lista pid d d' b'
                        (buscar-pid s.carpinchos.lista pid d b'))
                      g',
                ),
              ),
            ))

  pub marcar-Hay :
      (o : Opciones) (escritura : Bool) (s : Globales Sw)
      → Cumple Hay (marcar o escritura pid pagina s)
  unfolding marcar
  marcar-Hay o escritura s =
      Cumple-if _ o.m_clock _ _ (λ e. cambiar_pagina-Hay _ s λ p k. k)
        λ e.
          cambiar_pagina-Hay _ (record s { contador_timestamp = s.contador_timestamp + 1 }) λ p k. k

  pub marcar_vuelve :
      (o : Opciones) (escritura : Bool) (s : Globales Sw)
      → Hay s
      → Devuelve (λ r. Unit {0}) (marcar o escritura pid pagina s)
  unfolding marcar
  marcar_vuelve o escritura s h =
      Devuelve-if _ o.m_clock _ _ (λ e. algo s (cambiar_pagina-Mismos _ s h))
        λ e.
          (let t = record s { contador_timestamp = s.contador_timestamp + 1 } in
            algo t (cambiar_pagina-Mismos _ t h))
    where
      algo :
          (t : Globales Sw) {r : Option (Globales Sw)}
          → Devuelve (Mismos t) r
          → Devuelve (λ u. Unit {0}) r
      algo t (u, e, q) = (u, e, tt)

  pub marcar-Mismos :
      (o : Opciones) (escritura : Bool) (s : Globales Sw)
      → Cumple (Mismos s) (marcar o escritura pid pagina s)
  unfolding marcar cambiar_pagina
  marcar-Mismos o escritura s =
      Cumple-if _ o.m_clock _ _
        (λ e. Cumple-bind_eq _ (get_page_by_ints s pid pagina) _ λ p d. (refl, refl, refl))
        λ e.
          Cumple-bind_eq _
            (get_page_by_ints (record s { contador_timestamp = s.contador_timestamp + 1 }) pid
              pagina)
            _ λ p d. (refl, refl, refl)

  -- The page is there, the TLB names the frame for it, and this is the main memory.
  abbrev pub Lista : List ℕ → ℕ → Globales Sw → Type 0
  Lista cache i s =
      Coherente s.marcos s.tlb.items
      × EnTlb s.tlb.items pid pagina (pos i)
      × Hay s
      × (s.cache ≡ cache)

  pub Lista-Mismos :
      (cache : List ℕ) (i : ℕ) (s r : Globales Sw)
      → Coherente s.marcos s.tlb.items
      → EnTlb s.tlb.items pid pagina (pos i)
      → s.cache ≡ cache
      → Mismos s r
      → Hay r
      → Lista cache i r
  Lista-Mismos cache i s r c e q (m, t, k) h' = (
    subst (λ ms. Coherente ms r.tlb.items) (sym m)
        (subst (λ (x : Tlb). Coherente s.marcos x.items) (sym t) c),
    subst (λ (x : Tlb). EnTlb x.items pid pagina (pos i)) (sym t) e,
    h',
    k ∙ q,
  )

  pub cambiar_pagina-Lista :
      (cache : List ℕ) (i : ℕ) (f : Pagina → Pagina) (s : Globales Sw)
      → ((p : Pagina) → Clave pid pagina p → Clave pid pagina (f p))
      → Lista cache i s
      → Devuelve (Lista cache i) (cambiar_pagina f pid pagina s)
  cambiar_pagina-Lista cache i f s k l =
      let (r, e, m) = cambiar_pagina_vuelve f s k l.2 in
      (r, e, Lista-Mismos cache i s r l.0 l.1 l.3 m.0 m.1)

  pub tlb_hit-Lista :
      (cache : List ℕ) (i : ℕ) (s : Globales Sw)
      → Lista cache i s
      → Devuelve (Lista cache i) (tlb_hit pid s)
  tlb_hit-Lista cache i s l =
      let (r, e, m) = tlb_hit-Mismos s l.2 in (r, e, Lista-Mismos cache i s r l.0 l.1 l.3 m.0 m.1)

  fechar_tlb_vuelve :
      (s : Globales Sw) (i : ℕ)
      → EnTlb s.tlb.items pid pagina (pos i)
      → Devuelve
          (λ r. (r.carpinchos ≡ s.carpinchos) × (r.cache ≡ s.cache))
          (fechar_tlb pid pagina s)
  unfolding fechar_tlb
  fechar_tlb_vuelve s i (k, x, e, g, m) =
      Devuelve-bind (λ j. j ≡ k) _ (get_tlb_item s.tlb.items pid pagina) _ (k, e, refl)
        λ j w.
          Devuelve-bind (λ y. Unit {0}) _ (get_elem? s.tlb.items j) _
            (x, ap (get_elem? s.tlb.items) w ∙ g, tt) λ y z. (_, refl, (refl, refl))

  Hay-carpinchos : (s r : Globales Sw) → r.carpinchos ≡ s.carpinchos → Hay s → Hay r
  unfolding get_page_by_ints
  Hay-carpinchos s r q (p, e) = (
    p,
    ap (λ (cs : Carpinchos). buscar cs.lista pid >>= λ c. get_page c.paginas pid pagina) q ∙ e,
  )

  pub fechar_tlb-Lista :
      (cache : List ℕ) (i : ℕ) (s : Globales Sw)
      → Lista cache i s
      → Devuelve (Lista cache i) (fechar_tlb pid pagina s)
  fechar_tlb-Lista cache i s (c, e, h, q) =
      let (r, d, ab) = fechar_tlb_vuelve s i e in
      let c' = Cumple-eq _ (fechar_tlb pid pagina s) r (fechar_tlb-Coherente pid pagina s c) d in
      let e' =
        Cumple-eq _ (fechar_tlb pid pagina s) r (fechar_tlb-EnTlb pid pagina (pos i) s e) d in
      (r, d, (c'.0, e', Hay-carpinchos s r ab.0 h, ab.1 ∙ q))
