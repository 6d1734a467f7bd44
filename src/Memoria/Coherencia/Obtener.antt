-- ===== src/Memoria/Coherencia/Obtener.antt =====
-- obtener_marco_para_pagina of memoria/src/memory.c gives a frame that holds the page.
use exitos_con_esto.Prelude.{
  ℕ, suc, ◌<◌, ◌≡◌, refl, inl, inr, ◌∙◌, ap, Bool, true, false, ◌&&◌, List, [], ◌∷◌, Option, some,
  arith, ◌==◌, Bool-cases, Option-cases, ℤ, pos, negsuc, get_elem?,
}
use exitos_con_esto.Memoria.Datos.{Pagina}
use exitos_con_esto.Memoria.Carpinchos.{buscar}
use exitos_con_esto.Memoria.Tlb.{TlbItem, pagina_is_in_tlb}
use exitos_con_esto.Memoria.Marcos.{
  Globales, Marco, get_marco_by_marco_number, obtener_marco_de_cache, pagina_is_in_cache,
}
use exitos_con_esto.Memoria.Paginas.{
  cambiar_pagina, fechar_tlb, get_marco_de_tlb, get_page_by_ints, get_tlb_item, tlb_hit, tlb_miss,
}
use exitos_con_esto.Memoria.Cuentas.{Cumple, Cumple-bind_eq, cuenta-set, get_elem?-cuenta}
use exitos_con_esto.Memoria.Coherencia.{Coherente, MarcosBien, Tiene, en_marco, miente, miente_en}
use exitos_con_esto.Memoria.Coherencia.EnTlb.{EnTlb}
use exitos_con_esto.Memoria.Coherencia.Numeros.{
  MarcosBien-get_elem?, obtener_marco_de_cache-get_elem?, por_numero,
}

module _ {Sw : Type 0} (P : List Marco → List TlbItem → Type 0) (pid : ℕ) (s : Globales Sw)
    (v : P s.marcos s.tlb.items) where
  pub tlb_hit-Vale : Cumple (λ r. P r.marcos r.tlb.items) (tlb_hit pid s)
  unfolding tlb_hit
  tlb_hit-Vale = Cumple-bind_eq _ (buscar s.carpinchos.lista pid) _ λ c e. v

  pub tlb_miss-Vale : Cumple (λ r. P r.marcos r.tlb.items) (tlb_miss pid s)
  unfolding tlb_miss
  tlb_miss-Vale = Cumple-bind_eq _ (buscar s.carpinchos.lista pid) _ λ c e. v

  pub cambiar_pagina-Vale :
      (f : Pagina → Pagina) (pagina : ℕ)
      → Cumple (λ r. P r.marcos r.tlb.items) (cambiar_pagina f pid pagina s)
  unfolding cambiar_pagina
  cambiar_pagina-Vale f pagina = Cumple-bind_eq _ (get_page_by_ints s pid pagina) _ λ p e. v

abbrev pub fechada : TlbItem → ℕ → TlbItem
fechada x t = record x { timestamp = t }

pub fechar_tlb-Coherente :
    {Sw : Type 0} (pid pagina : ℕ) (s : Globales Sw)
    → Coherente s.marcos s.tlb.items
    → Cumple (λ r. Coherente r.marcos r.tlb.items × (r.marcos ≡ s.marcos)) (fechar_tlb pid pagina s)
unfolding fechar_tlb
fechar_tlb-Coherente pid pagina s c =
    let t = s.contador_timestamp in
    Cumple-bind_eq _ (get_tlb_item s.tlb.items pid pagina) _ λ k e.
      Cumple-bind_eq _ (get_elem? s.tlb.items k) _ λ x g. (
        record {
          bien = c.bien;
          veraz =
              omega (arith, cuenta-set (miente s.marcos) s.tlb.items k x (fechada x t) g, c.veraz);
          unicos = λ i.
              omega
                (arith, cuenta-set (en_marco (pos i)) s.tlb.items k x (fechada x t) g, c.unicos i);
        },
        refl,
      )

pub get_tlb_item-get_elem? :
    (items : List TlbItem) (pid pagina k : ℕ)
    → get_tlb_item items pid pagina ≡ some k
    → (x : TlbItem) × (get_elem? items k ≡ some x) × (x.pid ≡ pid) × (x.pagina ≡ pagina)
unfolding get_tlb_item
get_tlb_item-get_elem? [] pid pagina k e = cc
get_tlb_item-get_elem? (x ∷ xs) pid pagina k e =
    elim (Bool-cases (x.pagina == pagina && x.pid == pid)) [
      | inl h ↦
          let e' = rw h at e in let z : k ≡ 0 = cc in rw z (x, refl, ground arith, ground arith)
      | inr h ↦ elim (Option-cases (get_tlb_item xs pid pagina)) [
        | inl d ↦ let e' = rw (h, d) at e in cc
        | inr (j, d) ↦
            let e' = rw (h, d) at e in
            let z : k ≡ suc j = cc in rw z (get_tlb_item-get_elem? xs pid pagina j d)
      ]
    ]

-- What an entry of a coherent TLB says is so.
pub dice :
    (ms : List Marco) (marco : ℤ) (pid pagina : ℕ)
    → 0 < pagina
    → miente_en ms marco pid pagina ≡ false
    → (i : ℕ) × (marco ≡ pos i) × Tiene ms i pid pagina
dice ms (negsuc n) pid pagina h e = absurd (ground arith)
dice ms (pos i) pid pagina h e = elim (Option-cases (get_elem? ms i)) [
  | inl g ↦ let e' = rw (g, miente_en) at e in cc
  | inr (m, g) ↦ let e' = rw (g, miente_en) at e in (i, refl, (m, g, ground arith, ground arith))
]

pub entrada-dice :
    (ms : List Marco) (items : List TlbItem) (k pid pagina : ℕ) (x : TlbItem)
    → Coherente ms items
    → 0 < pagina
    → get_elem? items k ≡ some x
    → x.pid ≡ pid
    → x.pagina ≡ pagina
    → (i : ℕ) × (x.marco ≡ pos i) × Tiene ms i pid pagina
entrada-dice ms items k pid pagina x c h g p q = elim (Bool-cases (miente ms x)) [
  | inl e ↦ absurd (omega (arith, get_elem?-cuenta (miente ms) items k x g e, c.veraz))
  | inr e ↦ dice ms x.marco pid pagina h (rw p at (rw q at e))
]

pub pagina_is_in_tlb-get_tlb_item :
    (items : List TlbItem) (pid pagina : ℕ)
    → pagina_is_in_tlb items pid pagina ≡ true
    → (k : ℕ) × (get_tlb_item items pid pagina ≡ some k)
unfolding get_tlb_item pagina_is_in_tlb
pagina_is_in_tlb-get_tlb_item [] pid pagina h = cc
pagina_is_in_tlb-get_tlb_item (x ∷ xs) pid pagina h =
    elim (Bool-cases (x.pagina == pagina && x.pid == pid)) [
      | inl e ↦ (0, rw e refl)
      | inr e ↦
          let h' : pagina_is_in_tlb xs pid pagina ≡ true = ground (arith, e, h) in
          let (k, d) = pagina_is_in_tlb-get_tlb_item xs pid pagina h' in (suc k, rw (e, d) refl)
    ]

-- get_marco_de_tlb returns in a coherent state, and does not search again.
pub get_marco_de_tlb-Tiene :
    {Sw : Type 0} (obtener : Globales Sw → Option (Globales Sw × ℤ)) (pid pagina : ℕ)
    (s : Globales Sw)
    → Coherente s.marcos s.tlb.items
    → pagina_is_in_tlb s.tlb.items pid pagina ≡ true
    → 0 < pagina
    → (i : ℕ) × (get_marco_de_tlb obtener pid pagina s ≡ some (s, pos i))
      × Tiene s.marcos i pid pagina
      × EnTlb s.tlb.items pid pagina (pos i)
unfolding get_marco_de_tlb
get_marco_de_tlb-Tiene obtener pid pagina s c en_tlb h =
    let (k, e) = pagina_is_in_tlb-get_tlb_item s.tlb.items pid pagina en_tlb in
    let (x, g, p, q) = get_tlb_item-get_elem? s.tlb.items pid pagina k e in
    let (i, r, t) = entrada-dice s.marcos s.tlb.items k pid pagina x c h g p q in
    let (m, d, f, suyo) = t in
    let n : get_marco_by_marco_number s.marcos x.marco ≡ some m =
      ap (get_marco_by_marco_number s.marcos) r ∙ por_numero s.marcos i c.bien ∙ d in
    (
      i,
      rw (e, get_marco_de_tlb) (rw g (rw n (rw suyo (ap (λ z. some (s, z)) r)))),
      t,
      (k, x, e, g, r),
    )

-- A page in memory: its frame is not free.
pub en_memoria-Tiene :
    (ms : List Marco) (pid pagina : ℕ)
    → MarcosBien 0 ms
    → 0 < pagina
    → pagina_is_in_cache ms pid pagina ≡ true
    → (i : ℕ) × (obtener_marco_de_cache ms pid pagina ≡ pos i) × Tiene ms i pid pagina
en_memoria-Tiene ms pid pagina b h e =
    let (i, m, o, g, d) = obtener_marco_de_cache-get_elem? 0 ms pid pagina b e in
    let libre = (MarcosBien-get_elem? 0 ms i m b g).1 in
    (i, o ∙ ap pos (omega arith), (m, g, ocupado m.pagina m.is_free libre (ground (arith, d)), d))
  where
    ocupado : (q : ℕ) (b : Bool) → (b ≡ true → q ≡ 0) → q ≡ pagina → b ≡ false
    ocupado q true l p = absurd (omega (arith, l refl, p, h))
    ocupado q false l p = refl
