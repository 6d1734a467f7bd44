-- ===== src/Memoria/Coherencia/Releer.antt =====
-- leer_en_pagina of memoria/src/memory.c after escribir_en_pagina of the same page.
use exitos_con_esto.Prelude.{
  ℕ, zero, suc, ◌<◌, ◌≡◌, refl, sym, ◌∙◌, ap, true, false, not, ◌&&◌, List, [], ◌∷◌, Option, some,
  arith, ℤ, pos, negsuc, eq_ℤ, get_elem?, length, if◌then◌else◌, ◌>>=◌,
}
use exitos_con_esto.Memoria.Cache.{escribir_en_cache, retornar_contenido}
use exitos_con_esto.Memoria.Cache.IdaVuelta.{retornar_contenido-escribir_en_cache}
use exitos_con_esto.Memoria.Tlb.{TlbItem, pagina_is_in_tlb}
use exitos_con_esto.Memoria.Marcos.{Globales, Marco, Opciones, Swap, es_de, pagina_is_in_cache}
use exitos_con_esto.Memoria.Paginas.{
  accesible, cambiar_pagina, escribir_en_pagina, fechar_si_esta, fechar_tlb, leer_en_pagina, marcar,
  obtener_marco, obtener_marco_para_pagina, tlb_hit, ubicar_pagina,
}
use exitos_con_esto.Memoria.Cuentas.{
  Cumple, Cumple-bind, Cumple-bind_eq, Cumple-eq, Cumple-if, Cumple-×, Devuelve, Devuelve-bind,
  Devuelve-if,
}
use exitos_con_esto.Memoria.Coherencia.{Coherente, Tiene}
use exitos_con_esto.Memoria.Coherencia.Accesos.{ubicar_pagina-Encontrada}
use exitos_con_esto.Memoria.Coherencia.Anotar.{Anotada, ubicar_pagina-Anotada}
use exitos_con_esto.Memoria.Coherencia.Cargar.{Cuenta}
use exitos_con_esto.Memoria.Coherencia.Ceder.{Encontrada}
use exitos_con_esto.Memoria.Coherencia.EnTlb.{EnTlb, get_tlb_item-pagina_is_in_tlb}
use exitos_con_esto.Memoria.Coherencia.Lista.{
  Hay, Lista, Lista-Mismos, Mismos, marcar-Mismos, cambiar_pagina-Lista, fechar_tlb-Lista,
  marcar-Hay, marcar_vuelve, tlb_hit-Lista,
}
use exitos_con_esto.Memoria.Coherencia.Obtener.{
  entrada-dice, get_marco_de_tlb-Tiene, get_tlb_item-get_elem?,
}

EnTlb-pagina_is_in_tlb :
    (items : List TlbItem) (pid pagina : ℕ) (marco : ℤ)
    → EnTlb items pid pagina marco
    → pagina_is_in_tlb items pid pagina ≡ true
EnTlb-pagina_is_in_tlb items pid pagina marco (k, x, e, g, m) =
    get_tlb_item-pagina_is_in_tlb items pid pagina k e

EnTlb-unico :
    (items : List TlbItem) (pid pagina : ℕ) (a b : ℤ)
    → EnTlb items pid pagina a
    → EnTlb items pid pagina b
    → a ≡ b
EnTlb-unico items pid pagina a b (k, x, e, g, m) (j, y, f, h, n) =
    let p : k ≡ j = cc in
    let g' : get_elem? items j ≡ some x = rw (sym p) g in
    let q : x ≡ y = cc in sym m ∙ ap (λ (z : TlbItem). z.marco) q ∙ n

Tiene-pagina_is_in_cache :
    (ms : List Marco) (i pid pagina : ℕ)
    → Tiene ms i pid pagina
    → pagina_is_in_cache ms pid pagina ≡ true
unfolding pagina_is_in_cache
Tiene-pagina_is_in_cache [] i pid pagina (m, g, f, d) = cc
Tiene-pagina_is_in_cache (x ∷ ms) zero pid pagina (m, g, f, d) =
    let q : x ≡ m = cc in
    let d' : es_de pid pagina x ≡ true = ap (es_de pid pagina) q ∙ d in ground (arith, d')
Tiene-pagina_is_in_cache (x ∷ ms) (suc i) pid pagina (m, g, f, d) =
    let r = Tiene-pagina_is_in_cache ms i pid pagina (m, g, f, d) in ground (arith, r)

module _ (swap : Swap) (o : Opciones) (cuentas : Cuenta o.ordenar_tlb) (pid pagina : ℕ)
    (h : 0 < pagina) (cache : List ℕ) (i : ℕ) where
  open swap use {Estado}

  abbrev En : Globales Estado → Type 0
  En s = Lista pid pagina cache i s

  -- The frame i, in such a state.
  abbrev Fijo : Globales Estado × ℤ → Type 0
  Fijo r = (r.1 ≡ pos i) × En r.0

  Lista-pagina_is_in_tlb :
      (s : Globales Estado) → En s → pagina_is_in_tlb s.tlb.items pid pagina ≡ true
  Lista-pagina_is_in_tlb s l = EnTlb-pagina_is_in_tlb s.tlb.items pid pagina (pos i) l.1

  obtener_marco_para_pagina-Fijo :
      (s : Globales Estado) → En s → Devuelve Fijo (obtener_marco_para_pagina swap o pid pagina s)
  unfolding obtener_marco_para_pagina obtener_marco
  obtener_marco_para_pagina-Fijo s l = rw (Lista-pagina_is_in_tlb s l) (
      Devuelve-bind En _ (tlb_hit pid s) _ (tlb_hit-Lista pid pagina cache i s l) λ t l'.
        (let (j, q, d, w) =
            get_marco_de_tlb-Tiene (obtener_marco swap o (length s.tlb.items) pid pagina) pid pagina
              t l'.0 (Lista-pagina_is_in_tlb t l') h in
          let u = EnTlb-unico t.tlb.items pid pagina (pos j) (pos i) w l'.1 in
          rw q (
            Devuelve-bind En _ (if o.tlb_lru then fechar_tlb pid pagina t else some t) _
              (Devuelve-if _ o.tlb_lru _ _ (λ e. fechar_tlb-Lista pid pagina cache i t l')
                λ e. (t, refl, l'))
              λ r z. (_, refl, (u, z)))))

  ubicar_pagina-Fijo :
      (s : Globales Estado) → En s → Devuelve Fijo (ubicar_pagina swap o pid pagina s)
  unfolding ubicar_pagina fechar_si_esta
  ubicar_pagina-Fijo s l =
      Devuelve-bind En _ (fechar_si_esta o pid pagina s) _
        (Devuelve-if _ (pagina_is_in_tlb s.tlb.items pid pagina && o.tlb_lru) _ _
          (λ e. fechar_tlb-Lista pid pagina cache i s l) λ e. (s, refl, l))
        λ s1 l1.
          Devuelve-bind Fijo _ (obtener_marco_para_pagina swap o pid pagina s1) _
            (obtener_marco_para_pagina-Fijo s1 l1)
            λ r l2.
              Devuelve-bind En _ (cambiar_pagina _ pid pagina (r.0)) _
                (cambiar_pagina-Lista pid pagina cache i _ (r.0) (λ p k. k) l2.1)
                λ s3 l3.
                  (let n : eq_ℤ (r.1) (negsuc 0) ≡ false = ap (λ z. eq_ℤ z (negsuc 0)) l2.0 in
                    rw n (
                      Devuelve-bind En _ (cambiar_pagina _ pid pagina s3) _
                        (cambiar_pagina-Lista pid pagina cache i _ s3 (λ p k. k) l3)
                        λ s4 l4. (_, refl, (l2.0, l4))))

  accesible-Lista : (s : Globales Estado) → En s → accesible swap o pid pagina s ≡ true
  unfolding accesible
  accesible-Lista s l =
      let (k, x, e, g, m) = l.1 in
      let (y, g', a, b) = get_tlb_item-get_elem? s.tlb.items pid pagina k e in
      let (j, q, t) = entrada-dice s.marcos s.tlb.items k pid pagina y l.0 h g' a b in
      rw (Tiene-pagina_is_in_cache s.marcos j pid pagina t, Lista-pagina_is_in_tlb s l) refl

  pub leer_en_pagina-Lista :
      (tamanio offset : ℕ) (b : Option (List ℕ)) (s : Globales Estado)
      → En s
      → retornar_contenido o.config cache (pos i) offset tamanio ≡ some b
      → Devuelve (λ r. r.1 ≡ b) (leer_en_pagina swap o pid pagina tamanio offset s)
  unfolding leer_en_pagina
  leer_en_pagina-Lista tamanio offset b s l e =
      Devuelve-bind Fijo _ (ubicar_pagina swap o pid pagina s) _ (ubicar_pagina-Fijo s l) λ r v.
        (let n : eq_ℤ (r.1) (negsuc 0) ≡ false = ap (λ z. eq_ℤ z (negsuc 0)) v.0 in
          let c : retornar_contenido o.config (r.0).cache (r.1) offset tamanio ≡ some b =
            ap (λ z. retornar_contenido o.config (r.0).cache z offset tamanio) v.0
            ∙ ap (λ z. retornar_contenido o.config z (pos i) offset tamanio) v.1.3
            ∙ e in
          rw n (
            rw (accesible-Lista (r.0) v.1) (
              Devuelve-bind (λ z. z ≡ b) _
                (retornar_contenido o.config (r.0).cache (r.1) offset tamanio) _ (b, c, refl)
                λ z q.
                  Devuelve-bind (λ u. Unit {0}) _ (marcar o false pid pagina (r.0)) _
                    (marcar_vuelve pid pagina o false (r.0) v.1.2) λ u w. (_, refl, q))))

module _ (swap : Swap) (o : Opciones) (cuentas : Cuenta o.ordenar_tlb) (pid pagina : ℕ)
    (h : 0 < pagina) (b : List ℕ) (offset : ℕ) where
  open swap use {Estado}

  -- After a write that returns 0, a read of the same bytes returns them.
  abbrev Relee : Globales Estado × ℤ → Type 0
  Relee r =
      r.1 ≡ pos 0
      → Devuelve (λ z. z.1 ≡ some b) (leer_en_pagina swap o pid pagina (length b) offset r.0)

  -- The write to the main memory, the bits and the read.
  escrita :
      (s : Globales Estado) (i : ℕ)
      → Coherente s.marcos s.tlb.items
      → EnTlb s.tlb.items pid pagina (pos i)
      → Cumple Relee (do
        (cache, result) ← escribir_en_cache o.config s.cache (pos i) b offset
        s2 ← marcar o true pid pagina (record s { cache = cache })
        some (s2, result))
  escrita s i c e = Cumple-bind_eq _ (escribir_en_cache o.config s.cache (pos i) b offset) _ λ q f.
      (let t = record s { cache = q.0 } in
        Cumple-bind _ _ (marcar o true pid pagina t) _
          (Cumple-× (Mismos pid pagina t) (Hay pid pagina) (marcar o true pid pagina t)
            (marcar-Mismos pid pagina o true t) (marcar-Hay pid pagina o true t))
          λ u v. λ z.
            leer_en_pagina-Lista swap o cuentas pid pagina h (q.0) i (length b) offset (some b) u
              (Lista-Mismos pid pagina (q.0) i t u c e refl v.0 v.1)
              (retornar_contenido-escribir_en_cache o.config s.cache (q.0) b i offset
                (f ∙ ap (λ k. some (q.0, k)) z)).1)

  escribir_en_pagina-Relee :
      (s : Globales Estado)
      → Coherente s.marcos s.tlb.items
      → Cumple Relee (escribir_en_pagina swap o pid pagina b offset s)
  unfolding escribir_en_pagina
  escribir_en_pagina-Relee s c =
      Cumple-bind _ _ (ubicar_pagina swap o pid pagina s) _
        (Cumple-× _ _ (ubicar_pagina swap o pid pagina s)
          (ubicar_pagina-Encontrada swap o cuentas pid pagina h s c)
          (ubicar_pagina-Anotada swap o cuentas pid pagina h s c))
        λ r v. ubicada (r.0) (r.1) v.0 v.1
    where
      ubicada :
          (t : Globales Estado) (marco : ℤ)
          → Encontrada pid pagina marco t.marcos t.tlb.items
          → Anotada pid pagina marco t.tlb.items
          → Cumple Relee (
              if not (eq_ℤ marco (negsuc 0)) && accesible swap o pid pagina t
              then (do
                (cache, result) ← escribir_en_cache o.config t.cache marco b offset
                s2 ← marcar o true pid pagina (record t { cache = cache })
                some (s2, result))
              else some (t, negsuc 0))
      ubicada t (pos i) v w =
          Cumple-if Relee (accesible swap o pid pagina t) _ _ (λ e. escrita t i v.0 w) λ e. λ z. cc
      ubicada t (negsuc zero) v w = λ z. cc
      ubicada t (negsuc (suc n)) v w = absurd v.1

  -- If list_sort keeps the elements, the frames and the TLB agree, the number of the page is from
  -- 1 on, and escribir_en_pagina of the bytes at an offset returns 0, then leer_en_pagina of as
  -- many bytes at that offset, in the state that the write leaves, returns, with these bytes.
  pub leer_en_pagina-escribir_en_pagina :
      (s s' : Globales Estado)
      → Coherente s.marcos s.tlb.items
      → escribir_en_pagina swap o pid pagina b offset s ≡ some (s', pos 0)
      → Devuelve (λ r. r.1 ≡ some b) (leer_en_pagina swap o pid pagina (length b) offset s')
  leer_en_pagina-escribir_en_pagina s s' c e =
      Cumple-eq Relee (escribir_en_pagina swap o pid pagina b offset s) (s', pos 0)
        (escribir_en_pagina-Relee s c) e refl
