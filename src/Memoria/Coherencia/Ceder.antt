-- ===== src/Memoria/Coherencia/Ceder.antt =====
-- Page replacement (swampear_pagina and swampear_pagina_when_create_page of memoria/src/memory.c)
-- keeps the frames and the TLB in agreement, and the frame goes to the new page.
use exitos_con_esto.Prelude.{
  ℕ, zero, suc, ◌≡◌, refl, sym, inl, inr, ◌∙◌, true, false, not, ◌&&◌, List, [], ◌∷◌, ◌++◌, some,
  arith, Bool-cases, Option-cases, ℤ, pos, negsuc, eq_ℤ, get_elem?, set, if◌then◌else◌, take,
}
use exitos_con_esto.Memoria.Datos.{Pagina}
use exitos_con_esto.Memoria.Carpinchos.{buscar}
use exitos_con_esto.Memoria.Tlb.{TlbItem}
use exitos_con_esto.Memoria.Reloj.{m_clock, menor_marco}
use exitos_con_esto.Memoria.Cache.{escribir_en_cache, limpiar_marco, retornar_contenido}
use exitos_con_esto.Memoria.Marcos.{
  Globales, Marco, Opciones, Swap, es_de, get_marco_by_marco_number,
  get_pages_in_cache_by_carpincho_pid, get_all_pages_in_cache, guardar_marco, asentar_paginas,
  pagina_is_in_cache,
}
use exitos_con_esto.Memoria.Swampear.{
  cadena, ceder_marco, elegir_pagina, enviar_pagina, get_proxima_a_swampear_by_lru,
  get_proxima_a_swampear_by_m_clock, guardar_en_swap, lectura_swamp, libre, olvidar_marco,
  swampear_pagina, swampear_pagina_when_create_page, vaciar_marco_en_cache,
}
use exitos_con_esto.Memoria.Cuentas.{Cumple, Cumple-bind, Cumple-bind_eq, Cumple-if, cuenta}
use exitos_con_esto.Memoria.Coherencia.{Coherente, Tiene, Ubicada, en_marco}
use exitos_con_esto.Memoria.Coherencia.Numeros.{MarcosBien-get_elem?, guardar_marco-set, por_numero}
use exitos_con_esto.Memoria.Coherencia.Entradas.{cambiar_marco-Coherente, olvidar_marco-Coherente}

get_elem?-set_eq :
    (ms : List Marco) (i : ℕ) (m m' : Marco)
    → get_elem? ms i ≡ some m
    → get_elem? (set ms i m') i ≡ some m'
get_elem?-set_eq [] i m m' e = cc
get_elem?-set_eq (x ∷ ms) zero m m' e = refl
get_elem?-set_eq (x ∷ ms) (suc i) m m' e = get_elem?-set_eq ms i m m' e

-- The frame is in no entry of the TLB.
abbrev pub Vaciado : ℤ → List Marco → List TlbItem → Type 0
Vaciado (pos i) ms items = Coherente ms items × (cuenta (en_marco (pos i)) items ≡ 0)
Vaciado (negsuc n) ms items = ⊥

abbrev pub Cedido : ℕ → ℕ → ℕ → List Marco → List TlbItem → Type 0
Cedido pid pagina k ms items =
    Coherente ms items × (cuenta (en_marco (pos k)) items ≡ 0) × Tiene ms k pid pagina

module _ {Sw : Type 0} where
  pub vaciar_marco_en_cache-Vaciado :
      (o : Opciones) (s : Globales Sw) (marco : ℤ)
      → Coherente s.marcos s.tlb.items
      → Cumple (λ r. Vaciado marco r.marcos r.tlb.items) (vaciar_marco_en_cache o s marco)
  unfolding vaciar_marco_en_cache
  vaciar_marco_en_cache-Vaciado o s (negsuc n) c = tt
  vaciar_marco_en_cache-Vaciado o s (pos i) c = Cumple-bind_eq _ (get_elem? s.marcos i) _ λ m g.
      Cumple-bind_eq _ (limpiar_marco o.config s.cache (pos i)) _ λ cache e.
        Cumple-bind _ _ (olvidar_marco s.tlb.items (pos i)) _
          (olvidar_marco-Coherente s.marcos s.tlb.items i c)
          λ items v. (
            cambiar_marco-Coherente s.marcos items i (libre m) v.0 v.1
                (omega (arith, (MarcosBien-get_elem? 0 s.marcos i m c.bien g).0)) (λ h. refl),
            v.1,
          )

asignado :
    (ms ms' : List Marco) (items : List TlbItem) (i k pid pagina : ℕ) (m m' : Marco)
    → k ≡ i
    → ms' ≡ set ms i m'
    → get_elem? ms i ≡ some m
    → m'.marco ≡ i
    → m'.is_free ≡ false
    → es_de pid pagina m' ≡ true
    → Coherente ms items
    → cuenta (en_marco (pos i)) items ≡ 0
    → Cedido pid pagina k ms' items
asignado ms ms' items i k pid pagina m m' p q g n f d c z =
    rw (p, q)
      (
        cambiar_marco-Coherente ms items i m' c z n (λ h. cc),
        z,
        (m', get_elem?-set_eq ms i m m' g, f, d),
      )

-- The frame, once empty, is given to a page.
pub asignar-Cedido :
    (marco : ℤ) (ms : List Marco) (items : List TlbItem) (m : Marco) (pid pagina : ℕ)
    → Vaciado marco ms items
    → get_marco_by_marco_number ms marco ≡ some m
    → Cedido pid pagina m.marco
        (guardar_marco (record m { pagina = pagina; pid = pid; is_free = false }) ms)
        items
asignar-Cedido (negsuc n) ms items m pid pagina v e = absurd v
asignar-Cedido (pos i) ms items m pid pagina v e =
    let c = v.0 in
    let g : get_elem? ms i ≡ some m = sym (por_numero ms i c.bien) ∙ e in
    let n = (MarcosBien-get_elem? 0 ms i m c.bien g).0 in
    let p : m.marco ≡ i = omega (arith, n) in
    let m' : Marco = record m { pagina = pagina; pid = pid; is_free = false } in
    let d : es_de pid pagina m' ≡ true = ground arith in
    asignado ms (guardar_marco m' ms) items i m.marco pid pagina m m' p
      (guardar_marco-set 0 ms i m' c.bien n) g p refl d c v.1

module _ (swap : Swap) where
  open swap use {Estado}

  pub ceder_marco-Cedido :
      (o : Opciones) (s : Globales Estado) (p : Pagina) (pid pagina : ℕ)
      → Coherente s.marcos s.tlb.items
      → Cumple
          (λ r. Cedido pid pagina r.1 (r.0).marcos (r.0).tlb.items)
          (ceder_marco swap o s p pid pagina)
  unfolding ceder_marco
  ceder_marco-Cedido o s p pid pagina c =
      Cumple-bind _ _ (vaciar_marco_en_cache o s p.marco) _
        (vaciar_marco_en_cache-Vaciado o s p.marco c)
        λ s' v.
          Cumple-bind_eq _ (get_marco_by_marco_number s'.marcos p.marco) _
            λ m e. asignar-Cedido p.marco s'.marcos s'.tlb.items m pid pagina v e

-- What says something of the frames and the TLB only.
module _ {Sw : Type 0} (P : List Marco → List TlbItem → Type 0) where
  abbrev Vale : Globales Sw → Type 0
  Vale s = P s.marcos s.tlb.items

  m_clock-Vale :
      (o : Opciones) (s : Globales Sw) (paginas : List Pagina)
      → Vale s
      → Cumple (λ r. Vale (r.0)) (get_proxima_a_swampear_by_m_clock o s paginas)
  unfolding get_proxima_a_swampear_by_m_clock
  m_clock-Vale o s paginas v =
      let lista = s.carpinchos.lista in
      Cumple-if _ o.config.fija _ _
        (λ h. Cumple-bind_eq _ (get_elem? (o.ordenar_paginas menor_marco paginas) 0) _ λ primera e.
          Cumple-bind_eq _ (buscar lista primera.carpincho_pid) _ λ c f.
            Cumple-bind_eq _ (m_clock c.algoritm_stack_pointer _) _ λ r g.
              Cumple-bind_eq _ (buscar (asentar_paginas r.0 lista) primera.carpincho_pid) _
                λ c' k. v)
        (λ h. Cumple-bind_eq _ (m_clock s.algoritm_stack_pointer _) _ λ r g. v)

  pub elegir_pagina-Vale :
      (o : Opciones) (s : Globales Sw) (pid : ℕ)
      → Vale s
      → Cumple (λ r. Vale (r.0)) (elegir_pagina o s pid)
  unfolding elegir_pagina
  elegir_pagina-Vale o s pid v =
      Cumple-bind_eq _
        (if o.config.fija
          then get_pages_in_cache_by_carpincho_pid s.marcos s.carpinchos.lista pid
          else some (get_all_pages_in_cache s.carpinchos.lista))
        _
        λ paginas e.
          Cumple-if _ o.m_clock _ _ (λ h. m_clock-Vale o s paginas v)
            λ h. Cumple-bind_eq _ (get_proxima_a_swampear_by_lru o paginas) _ λ p g. v

module _ (swap : Swap) (P : List Marco → List TlbItem → Type 0) where
  open swap use {Estado, leer}

  pub guardar_en_swap-Vale :
      (o : Opciones) (s : Globales Estado) (p : Pagina)
      → P s.marcos s.tlb.items
      → Cumple (λ r. P r.marcos r.tlb.items) (guardar_en_swap swap o s p)
  unfolding guardar_en_swap enviar_pagina
  guardar_en_swap-Vale o s p v =
      Cumple-if _ (o.m_clock && not p.bit_de_modificacion) _ _ (λ h. v)
        λ h. Cumple-bind_eq _ (retornar_contenido o.config s.cache p.marco 0 _) _ λ leido e.
          Cumple-bind_eq _ leido _
            λ bytes f. Cumple-bind_eq _ (cadena (bytes ++ swap.detras s.swap)) _ λ msg g. v

  pub lectura_swamp-Vale :
      (o : Opciones) (s : Globales Estado) (pid pagina : ℕ) (marco : ℤ)
      → P s.marcos s.tlb.items
      → Cumple (λ r. P (r.0).marcos (r.0).tlb.items) (lectura_swamp swap o s pid pagina marco)
  unfolding lectura_swamp
  lectura_swamp-Vale o s pid pagina marco v = elim (Option-cases (leer s.swap pid pagina).1) [
    | inl e ↦ rw (e, lectura_swamp) v
    | inr (bytes, e) ↦
        rw (e, lectura_swamp)
          (Cumple-bind_eq _
            (escribir_en_cache o.config s.cache marco (take o.config.tamanio_pagina bytes) 0) _
            λ c f. v)
  ]

-- Of a page that was looked for: where it is, if it is not -1.
abbrev pub Encontrada : ℕ → ℕ → ℤ → List Marco → List TlbItem → Type 0
Encontrada pid pagina marco ms items = Coherente ms items × Ubicada ms marco pid pagina

module _ (swap : Swap) (o : Opciones) where
  open swap use {Estado}

  -- swampear_pagina_when_create_page
  pub swampear_pagina_when_create_page-Cedido :
      (s : Globales Estado) (pid pagina : ℕ)
      → Coherente s.marcos s.tlb.items
      → Cumple
          (λ r. Cedido pid pagina r.1 (r.0).marcos (r.0).tlb.items)
          (swampear_pagina_when_create_page swap o s pid pagina)
  unfolding swampear_pagina_when_create_page
  swampear_pagina_when_create_page-Cedido s pid pagina c =
      Cumple-bind _ _ (elegir_pagina o s pid) _ (elegir_pagina-Vale Coherente o s pid c) λ r c1.
        Cumple-bind _ _ (guardar_en_swap swap o (r.0) (r.1)) _
          (guardar_en_swap-Vale swap Coherente o (r.0) (r.1) c1)
          λ s2 c2. ceder_marco-Cedido swap o s2 (r.1) pid pagina c2

  encontrada :
      (r : ℤ) (k pid pagina : ℕ) (ms : List Marco) (items : List TlbItem)
      → Cedido pid pagina k ms items
      → Encontrada pid pagina (if eq_ℤ r (negsuc 0) then negsuc 0 else pos k) ms items
  encontrada r k pid pagina ms items c = elim (Bool-cases (eq_ℤ r (negsuc 0))) [
    | inl e ↦ rw e (c.0, tt)
    | inr e ↦ rw e (c.0, c.2)
  ]

  -- swampear_pagina
  pub swampear_pagina-Encontrada :
      (s : Globales Estado) (pid pagina : ℕ)
      → Coherente s.marcos s.tlb.items
      → Cumple
          (λ r. Encontrada pid pagina r.1 (r.0).marcos (r.0).tlb.items)
          (swampear_pagina swap o s pid pagina)
  unfolding swampear_pagina
  swampear_pagina-Encontrada s pid pagina c =
      Cumple-bind _ _ (elegir_pagina o s pid) _ (elegir_pagina-Vale Coherente o s pid c) λ r c1.
        Cumple-if _ (pagina_is_in_cache (r.0).marcos (r.1).carpincho_pid (r.1).pagina) _ _
          (λ h.
            Cumple-bind _ _ (guardar_en_swap swap o (r.0) (r.1)) _
              (guardar_en_swap-Vale swap Coherente o (r.0) (r.1) c1)
              λ s2 c2.
                Cumple-bind _ _ (ceder_marco swap o s2 (r.1) pid pagina) _
                  (ceder_marco-Cedido swap o s2 (r.1) pid pagina c2)
                  λ t c3.
                    Cumple-bind _ _ (lectura_swamp swap o (t.0) pid pagina (pos t.1)) _
                      (lectura_swamp-Vale swap (Cedido pid pagina (t.1)) o (t.0) pid pagina
                        (pos t.1) c3)
                      λ u c4. encontrada (u.1) (t.1) pid pagina (u.0).marcos (u.0).tlb.items c4)
          (λ h. (c1, tt))
