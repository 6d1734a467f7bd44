-- ===== src/Memoria/Lecturas/TrasEscribir.antt =====
-- memory_memread of memoria/src/memory.c after a write to the page that it reads.
use mathlib.Core.Path.{subst}
use exitos_con_esto.Prelude.{
  ℕ, zero, suc, ◌+◌, ◌/◌, ◌%◌, ◌≤◌, ◌<◌, ◌≡◌, refl, sym, ◌∙◌, ap, inl, inr, true, Bool-cases, List,
  [], ◌∷◌, some, map, ◌==◌, get_elem?, length, pos, u32,
}
use exitos_con_esto.Memoria.Datos.{Carpincho, Config, Pagina, exito}
use exitos_con_esto.Memoria.Carpinchos.{buscar, get_carpincho}
use exitos_con_esto.Memoria.Direcciones.{
  validar_desde, validar_direccion_logica, validar_direccion_logica_escritura,
  validar_direccion_logica_escritura_con_size,
}
use exitos_con_esto.Memoria.Marcos.{Globales, Opciones, Swap}
use exitos_con_esto.Memoria.Paginas.{escribir_en_pagina, leer_en_pagina}
use exitos_con_esto.Memoria.Cuentas.{Cumple-eq, Devuelve}
use exitos_con_esto.Memoria.Coherencia.{Coherente}
use exitos_con_esto.Memoria.Coherencia.Cargar.{Cuenta}
use exitos_con_esto.Memoria.Coherencia.Conserva.{escribir_en_pagina-Con}
use exitos_con_esto.Memoria.Coherencia.Forma.{clave, forma, forma_de}
use exitos_con_esto.Memoria.Coherencia.Releer.{leer_en_pagina-escribir_en_pagina}
use exitos_con_esto.Memoria.Lecturas.{memory_memread}
use exitos_con_esto.Memoria.Lecturas.UnaPagina.{memory_memread-leer_en_pagina}

buscar-forma :
    (cs cs' : List Carpincho) (pid : ℕ) (c : Carpincho)
    → forma cs' ≡ forma cs
    → buscar cs pid ≡ some c
    → (c' : Carpincho) × (buscar cs' pid ≡ some c') × (forma_de c' ≡ forma_de c)
unfolding buscar
buscar-forma [] cs' pid c f e = cc
buscar-forma (d ∷ cs) [] pid c f e = cc
buscar-forma (d ∷ cs) (d' ∷ cs') pid c f e =
    let h : forma_de d' ≡ forma_de d = cc in
    let r : forma cs' ≡ forma cs = cc in
    let q : d'.pid ≡ d.pid = ap (λ x. x.0) h in
    elim (Bool-cases (d.pid == pid)) [
      | inl g ↦
          let e' = rw g at e in
          let s : d ≡ c = cc in (d', rw (ap (λ k. k == pid) q ∙ g) refl, h ∙ ap forma_de s)
      | inr g ↦
          let (c', i, j) = buscar-forma cs cs' pid c r (rw g at e) in
          (c', rw (ap (λ k. k == pid) q ∙ g) i, j)
    ]

get_elem?-claves :
    (ps ps' : List Pagina) (k : ℕ) (p : Pagina)
    → map clave ps' ≡ map clave ps
    → get_elem? ps k ≡ some p
    → (p' : Pagina) × (get_elem? ps' k ≡ some p') × (clave p' ≡ clave p)
get_elem?-claves [] ps' k p f e = cc
get_elem?-claves (x ∷ ps) [] k p f e = cc
get_elem?-claves (x ∷ ps) (x' ∷ ps') zero p f e =
    let h : clave x' ≡ clave x = cc in let s : x ≡ p = cc in (x', refl, h ∙ ap clave s)
get_elem?-claves (x ∷ ps) (x' ∷ ps') (suc k) p f e =
    let r : map clave ps' ≡ map clave ps = cc in get_elem?-claves ps ps' k p r e

length-claves : (ps : List Pagina) → length (map clave ps) ≡ length ps
length-claves [] = refl
length-claves (p ∷ ps) = ap suc (length-claves ps)

module _ (config : Config) (c c' : Carpincho) (a : c'.allocs ≡ c.allocs)
    (l : length c'.paginas ≡ length c.paginas) where
  validar_escritura-igual :
      (abs : ℕ)
      → validar_direccion_logica_escritura config c' abs
        ≡ validar_direccion_logica_escritura config c abs
  unfolding validar_direccion_logica_escritura validar_direccion_logica
  validar_escritura-igual abs = rw (l, validar_direccion_logica_escritura) (rw a refl)

  validar_desde-igual :
      (abs i n : ℕ) → validar_desde config c' abs i n ≡ validar_desde config c abs i n
  unfolding validar_desde
  validar_desde-igual abs i zero = refl
  validar_desde-igual abs i (suc n) =
      rw (validar_escritura-igual (u32 (abs + i)), validar_desde-igual abs (suc i) n) refl

module _ (swap : Swap) (o : Opciones) (cuentas : Cuenta o.ordenar_tlb) where
  open swap use {Estado}

  pub memory_memread-escribir_en_pagina :
      (s s' : Globales Estado) (pid dir n : ℕ) (c : Carpincho) (p : Pagina) (b buffer : List ℕ)
      → Coherente s.marcos s.tlb.items
      → get_carpincho s.carpinchos pid ≡ some c
      → validar_direccion_logica_escritura_con_size o.config c dir (suc n) ≡ true
      → get_elem? c.paginas (dir / o.config.tamanio_pagina) ≡ some p
      → 0 < p.pagina
      → 0 < o.config.tamanio_pagina
      → dir % o.config.tamanio_pagina + suc n ≤ o.config.tamanio_pagina
      → dir + suc n ≤ 4294967296
      → length b ≡ suc n
      → length buffer ≡ suc n
      → escribir_en_pagina swap o p.carpincho_pid p.pagina b (dir % o.config.tamanio_pagina) s
        ≡ some (s', pos 0)
      → Devuelve (λ r. (r.1 ≡ exito) × (r.2 ≡ b)) (memory_memread swap o s' pid dir (suc n) buffer)
  unfolding get_carpincho validar_direccion_logica_escritura_con_size
  memory_memread-escribir_en_pagina s s' pid dir n c p b buffer k e v g hp z h l m q w =
      let offset = dir % o.config.tamanio_pagina in
      let escrito = escribir_en_pagina swap o p.carpincho_pid p.pagina b offset s in
      let f =
        Cumple-eq _ escrito (s', pos 0)
          (escribir_en_pagina-Con swap o (forma s.carpinchos.lista) p.carpincho_pid p.pagina b
            offset s refl)
          w in
      let (c', e', fc) = buscar-forma s.carpinchos.lista s'.carpinchos.lista pid c f e in
      let claves : map clave c'.paginas ≡ map clave c.paginas = ap (λ x. x.2) fc in
      let (p', g', fp) =
        get_elem?-claves c.paginas c'.paginas (dir / o.config.tamanio_pagina) p claves g in
      let largo = sym (length-claves c'.paginas) ∙ ap length claves ∙ length-claves c.paginas in
      let v' = validar_desde-igual o.config c c' (ap (λ x. x.1) fc) largo dir 0 (suc n) ∙ v in
      let r =
        leer_en_pagina-escribir_en_pagina swap o cuentas p.carpincho_pid p.pagina hp b offset s s' k
          w in
      memory_memread-leer_en_pagina swap o s' pid dir n c' p' b buffer e' v' g' z h l m q (
        subst (λ x. Devuelve (λ r. r.1 ≡ some b) (leer_en_pagina swap o x.0 x.1 (suc n) offset s'))
          (sym fp)
          (subst
            (λ t.
              Devuelve (λ r. r.1 ≡ some b)
                (leer_en_pagina swap o p.carpincho_pid p.pagina t offset s'))
            m r))
