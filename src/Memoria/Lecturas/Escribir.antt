-- ===== src/Memoria/Lecturas/Escribir.antt =====
-- memory_memwrite of memoria/src/memory.c over the frames, of bytes that lie in one page, and the
-- read of them.
use exitos_con_esto.Prelude.{
  take-todo, ℕ, suc, ◌+◌, ◌/◌, ◌%◌, ◌≤◌, ◌<◌, ◌≡◌, ◌⊎◌, refl, sym, ◌∙◌, ap, inl, inr, true, false,
  Bool-cases, List, [], ◌∷◌, Option, some, bind-inv, ltb, get_elem?, take, length, ℤ, pos, eq_ℤ,
  eq_ℤ→eq, u32, sub_u32,
}
use exitos_con_esto.Memoria.Datos.{Alloc, Carpincho, Pagina, StatusMemoryOp, exito}
use exitos_con_esto.Memoria.Allocs.{obtener_alloc_de_un_carpincho}
use exitos_con_esto.Memoria.Metadatos.{Escritura, agrupar, trozos}
use exitos_con_esto.Memoria.Carpinchos.{get_carpincho}
use exitos_con_esto.Memoria.Direcciones.{
  escribir_en_alloc, escribir_posiciones, memory_memwrite,
  validar_direccion_logica_escritura_con_size,
}
use exitos_con_esto.Memoria.Marcos.{Globales, Opciones, Swap}
use exitos_con_esto.Memoria.Paginas.{escribir_en_pagina}
use exitos_con_esto.Memoria.Cuentas.{Devuelve}
use exitos_con_esto.Memoria.Coherencia.{Coherente}
use exitos_con_esto.Memoria.Coherencia.Cargar.{Cuenta}
use exitos_con_esto.Memoria.Lecturas.{hacer_escrituras, memory_memread, memwrite_en_marcos}
use exitos_con_esto.Memoria.Lecturas.UnaPagina.{agrupar_una_pagina}
use exitos_con_esto.Memoria.Lecturas.TrasEscribir.{memory_memread-escribir_en_pagina}

abbrev escritura : Pagina → List ℕ → ℕ → Escritura
escritura p b offset = record { pagina = p; buffer = b; offset = offset }

module _ (o : Opciones) (c : Carpincho) (p : Pagina) (dir n : ℕ) (b : List ℕ)
    (g : get_elem? c.paginas (dir / o.config.tamanio_pagina) ≡ some p)
    (z : 0 < o.config.tamanio_pagina)
    (h : dir % o.config.tamanio_pagina + suc n ≤ o.config.tamanio_pagina)
    (l : dir + suc n ≤ 4294967296) (m : length b ≡ suc n) where
  una_escritura :
      escribir_posiciones c (trozos b 0 (agrupar o.config.tamanio_pagina dir 0 (suc n) []))
      ≡ some (escritura p b (dir % o.config.tamanio_pagina) ∷ [])
  unfolding escribir_posiciones trozos
  una_escritura =
      let (es, k, a) = agrupar_una_pagina n o.config.tamanio_pagina dir z h l in
      let t : take (suc (length es)) b ≡ b = take-todo (suc (length es)) b (m ∙ ap suc (sym k)) in
      rw a (rw g (rw t refl))

  -- A write that is done has found its address valid, and is one write to the page.
  memory_memwrite-escritura :
      (es : List Escritura)
      → memory_memwrite o.config (some c) dir (suc n) b ≡ some (exito, es)
      → (validar_direccion_logica_escritura_con_size o.config c dir (suc n) ≡ true)
        × (es ≡ escritura p b (dir % o.config.tamanio_pagina) ∷ [])
  unfolding memory_memwrite escribir_en_alloc
  memory_memwrite-escritura es e =
      elim (Bool-cases (validar_direccion_logica_escritura_con_size o.config c dir (suc n))) [
        | inr v ↦ let e' = rw (v, memory_memwrite) at e in cc
        | inl v ↦
            let e1 = rw (v, memory_memwrite) at e in
            let (a, f, e2) = bind-inv (obtener_alloc_de_un_carpincho c.allocs dir) _ _ e1 in
            (v, hecha a e2)
      ]
    where
      hecha :
          (a : Alloc)
          → escribir_en_alloc o.config c dir (suc n) b a ≡ some (exito, es)
          → es ≡ escritura p b (dir % o.config.tamanio_pagina) ∷ []
      hecha a e =
          let fin = u32 (a.direccion + 9 + a.tamanio_data + 4294967295) in
          elim (Bool-cases (ltb (u32 (sub_u32 fin dir + 1)) (suc n))) [
            | inl k ↦ let e' = rw (k, escribir_en_alloc) at e in cc
            | inr k ↦
                let e1 = rw (k, escribir_en_alloc) at e in let e2 = rw una_escritura at e1 in cc
          ]

module _ (swap : Swap) (o : Opciones) (cuentas : Cuenta o.ordenar_tlb) where
  open swap use {Estado}

  -- The only write, and what it returns.
  hacer_una_escritura :
      (s t : Globales Estado) (p : Pagina) (b : List ℕ) (offset : ℕ)
      → hacer_escrituras swap o (escritura p b offset ∷ []) s ≡ some t
      → (r : ℤ) × (escribir_en_pagina swap o p.carpincho_pid p.pagina b offset s ≡ some (t, r))
  unfolding hacer_escrituras
  hacer_una_escritura s t p b offset d =
      let ((u, r), i, j) =
        bind-inv (escribir_en_pagina swap o p.carpincho_pid p.pagina b offset s) _ _ d in
      let k : u ≡ t = cc in (r, i ∙ ap (λ y. some (y, r)) k)

  -- A write that is done in the frames is one write to the page.
  memwrite_en_marcos-escritura :
      (s s' : Globales Estado) (pid dir n : ℕ) (c : Carpincho) (p : Pagina) (b : List ℕ)
      → get_carpincho s.carpinchos pid ≡ some c
      → get_elem? c.paginas (dir / o.config.tamanio_pagina) ≡ some p
      → 0 < o.config.tamanio_pagina
      → dir % o.config.tamanio_pagina + suc n ≤ o.config.tamanio_pagina
      → dir + suc n ≤ 4294967296
      → length b ≡ suc n
      → memwrite_en_marcos swap o s pid dir (suc n) b ≡ some (s', exito)
      → (r : ℤ) × (validar_direccion_logica_escritura_con_size o.config c dir (suc n) ≡ true)
        × (escribir_en_pagina swap o p.carpincho_pid p.pagina b (dir % o.config.tamanio_pagina) s
            ≡ some (s', r))
  unfolding memwrite_en_marcos
  memwrite_en_marcos-escritura s s' pid dir n c p b e g z h l m w =
      let ((estado, es), a, w1) =
        bind-inv (memory_memwrite o.config (get_carpincho s.carpinchos pid) dir (suc n) b) _ _ w in
      let (t, d, w2) = bind-inv (hacer_escrituras swap o es s) _ _ w1 in hecho estado es t a d w2
    where
      hecho :
          (estado : StatusMemoryOp) (es : List Escritura) (t : Globales Estado)
          → memory_memwrite o.config (get_carpincho s.carpinchos pid) dir (suc n) b
            ≡ some (estado, es)
          → hacer_escrituras swap o es s ≡ some t
          → ◌≡◌ {A = Option (Globales Estado × StatusMemoryOp)}
              (some (t, estado))
              (some (s', exito))
          → (r : ℤ) × (validar_direccion_logica_escritura_con_size o.config c dir (suc n) ≡ true)
            × (escribir_en_pagina swap o p.carpincho_pid p.pagina b
                  (dir % o.config.tamanio_pagina)
                  s
                ≡ some (s', r))
      hecho estado es t a d w =
          let st : estado ≡ exito = cc in
          let q : t ≡ s' = cc in
          let a' =
            ap (λ k. memory_memwrite o.config k dir (suc n) b) (sym e)
            ∙ a
            ∙ ap (λ k. some (k, es)) st in
          let (v, u) = memory_memwrite-escritura o c p dir n b g z h l m es a' in
          let (r, i) =
            hacer_una_escritura s s' p b (dir % o.config.tamanio_pagina)
              (ap (λ k. hacer_escrituras swap o k s) (sym u) ∙ d ∙ ap some q) in
          (r, v, i)

  -- If list_sort keeps the elements, the frames and the TLB agree, the process is known, the bytes
  -- are not none and lie in one page of it below 2^32, the number of the page is from 1 on, the
  -- pages have a size, there are as many bytes as are asked for, and memory_memwrite of them
  -- answers success, then either its one call of escribir_en_pagina has returned something else
  -- than 0, or memory_memread of as many bytes from the same address returns, with success and
  -- these bytes.
  pub memory_memread-memwrite_en_marcos :
      (s s' : Globales Estado) (pid dir n : ℕ) (c : Carpincho) (p : Pagina) (b buffer : List ℕ)
      → Coherente s.marcos s.tlb.items
      → get_carpincho s.carpinchos pid ≡ some c
      → get_elem? c.paginas (dir / o.config.tamanio_pagina) ≡ some p
      → 0 < p.pagina
      → 0 < o.config.tamanio_pagina
      → dir % o.config.tamanio_pagina + suc n ≤ o.config.tamanio_pagina
      → dir + suc n ≤ 4294967296
      → length b ≡ suc n
      → length buffer ≡ suc n
      → memwrite_en_marcos swap o s pid dir (suc n) b ≡ some (s', exito)
      → ((r : ℤ) × (escribir_en_pagina swap o p.carpincho_pid p.pagina b
              (dir % o.config.tamanio_pagina)
              s
            ≡ some (s', r))
          × (eq_ℤ r (pos 0) ≡ false))
        ⊎ Devuelve
            (λ r. (r.1 ≡ exito) × (r.2 ≡ b))
            (memory_memread swap o s' pid dir (suc n) buffer)
  memory_memread-memwrite_en_marcos s s' pid dir n c p b buffer k e g hp z h l m q w =
      let (r, v, i) = memwrite_en_marcos-escritura s s' pid dir n c p b e g z h l m w in
      elim (Bool-cases (eq_ℤ r (pos 0))) [
        | inr d ↦ inl (r, i, d)
        | inl d ↦ inr (
            memory_memread-escribir_en_pagina swap o cuentas s s' pid dir n c p b buffer k e v g hp
              z h l m q (i ∙ ap (λ y. some (s', y)) (eq_ℤ→eq r (pos 0) d)))
      ]
