-- ===== src/Swamp/Guardado.antt =====
-- What escribir_swap of swamp-v2/src/swamp.c leaves, on each of its answers.
use Prim.Native.String.{String}
use text.Mathlib.Text.{◌==◌ as str_eq}
use text.Mathlib.TextPositions.{eq_refl}
use exitos_con_esto.Prelude.{
  ℕ, ◌≡◌, refl, sym, ◌∙◌, ap, Bool, true, false, List, [], ◌∷◌, ◌++◌, Option, none, some, inl, inr,
  ◌⊎◌, arith, if◌then◌else◌, bind-inv, ℤ, pos, negsuc, eq_ℤ, eq_ℤ-refl, Bool-cases, Option-cases,
}
use exitos_con_esto.Swamp.Estado.{Config, Estado, Operacion, Proceso, escribir}
use exitos_con_esto.Swamp.Marcos.{actualizar_carpincho, actualizar_marcos, hay_espacio_archivo}
use exitos_con_esto.Swamp.Archivos.{
  agregar, archivo_de, archivo_libre, chequear_asignacion, chequear_fija, recibir_pagina,
}
use exitos_con_esto.Swamp.Operaciones.{escribir_en, escribir_marco, escribir_swap, guardar_pagina}

archivo_de-agregado :
    (cs : List Proceso) (pid : ℤ) (archivo : String) (n : ℤ)
    → archivo_de cs pid ≡ none
    → archivo_de (cs ++ record { pid = pid; archivo = archivo; cant_marcos = n } ∷ []) pid
      ≡ some archivo
unfolding archivo_de
archivo_de-agregado [] pid archivo n e = rw (eq_ℤ-refl pid) refl
archivo_de-agregado (c ∷ cs) pid archivo n e = elim (Bool-cases (eq_ℤ c.pid pid)) [
  | inl s ↦ let e' = rw s at e in cc
  | inr o ↦ rw o (archivo_de-agregado cs pid archivo n (rw o at e))
]

archivo_de-actualizado :
    (cs : List Proceso) (pid otro : ℤ)
    → archivo_de (actualizar_carpincho escribir cs otro) pid ≡ archivo_de cs pid
unfolding archivo_de actualizar_carpincho
archivo_de-actualizado [] pid otro = refl
archivo_de-actualizado (c ∷ cs) pid otro = elim (Bool-cases (eq_ℤ c.pid otro)) [
  | inl s ↦ rw (s, archivo_de-actualizado cs pid otro) refl
  | inr o ↦ rw (o, archivo_de-actualizado cs pid otro) refl
]

-- A process of the table is served by its file, and the table stays.
pub recibir_pagina-conocido :
    (config : Config) (s : Estado) (pid : ℤ) (op : Operacion) (archivo : String)
    → archivo_de s.carpinchos pid ≡ some archivo
    → recibir_pagina config s pid op ≡ some (s, some archivo)
unfolding recibir_pagina
recibir_pagina-conocido config s pid op archivo e = rw e refl

-- Which fields a request that is granted a file changes.
record Recibido (s t : Estado) (pid : ℤ) (archivo : String) : Type 0 where
  conocido : archivo_de t.carpinchos pid ≡ some archivo
  marcos : t.marcos ≡ s.marcos
  disco : t.disco ≡ s.disco

Recibido-igual :
    (s u t : Estado) (pid : ℤ) (b archivo : String)
    → ◌≡◌ {A = Option (Estado × Option String)} (some (u, some b)) (some (t, some archivo))
    → Recibido s u pid b
    → Recibido s t pid archivo
Recibido-igual s u t pid b archivo e h =
    let q : b ≡ archivo = ground arith in let r : u ≡ t = cc in rw (sym q, sym r) h

recibir_pagina-Recibido :
    (config : Config) (s t : Estado) (pid : ℤ) (archivo : String)
    → recibir_pagina config s pid escribir ≡ some (t, some archivo)
    → Recibido s t pid archivo
unfolding recibir_pagina
recibir_pagina-Recibido config s t pid archivo e =
    elim (Option-cases (archivo_de s.carpinchos pid)) [
      | inr (b, f) ↦
          Recibido-igual s s t pid b archivo (rw f at e)
            (record { conocido = f; marcos = refl; disco = refl })
      | inl f ↦ let (a, g, q) = bind-inv (archivo_libre config s) _ _ (rw f at e) in nuevo a f q
    ]
  where
    nuevo :
        (a : Option String)
        → archivo_de s.carpinchos pid ≡ none
        → some (agregar config s pid a) ≡ some (t, some archivo)
        → Recibido s t pid archivo
    nuevo none f q = ground arith
    nuevo (some b) f q = Recibido-igual s _ t pid b archivo q (record {
      conocido = archivo_de-agregado s.carpinchos pid b (pos 0) f;
      marcos = refl;
      disco = refl;
    })

-- For a process of the table the test of the assignment changes nothing.
chequear_asignacion-conocido :
    (config : Config) (s t : Estado) (pid : ℤ) (archivo : String) (ok : Bool)
    → archivo_de s.carpinchos pid ≡ some archivo
    → chequear_asignacion config s pid ≡ some (t, ok)
    → s ≡ t
unfolding chequear_asignacion
chequear_asignacion-conocido config s t pid archivo ok h e =
    elim (Bool-cases (eq_ℤ s.caso (pos 0))) [
      | inl c ↦
          let (b, p, q) = bind-inv (chequear_fija config s.carpinchos pid) _ _ (rw c at e) in cc
      | inr c ↦ elim (Bool-cases (eq_ℤ s.caso (pos 1))) [
        | inl d ↦
            let ((u, a), p, q) =
              bind-inv (recibir_pagina config s pid escribir) _ _ (rw d at (rw c at e)) in
            let (b, _, q') = bind-inv a _ _ q in
            let (lugar, _, q'') = bind-inv (hay_espacio_archivo config u.marcos b) _ _ q' in
            let k : ◌≡◌ {A = Option (Estado × Option String)} (some (s, some archivo))
                (some (u, a)) =
              sym (recibir_pagina-conocido config s pid escribir archivo h) ∙ p in
            let x : s ≡ u = cc in let y : u ≡ t = cc in x ∙ y
        | inr d ↦ let e' = rw d at (rw c at e) in cc
      ]
    ]

-- A page is stored: the frame is the one that hayEspacioArchivo gave, it names the process and the
-- page, and the bytes are in the file of the process.
pub record Guardado (config : Config) (s t : Estado) (pid pagina : ℤ) (buffer : List ℕ)
    : Type 0 where
  pub archivo : String
  pub marco : ℕ
  pub conocido : archivo_de t.carpinchos pid ≡ some archivo
  pub lugar : hay_espacio_archivo config s.marcos archivo ≡ some (some marco)
  pub marcos : t.marcos ≡ actualizar_marcos s.marcos archivo (pos marco) pagina pid
  pub bytes : escribir_marco config (s.disco archivo) marco buffer ≡ some (t.disco archivo)
  pub otros : (otro : String) → str_eq otro archivo ≡ false → t.disco otro ≡ s.disco otro

-- The two answers of escribir_swap.
abbrev pub Resultado : Config → Estado → Estado → ℤ → ℤ → List ℕ → ℤ → Type 0
Resultado config s t pid pagina buffer r =
    ((r ≡ pos 0) × Guardado config s t pid pagina buffer)
    ⊎ ((r ≡ negsuc 0) × (t.marcos ≡ s.marcos) × (t.disco ≡ s.disco))

module _ (config : Config) (s u : Estado) (pid pagina : ℤ) (buffer : List ℕ) where
  guardar_pagina-Resultado :
      (t : Estado) (archivo : String) (marco : ℕ) (r : ℤ) (ok : Bool)
      → Recibido s u pid archivo
      → hay_espacio_archivo config u.marcos archivo ≡ some (some marco)
      → guardar_pagina config u archivo marco pid pagina buffer ok ≡ some (t, r)
      → Resultado config s t pid pagina buffer r
  unfolding guardar_pagina
  guardar_pagina-Resultado t archivo marco r false h l e =
      let q : u ≡ t = cc in
      let o : negsuc 0 ≡ r = cc in inr (sym o, rw q at h.marcos, rw q at h.disco)
  guardar_pagina-Resultado t archivo marco r true h l e =
      let (contenido, p, e') =
        bind-inv (escribir_marco config (u.disco archivo) marco buffer) _ _ e in
      let t' : Estado = record u {
        marcos = actualizar_marcos u.marcos archivo (pos marco) pagina pid;
        carpinchos = actualizar_carpincho escribir u.carpinchos pid;
        disco = λ otro. if str_eq otro archivo then contenido else u.disco otro;
      } in
      let q : t' ≡ t = cc in
      let o : pos 0 ≡ r = cc in
      let g : Guardado config s t' pid pagina buffer = record {
        archivo = archivo;
        marco = marco;
        conocido = archivo_de-actualizado u.carpinchos pid pid ∙ h.conocido;
        lugar = rw h.marcos at l;
        marcos = ap (λ ms. actualizar_marcos ms archivo (pos marco) pagina pid) h.marcos;
        bytes =
            rw (eq_refl archivo)
              (ap (λ d. escribir_marco config (d archivo) marco buffer) (sym h.disco) ∙ p);
        otros = λ otro n. rw n (ap (λ d. d otro) h.disco);
      } in
      inl (sym o, rw q at g)

-- Where escribir_swap does not fault it answers 0, and then the frame that hayEspacioArchivo gives
-- for the file of the process bears the process and the page, the bytes are in that file and the
-- other files are as before; or it answers -1, and then the frames and the files are as before.
pub escribir_swap-Resultado :
    (config : Config) (s t : Estado) (pid pagina r : ℤ) (buffer : List ℕ)
    → escribir_swap config s pid pagina buffer ≡ some (t, r)
    → Resultado config s t pid pagina buffer r
unfolding escribir_swap escribir_en
escribir_swap-Resultado config s t pid pagina r buffer e =
    let ((u, a), p, q) = bind-inv (recibir_pagina config s pid escribir) _ _ e in
    let (archivo, ea, q') = bind-inv a _ _ q in
    let (lugar, l, q'') = bind-inv (hay_espacio_archivo config u.marcos archivo) _ _ q' in
    let par : ◌≡◌ {A = Option (Estado × Option String)} (some (u, a)) (some (u, some archivo)) =
      ap (λ x. some (u, x)) ea in
    fin u archivo lugar (recibir_pagina-Recibido config s u pid archivo (p ∙ par)) l q''
  where
    fin :
        (u : Estado) (archivo : String) (lugar : Option ℕ)
        → Recibido s u pid archivo
        → hay_espacio_archivo config u.marcos archivo ≡ some lugar
        → escribir_en config u archivo pid pagina buffer lugar ≡ some (t, r)
        → Resultado config s t pid pagina buffer r
    fin u archivo none h l f =
        let q : u ≡ t = cc in
        let o : negsuc 0 ≡ r = cc in inr (sym o, rw q at h.marcos, rw q at h.disco)
    fin u archivo (some marco) h l f =
        let ((v, ok), p, f') = bind-inv (chequear_asignacion config u pid) _ _ f in
        let q : u ≡ v = chequear_asignacion-conocido config u v pid archivo ok h.conocido p in
        guardar_pagina-Resultado config s u pid pagina buffer t archivo marco r ok h l
          (rw (sym q) at f')
