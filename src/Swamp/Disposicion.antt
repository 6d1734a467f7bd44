-- ===== src/Swamp/Disposicion.antt =====
-- The shape of the frame list of swamp-v2/src/swamp.c, in every state that the requests lead to.
pub mod Alcanzable
use Prim.Native.String.{String}
use text.Mathlib.Text.{◌==◌ as str_eq}
use exitos_con_esto.Prelude.{
  ℕ, zero, suc, ◌+◌, ◌*◌, ◌<◌, ◌≡◌, refl, sym, ◌∙◌, ap, Bool, true, false, List, [], ◌∷◌, ◌++◌,
  Option, none, some, bind-inv, ◌&&◌, inl, inr, ◌⊎◌, map, length, arith, if◌then◌else◌, ◌>>=◌, ℤ,
  pos, negsuc, eq_ℤ, Bool-cases, Option-cases, length-append, All, All-append,
}
use exitos_con_esto.Swamp.Estado.{
  Config, Estado, Marco, Operacion, Proceso, caso_asignacion, escribir, leer, puede_escribir,
}
use exitos_con_esto.Swamp.Marcos.{
  actualizar_marcos, cant_marcos, iniciar_desde, iniciar_marcos, marcos_de_archivo,
  obtener_cant_archivos, conseguir_marco, hay_espacio_archivo, ver_si_hay_paginas,
}
use exitos_con_esto.Swamp.Archivos.{
  agregar, archivo_de, archivo_libre, recibir_con, recibir_nuevo, chequear_asignacion,
  chequear_fija, crear_archivos, recibir_pagina,
}
use exitos_con_esto.Swamp.Operaciones.{
  Envio, Pedido, escribir_marco, escribir_swap, fijar_caso, guardar_pagina, leer_swap, pedido_caso,
  pedido_escribir, pedido_leer, pedido_otro, pedido_puede, puede_escribir_swap, escribir_en,
  leer_en, leer_con, Lectura, poder, server_procesar_mensaje,
}

-- What names a frame: its file and its number in it.
abbrev pub clave : Marco → String × ℕ
clave m = (m.archivo, m.marco)

pub actualizar_marcos-claves :
    (ms : List Marco) (archivo : String) (marco pagina pid : ℤ)
    → map clave (actualizar_marcos ms archivo marco pagina pid) ≡ map clave ms
unfolding actualizar_marcos
actualizar_marcos-claves [] archivo marco pagina pid = refl
actualizar_marcos-claves (m ∷ ms) archivo marco pagina pid =
    let resto = actualizar_marcos-claves ms archivo marco pagina pid in
    elim (Bool-cases (str_eq m.archivo archivo && eq_ℤ (pos m.marco) marco)) [
      | inl s ↦ rw s (ap (λ r. clave m ∷ r) resto)
      | inr n ↦ rw n (ap (λ r. clave m ∷ r) resto)
    ]

pub recibir_pagina-marcos :
    (config : Config) (s t : Estado) (pid : ℤ) (op : Operacion) (a : Option String)
    → recibir_pagina config s pid op ≡ some (t, a)
    → t.marcos ≡ s.marcos
unfolding recibir_pagina
recibir_pagina-marcos config s t pid op a e = elim (Option-cases (archivo_de s.carpinchos pid)) [
  | inr (b, f) ↦ let e' = rw f at e in ground arith
  | inl f ↦ elim (Option-cases (archivo_libre config s)) [
    | inl g ↦ ground (arith, f, g)
    | inr (b, g) ↦ ground (arith, f, g)
  ]
]

module _ {A : Type 0} where
  abbrev marcos_tras : List Marco → Option (Estado × A) → List Marco
  marcos_tras ms none = ms
  marcos_tras ms (some (s, a)) = s.marcos

  pub mismo_estado :
      (s t : Estado) (a b : A)
      → ◌≡◌ {A = Option (Estado × A)} (some (s, a)) (some (t, b))
      → t.marcos ≡ s.marcos
  mismo_estado s t a b e = sym (ap (marcos_tras []) e)

chequear_asignacion-marcos :
    (config : Config) (s t : Estado) (pid : ℤ) (ok : Bool)
    → chequear_asignacion config s pid ≡ some (t, ok)
    → t.marcos ≡ s.marcos
unfolding chequear_asignacion
chequear_asignacion-marcos config s t pid ok e = elim (Bool-cases (eq_ℤ s.caso (pos 0))) [
  | inl c ↦
      let (b, p, q) = bind-inv (chequear_fija config s.carpinchos pid) _ _ (rw c at e) in
      mismo_estado s t b ok q
  | inr c ↦ elim (Bool-cases (eq_ℤ s.caso (pos 1))) [
    | inl d ↦
        let ((u, a), p, q) =
          bind-inv (recibir_pagina config s pid escribir) _ _ (rw d at (rw c at e)) in
        let (archivo, _, q') = bind-inv a _ _ q in
        let (lugar, _, q'') = bind-inv (hay_espacio_archivo config u.marcos archivo) _ _ q' in
        mismo_estado u t _ ok q'' ∙ recibir_pagina-marcos config s u pid escribir a p
    | inr d ↦ mismo_estado s t false ok (rw d at (rw c at e))
  ]
]

module _ (config : Config) where
  poder-marcos :
      (v t : Estado) (ok : Bool) (a : Option String) (cant r : ℤ)
      → poder config v cant ok a ≡ some (t, r)
      → t.marcos ≡ v.marcos
  unfolding poder
  poder-marcos v t true (some archivo) cant r e =
      let (hay, p, q) = bind-inv (ver_si_hay_paginas config v.marcos cant archivo) _ _ e in
      mismo_estado v t _ r q
  poder-marcos v t true none cant r e = mismo_estado v t _ r e
  poder-marcos v t false a cant r e = mismo_estado v t _ r e

  puede_escribir_swap-marcos :
      (s t : Estado) (pid cant r : ℤ)
      → puede_escribir_swap config s pid cant ≡ some (t, r)
      → t.marcos ≡ s.marcos
  unfolding puede_escribir_swap
  puede_escribir_swap-marcos s t pid cant r e =
      let ((u, a), p, q) = bind-inv (recibir_pagina config s pid puede_escribir) _ _ e in
      let ((v, ok), p', q') = bind-inv (chequear_asignacion config u pid) _ _ q in
      poder-marcos v t ok a cant r q'
      ∙ chequear_asignacion-marcos config u v pid ok p'
      ∙ recibir_pagina-marcos config s u pid puede_escribir a p

  guardar_pagina-claves :
      (s t : Estado) (archivo : String) (marco : ℕ) (pid pagina r : ℤ) (buffer : List ℕ) (ok : Bool)
      → guardar_pagina config s archivo marco pid pagina buffer ok ≡ some (t, r)
      → map clave t.marcos ≡ map clave s.marcos
  unfolding guardar_pagina
  guardar_pagina-claves s t archivo marco pid pagina r buffer false e =
      ap (map clave) (mismo_estado s t _ r e)
  guardar_pagina-claves s t archivo marco pid pagina r buffer true e =
      let (contenido, p, q) =
        bind-inv (escribir_marco config (s.disco archivo) marco buffer) _ _ e in
      ap (map clave) (mismo_estado _ t _ r q)
      ∙ actualizar_marcos-claves s.marcos archivo (pos marco) pagina pid

  escribir_en-claves :
      (s t : Estado) (archivo : String) (pid pagina r : ℤ) (buffer : List ℕ) (lugar : Option ℕ)
      → escribir_en config s archivo pid pagina buffer lugar ≡ some (t, r)
      → map clave t.marcos ≡ map clave s.marcos
  unfolding escribir_en
  escribir_en-claves s t archivo pid pagina r buffer none e =
      ap (map clave) (mismo_estado s t _ r e)
  escribir_en-claves s t archivo pid pagina r buffer (some marco) e =
      let ((u, ok), p, q) = bind-inv (chequear_asignacion config s pid) _ _ e in
      guardar_pagina-claves u t archivo marco pid pagina r buffer ok q
      ∙ ap (map clave) (chequear_asignacion-marcos config s u pid ok p)

  escribir_swap-claves :
      (s t : Estado) (pid pagina r : ℤ) (buffer : List ℕ)
      → escribir_swap config s pid pagina buffer ≡ some (t, r)
      → map clave t.marcos ≡ map clave s.marcos
  unfolding escribir_swap
  escribir_swap-claves s t pid pagina r buffer e =
      let ((u, a), p, q) = bind-inv (recibir_pagina config s pid escribir) _ _ e in
      let (archivo, _, q') = bind-inv a _ _ q in
      let (lugar, _, q'') = bind-inv (hay_espacio_archivo config u.marcos archivo) _ _ q' in
      escribir_en-claves u t archivo pid pagina r buffer lugar q''
      ∙ ap (map clave) (recibir_pagina-marcos config s u pid escribir a p)

  leer_swap-claves :
      (s t : Estado) (pid pagina : ℤ) (basura : List ℕ) (l : Lectura)
      → leer_swap config s pid pagina basura ≡ some (t, l)
      → map clave t.marcos ≡ map clave s.marcos
  unfolding leer_swap leer_en
  leer_swap-claves s t pid pagina basura l e =
      let ((u, a), p, q) = bind-inv (recibir_pagina config s pid leer) _ _ e in
      fin u a q ∙ ap (map clave) (recibir_pagina-marcos config s u pid leer a p)
    where
      en :
          (u : Estado) (archivo : String) (i : ℤ)
          → leer_en config u archivo pid pagina basura i ≡ some (t, l)
          → map clave t.marcos ≡ map clave u.marcos
      en u archivo (negsuc n) e = ap (map clave) (mismo_estado u t _ l e)
      en u archivo (pos i) e =
          ap (map clave) (mismo_estado _ t _ l e)
          ∙ actualizar_marcos-claves u.marcos archivo (pos i) (negsuc 0) pid

      fin :
          (u : Estado) (a : Option String)
          → leer_con config u pid pagina basura a ≡ some (t, l)
          → map clave t.marcos ≡ map clave u.marcos
      fin u none e = ap (map clave) (mismo_estado u t _ l e)
      fin u (some archivo) e = en u archivo _ e

  pub server_procesar_mensaje-claves :
      (s t : Estado) (p : Pedido) (envio : Envio)
      → server_procesar_mensaje config s p ≡ some (t, envio)
      → map clave t.marcos ≡ map clave s.marcos
  unfolding server_procesar_mensaje fijar_caso
  server_procesar_mensaje-claves s t (pedido_leer pid pagina basura) envio e =
      let ((u, l), p, q) = bind-inv (leer_swap config s pid pagina basura) _ _ e in
      ap (map clave) (mismo_estado u t _ envio q) ∙ leer_swap-claves s u pid pagina basura l p
  server_procesar_mensaje-claves s t (pedido_escribir pid pagina buffer) envio e =
      let ((u, r), p, q) = bind-inv (escribir_swap config s pid pagina buffer) _ _ e in
      ap (map clave) (mismo_estado u t _ envio q) ∙ escribir_swap-claves s u pid pagina r buffer p
  server_procesar_mensaje-claves s t (pedido_puede pid cant) envio e =
      let ((u, r), p, q) = bind-inv (puede_escribir_swap config s pid cant) _ _ e in
      ap (map clave) (mismo_estado u t _ envio q ∙ puede_escribir_swap-marcos s u pid cant r p)
  server_procesar_mensaje-claves s t (pedido_caso caso) envio e = ground arith
  server_procesar_mensaje-claves s t pedido_otro envio e =
      ap (map clave) (mismo_estado s t _ envio e)
