-- ===== src/Swamp/Fallas.antt =====
-- Where the requests of swamp-v2/src/swamp.c part from what they are for: the frames of the second
-- file, and the limit of the fixed assignment.
use Prim.Native.String.{String}
use text.Mathlib.Text.{◌==◌ as str_eq}
use exitos_con_esto.Prelude.{
  ℕ, zero, suc, ◌+◌, ◌≤◌, ◌<◌, ◌≡◌, refl, sym, ◌∙◌, ap, Bool, true, false, List, [], ◌∷◌, ◌++◌,
  Option, none, some, ◌&&◌, inl, inr, map, arith, bind-inv, ℤ, pos, negsuc, eq_ℤ, Bool-cases, All,
  All-append, map-append,
}
use exitos_con_esto.Swamp.Estado.{Config, Estado, Marco, Proceso, leer}
use exitos_con_esto.Swamp.Marcos.{
  actualizar_marcos, cant_marcos, conseguir_marco, iniciar_desde, iniciar_marcos, marcos_de_archivo,
  obtener_cant_archivos,
}
use exitos_con_esto.Swamp.Archivos.{
  chequear_fija, contar_carpinchos, hay_lugar_fija, recibir_pagina,
}
use exitos_con_esto.Swamp.Operaciones.{Lectura, leer_con, leer_en, leer_swap}
use exitos_con_esto.Swamp.Disposicion.{
  clave, recibir_pagina-marcos, mismo_estado, server_procesar_mensaje-claves,
}
use exitos_con_esto.Swamp.Disposicion.Alcanzable.{Alcanzable, inicio, paso}

abbrev NumeroBajo : ℕ → String × ℕ → Type 0
NumeroBajo n c = c.1 < n

marcos_de_archivo-NumeroBajo :
    (fresco : ℕ → ℤ) (archivo : String) (i n k : ℕ)
    → i + n ≤ k
    → All (NumeroBajo k) (map clave (marcos_de_archivo fresco archivo i n))
unfolding marcos_de_archivo
marcos_de_archivo-NumeroBajo fresco archivo i zero k h = tt
marcos_de_archivo-NumeroBajo fresco archivo i (suc n) k h =
    (omega (arith, h), marcos_de_archivo-NumeroBajo fresco archivo (suc i) n k (omega (arith, h)))

iniciar_desde-NumeroBajo :
    (fresco : ℕ → ℤ) (n cuantos : ℕ) (archivos : List String) (ms : List Marco)
    → iniciar_desde fresco n cuantos archivos ≡ some ms
    → All (NumeroBajo n) (map clave ms)
unfolding iniciar_desde
iniciar_desde-NumeroBajo fresco n zero archivos ms e = let q : [] ≡ ms = cc in rw (sym q) tt
iniciar_desde-NumeroBajo fresco n (suc cuantos) [] ms e = cc
iniciar_desde-NumeroBajo fresco n (suc cuantos) (a ∷ archivos) ms e =
    let (resto, p, q) = bind-inv (iniciar_desde fresco n cuantos archivos) _ _ e in
    let q' : marcos_de_archivo fresco a 0 n ++ resto ≡ ms = cc in
    rw (sym q', map-append clave (marcos_de_archivo fresco a 0 n) resto)
      (All-append (NumeroBajo n) (map clave (marcos_de_archivo fresco a 0 n)) (map clave resto)
        (marcos_de_archivo-NumeroBajo fresco a 0 n n (omega arith))
        (iniciar_desde-NumeroBajo fresco n cuantos archivos resto p))

Alcanzable-NumeroBajo :
    (config : Config) (s : Estado)
    → Alcanzable config s
    → All (NumeroBajo (cant_marcos config)) (map clave s.marcos)
unfolding iniciar_marcos
Alcanzable-NumeroBajo config s (inicio fresco ms viejo disco caso e c) =
    iniciar_desde-NumeroBajo fresco (cant_marcos config) (obtener_cant_archivos config)
      config.archivos_swamp ms e
Alcanzable-NumeroBajo config s (paso t _ p envio alcanzado e) =
    rw (server_procesar_mensaje-claves config t s p envio e)
      (Alcanzable-NumeroBajo config t alcanzado)

actualizar_marcos-fuera :
    (ms : List Marco) (n i : ℕ) (archivo : String) (pagina pid : ℤ)
    → All (NumeroBajo n) (map clave ms)
    → n ≤ i
    → actualizar_marcos ms archivo (pos i) pagina pid ≡ ms
unfolding actualizar_marcos
actualizar_marcos-fuera [] n i archivo pagina pid h l = refl
actualizar_marcos-fuera (m ∷ ms) n i archivo pagina pid h l =
    elim (Bool-cases (str_eq m.archivo archivo && eq_ℤ (pos m.marco) (pos i))) [
      | inl s ↦ absurd (distinto m.marco (h.0) (str_eq m.archivo archivo) s)
      | inr o ↦ rw o (ap (λ r. m ∷ r) (actualizar_marcos-fuera ms n i archivo pagina pid h.1 l))
    ]
  where
    distinto : (k : ℕ) → k < n → (b : Bool) → (b && eq_ℤ (pos k) (pos i)) ≡ true → ⊥
    distinto k hk true s = ground arith
    distinto k hk false s = cc

-- In a state the server reaches, if conseguirMarco finds a page at a position that is not in the
-- first file, then leer_swap, where it does not fault, leaves the frames as they were.
pub leer_swap-no_libera :
    (config : Config) (s t : Estado) (pid pagina : ℤ) (basura : List ℕ) (l : Lectura) (i : ℕ)
    → Alcanzable config s
    → conseguir_marco s.marcos pid pagina ≡ pos i
    → cant_marcos config ≤ i
    → leer_swap config s pid pagina basura ≡ some (t, l)
    → t.marcos ≡ s.marcos
unfolding leer_swap leer_con leer_en
leer_swap-no_libera config s t pid pagina basura l i alcanzado c h e =
    let ((u, a), p, q) = bind-inv (recibir_pagina config s pid leer) _ _ e in
    let m : u.marcos ≡ s.marcos = recibir_pagina-marcos config s u pid leer a p in fin u a m q
  where
    fin :
        (u : Estado) (a : Option String)
        → u.marcos ≡ s.marcos
        → leer_con config u pid pagina basura a ≡ some (t, l)
        → t.marcos ≡ s.marcos
    fin u none m e = mismo_estado u t _ l e ∙ m
    fin u (some archivo) m e =
        let c' : conseguir_marco u.marcos pid pagina ≡ pos i = rw m c in
        mismo_estado _ t _ l (rw c' at e)
        ∙ ap (λ ms. actualizar_marcos ms archivo (pos i) (negsuc 0) pid) m
        ∙ actualizar_marcos-fuera s.marcos (cant_marcos config) i archivo (negsuc 0) pid
            (Alcanzable-NumeroBajo config s alcanzado) h

abbrev archivo_del : Proceso → String
archivo_del c = c.archivo

contar_carpinchos-archivos :
    (cs ds : List Proceso) (archivos : List String)
    → map archivo_del cs ≡ map archivo_del ds
    → contar_carpinchos cs archivos ≡ contar_carpinchos ds archivos
unfolding contar_carpinchos
contar_carpinchos-archivos [] [] archivos e = refl
contar_carpinchos-archivos [] (d ∷ ds) archivos e = cc
contar_carpinchos-archivos (c ∷ cs) [] archivos e = cc
contar_carpinchos-archivos (c ∷ cs) (d ∷ ds) [] e = refl
contar_carpinchos-archivos (c ∷ cs) (d ∷ ds) (a ∷ archivos) e =
    let q : c.archivo ≡ d.archivo = cc in
    let r : map archivo_del cs ≡ map archivo_del ds = cc in
    rw (q, contar_carpinchos-archivos cs ds archivos r) refl

-- Under FIJA, two process tables with the same files in the same order get the same answer for a
-- process that is the first of neither, whatever the frame counts.
pub chequear_fija-archivos :
    (config : Config) (c d : Proceso) (cs ds : List Proceso) (pid : ℤ)
    → eq_ℤ c.pid pid ≡ false
    → eq_ℤ d.pid pid ≡ false
    → map archivo_del (c ∷ cs) ≡ map archivo_del (d ∷ ds)
    → chequear_fija config (c ∷ cs) pid ≡ chequear_fija config (d ∷ ds) pid
unfolding chequear_fija hay_lugar_fija
chequear_fija-archivos config c d cs ds pid hc hd e =
    rw (hc, hd)
      (por (obtener_cant_archivos config)
        (contar_carpinchos-archivos (c ∷ cs) (d ∷ ds) config.archivos_swamp e))
  where
    por :
        (n : ℕ)
        → contar_carpinchos (c ∷ cs) config.archivos_swamp
          ≡ contar_carpinchos (d ∷ ds) config.archivos_swamp
        → hay_lugar_fija config (c ∷ cs) n ≡ hay_lugar_fija config (d ∷ ds) n
    por zero q = refl
    por (suc n) q = rw q refl
