-- ===== src/Swamp/Disposicion/Alcanzable.antt =====
-- Every state that the requests to the swap process lead to, from iniciar_marcos and crear_archivos.
use Prim.Native.String.{String}
use exitos_con_esto.Prelude.{
  ℕ, zero, suc, ◌+◌, ◌*◌, ◌<◌, ◌≡◌, refl, sym, ◌∙◌, ap, List, [], ◌∷◌, ◌++◌, Option, some, map,
  length, arith, get_elem?, bind-inv, ℤ, length-append, length-map, map-append,
  get_elem?-append_left, get_elem?-append_right,
}
use native.Mathlib.Nat.{suc-mul}
use exitos_con_esto.Swamp.Estado.{Config, Estado, Marco}
use exitos_con_esto.Swamp.Marcos.{
  cant_marcos, iniciar_desde, iniciar_marcos, marcos_de_archivo, obtener_cant_archivos,
}
use exitos_con_esto.Swamp.Archivos.{crear_archivos}
use exitos_con_esto.Swamp.Operaciones.{Envio, Pedido, server_procesar_mensaje}
use exitos_con_esto.Swamp.Disposicion.{clave, server_procesar_mensaje-claves}

-- The states of the server: after the start, and after each request that is served.
pub data Alcanzable (config : Config) : Estado → Type 0 where
  inicio :
      (fresco : ℕ → ℤ) (ms : List Marco) (viejo disco : String → List ℕ) (caso : ℤ)
      → iniciar_marcos config fresco ≡ some ms
      → crear_archivos config viejo ≡ some disco
      → Alcanzable config (record { marcos = ms; carpinchos = []; caso = caso; disco = disco })
  paso :
      (s t : Estado) (p : Pedido) (envio : Envio)
      → Alcanzable config s
      → server_procesar_mensaje config s p ≡ some (t, envio)
      → Alcanzable config t

-- The frames of file k stand together from position k * cant_marcos on, in the order of their numbers.
pub record EnOrden (config : Config) (claves : List (String × ℕ)) : Type 0 where
  pub cantidad : length claves ≡ obtener_cant_archivos config * cant_marcos config
  pub posicion :
      (k j : ℕ) (archivo : String)
      → k < obtener_cant_archivos config
      → j < cant_marcos config
      → get_elem? config.archivos_swamp k ≡ some archivo
      → get_elem? claves (k * cant_marcos config + j) ≡ some (archivo, j)

length-marcos_de_archivo :
    (fresco : ℕ → ℤ) (archivo : String) (i n : ℕ)
    → length (marcos_de_archivo fresco archivo i n) ≡ n
unfolding marcos_de_archivo
length-marcos_de_archivo fresco archivo i zero = refl
length-marcos_de_archivo fresco archivo i (suc n) =
    ap suc (length-marcos_de_archivo fresco archivo (suc i) n)

abbrev bloque : (ℕ → ℤ) → String → ℕ → List (String × ℕ)
bloque fresco archivo n = map clave (marcos_de_archivo fresco archivo 0 n)

largo_bloque : (fresco : ℕ → ℤ) (archivo : String) (n : ℕ) → length (bloque fresco archivo n) ≡ n
largo_bloque fresco archivo n =
    length-map clave (marcos_de_archivo fresco archivo 0 n)
    ∙ length-marcos_de_archivo fresco archivo 0 n

marcos_de_archivo-posicion :
    (fresco : ℕ → ℤ) (archivo : String) (i n j : ℕ)
    → j < n
    → get_elem? (map clave (marcos_de_archivo fresco archivo i n)) j ≡ some (archivo, i + j)
unfolding marcos_de_archivo
marcos_de_archivo-posicion fresco archivo i zero j h = absurd (omega (arith, h))
marcos_de_archivo-posicion fresco archivo i (suc n) zero h = ground arith
marcos_de_archivo-posicion fresco archivo i (suc n) (suc j) h =
    let q : suc i + j ≡ i + suc j = omega arith in
    rw q at (marcos_de_archivo-posicion fresco archivo (suc i) n j (omega (arith, h)))

iniciar_desde-cantidad :
    (fresco : ℕ → ℤ) (n cuantos : ℕ) (archivos : List String) (ms : List Marco)
    → iniciar_desde fresco n cuantos archivos ≡ some ms
    → length (map clave ms) ≡ cuantos * n
unfolding iniciar_desde
iniciar_desde-cantidad fresco n zero archivos ms e =
    let q : [] ≡ ms = cc in omega (arith, ap (λ r. length (map clave r)) q)
iniciar_desde-cantidad fresco n (suc cuantos) [] ms e = cc
iniciar_desde-cantidad fresco n (suc cuantos) (archivo ∷ archivos) ms e =
    let (resto, p, q) = bind-inv (iniciar_desde fresco n cuantos archivos) _ _ e in
    let q' : marcos_de_archivo fresco archivo 0 n ++ resto ≡ ms = cc in
    let largo : length (map clave (marcos_de_archivo fresco archivo 0 n ++ resto))
        ≡ n + length (map clave resto) =
      rw
        (
          length-map clave (marcos_de_archivo fresco archivo 0 n ++ resto),
          length-append (marcos_de_archivo fresco archivo 0 n) resto,
          length-marcos_de_archivo fresco archivo 0 n,
          length-map clave resto,
        )
        refl in
    rw (sym q') (
      omega
        (arith, largo, iniciar_desde-cantidad fresco n cuantos archivos resto p, suc-mul cuantos n))

iniciar_desde-posicion :
    (fresco : ℕ → ℤ) (n cuantos : ℕ) (archivos : List String) (ms : List Marco) (k j : ℕ)
    (archivo : String)
    → iniciar_desde fresco n cuantos archivos ≡ some ms
    → k < cuantos
    → j < n
    → get_elem? archivos k ≡ some archivo
    → get_elem? (map clave ms) (k * n + j) ≡ some (archivo, j)
unfolding iniciar_desde
iniciar_desde-posicion fresco n zero archivos ms k j archivo e hk hj g = absurd (omega (arith, hk))
iniciar_desde-posicion fresco n (suc cuantos) [] ms k j archivo e hk hj g = cc
iniciar_desde-posicion fresco n (suc cuantos) (a ∷ archivos) ms zero j archivo e hk hj g =
    let (resto, p, q) = bind-inv (iniciar_desde fresco n cuantos archivos) _ _ e in
    let q' : marcos_de_archivo fresco a 0 n ++ resto ≡ ms = cc in
    let cero : zero * n + j ≡ j = omega arith in
    let r : a ≡ archivo = ground arith in
    let suma : 0 + j ≡ j = omega arith in
    let par : ◌≡◌ {A = Option (String × ℕ)} (some (a, 0 + j)) (some (archivo, j)) =
      rw r (ap (λ x. some (archivo, x)) suma) in
    rw (sym q') (
      rw
        (
          map-append clave (marcos_de_archivo fresco a 0 n) resto,
          cero,
          get_elem?-append_left (bloque fresco a n) (map clave resto) j
              (omega (arith, largo_bloque fresco a n, hj)),
        )
        (marcos_de_archivo-posicion fresco a 0 n j hj ∙ par))
iniciar_desde-posicion fresco n (suc cuantos) (a ∷ archivos) ms (suc k) j archivo e hk hj g =
    let (resto, p, q) = bind-inv (iniciar_desde fresco n cuantos archivos) _ _ e in
    let q' : marcos_de_archivo fresco a 0 n ++ resto ≡ ms = cc in
    let largo : suc k * n + j ≡ length (bloque fresco a n) + (k * n + j) =
      omega (arith, largo_bloque fresco a n, suc-mul k n) in
    rw (sym q') (
      rw
        (
          map-append clave (marcos_de_archivo fresco a 0 n) resto,
          largo,
          get_elem?-append_right (bloque fresco a n) (map clave resto) (k * n + j),
        )
        (iniciar_desde-posicion fresco n cuantos archivos resto k j archivo p (omega (arith, hk)) hj
          g))

-- In every state the server reaches from iniciar_marcos and crear_archivos by its requests, there
-- are as many frames as files times frames of a file, and frame j of file k stands at position k
-- times the frames of a file plus j.
pub Alcanzable-EnOrden :
    (config : Config) (s : Estado) → Alcanzable config s → EnOrden config (map clave s.marcos)
unfolding iniciar_marcos
Alcanzable-EnOrden config s (inicio fresco ms viejo disco caso e c) = record {
  cantidad =
      iniciar_desde-cantidad fresco (cant_marcos config) (obtener_cant_archivos config)
        config.archivos_swamp ms e;
  posicion = λ k j archivo hk hj g.
      iniciar_desde-posicion fresco (cant_marcos config) (obtener_cant_archivos config)
        config.archivos_swamp ms k j archivo e hk hj g;
}
Alcanzable-EnOrden config s (paso t _ p envio alcanzado e) =
    rw (server_procesar_mensaje-claves config t s p envio e) (Alcanzable-EnOrden config t alcanzado)
