-- ===== src/Mensajes/IdaVuelta.antt =====
-- An instance that goes through the bytes of serializar_instancia and deserializar_instancia.
use exitos_con_esto.Prelude.{
  append_assoc, length-take, take-todo, ℕ, suc, zero, ◌+◌, ◌*◌, ◌/◌, ◌%◌, ◌<◌, ◌≤◌, ◌≡◌, refl, sym,
  ◌∙◌, ap, inl, inr, true, List, [], ◌∷◌, ◌++◌, some, arith, length, take, drop, leb, leb→le,
  bind-inv, Bool-cases, length-append,
}
use exitos_con_esto.Memoria.Metadatos.{bytes_u32}
use exitos_con_esto.Mensajes.Instancia.{MateInstance, leer_bloque}
use exitos_con_esto.Mensajes.Serializar.{
  deserializar_instancia, mensaje, recibir, recibir_int, recibir_mensaje, serializar_instancia,
  tamanio_mensaje,
}

-- Four bytes and the word they are of.
pub palabra :
    (n : ℕ)
    → n < 4294967296
    → n % 256 + 256 * (n / 256 % 256) + 65536 * (n / 65536 % 256) + 16777216 * (n / 16777216 % 256)
      ≡ n
palabra n h = omega arith

pub recibir_int-bytes_u32 :
    (n : ℕ) (bytes : List ℕ) → n < 4294967296 → recibir_int (bytes_u32 n ++ bytes) ≡ some (n, bytes)
unfolding recibir_int
recibir_int-bytes_u32 n bytes h = ap (λ m. some (m, bytes)) (palabra n h)

take-append : (n : ℕ) (xs ys : List ℕ) → length xs ≡ n → take n (xs ++ ys) ≡ xs
take-append zero [] ys h = refl
take-append zero (x ∷ xs) ys h = absurd (omega arith)
take-append (suc n) [] ys h = absurd (omega arith)
take-append (suc n) (x ∷ xs) ys h = ap (◌∷◌ x) (take-append n xs ys (omega arith))

drop-append : (n : ℕ) (xs ys : List ℕ) → length xs ≡ n → drop n (xs ++ ys) ≡ ys
drop-append zero [] ys h = refl
drop-append zero (x ∷ xs) ys h = absurd (omega arith)
drop-append (suc n) [] ys h = absurd (omega arith)
drop-append (suc n) (x ∷ xs) ys h = drop-append n xs ys (omega arith)

pub length-leer_bloque :
    (bloque : List ℕ) (n : ℕ) (x : List ℕ) → leer_bloque bloque n ≡ some x → length x ≡ n
unfolding leer_bloque
length-leer_bloque bloque n x e = elim (Bool-cases (leb n (length bloque))) [
  | inl h ↦
      let e' = rw h at e in
      let q : take n bloque ≡ x = cc in sym (ap length q) ∙ length-take n bloque (leb→le _ _ h)
  | inr h ↦ let e' = rw h at e in cc
]

pub recibir-append :
    (n : ℕ) (x bytes : List ℕ) → length x ≡ n → recibir n (x ++ bytes) ≡ some (x, bytes)
unfolding recibir
recibir-append n x bytes h =
    let l : leb n (length (x ++ bytes)) ≡ true = ground (arith, length-append x bytes, h) in
    rw l (ap some (λ j. (take-append n x bytes h j, drop-append n x bytes h j)))

recibir-append_resto :
    (n : ℕ) (x y resto : List ℕ)
    → length x ≡ n
    → recibir n ((x ++ y) ++ resto) ≡ some (x, y ++ resto)
recibir-append_resto n x y resto h =
    ap (recibir n) (append_assoc x y resto) ∙ recibir-append n x (y ++ resto) h

leer_bloque-todo : (n : ℕ) (x : List ℕ) → length x ≡ n → leer_bloque x n ≡ some x
unfolding leer_bloque
leer_bloque-todo n x h =
    let l : leb n (length x) ≡ true = ground (arith, h) in rw l (ap some (take-todo n x h))

tomado : (bloque : List ℕ) (n : ℕ) (x : List ℕ) → leer_bloque bloque n ≡ some x → take n bloque ≡ x
unfolding leer_bloque
tomado bloque n x e = elim (Bool-cases (leb n (length bloque))) [
  | inl h ↦ let e' = rw h at e in cc
  | inr h ↦ let e' = rw h at e in cc
]

-- The integers of an instance are words.
pub record Palabras (i : MateInstance) : Type 0 where
  pub tipo : i.tipo < 4294967296
  pub operacion : i.sema.operacion < 4294967296
  pub longitud_sem : i.sema.longitud < 4294967296
  pub valor_sem : i.sema.valor < 4294967296
  pub pid : i.pid < 4294967296
  pub estado : i.estado < 4294967296
  pub size : i.memoria.size < 4294967296
  pub addr : i.memoria.addr < 4294967296
  pub tipo_op : i.memoria.tipo_op < 4294967296
  pub longitud : i.nombre_io.longitud < 4294967296

-- The instance with these blocks.
abbrev pub con_bloques : MateInstance → List ℕ → List ℕ → List ℕ → MateInstance
con_bloques i nombre_sem valor nombre = record i {
  sema = record (i.sema) { nombre_sem = nombre_sem };
  memoria = record (i.memoria) { valor = valor };
  nombre_io = record (i.nombre_io) { nombre = nombre };
}

-- The blocks that a message carries.
pub record Bloques (i : MateInstance) (bytes : List ℕ) : Type 0 where
  pub nombre_sem : List ℕ
  pub valor : List ℕ
  pub nombre : List ℕ
  pub del_sem : leer_bloque i.sema.nombre_sem i.sema.longitud ≡ some nombre_sem
  pub del_valor : leer_bloque i.memoria.valor i.memoria.size ≡ some valor
  pub del_nombre : leer_bloque i.nombre_io.nombre i.nombre_io.longitud ≡ some nombre
  pub es : bytes ≡ mensaje i nombre_sem valor nombre

pub serializar_instancia-Bloques :
    (i : MateInstance) (bytes : List ℕ) → serializar_instancia i ≡ some bytes → Bloques i bytes
unfolding serializar_instancia
serializar_instancia-Bloques i bytes e =
    let (a, p, e1) = bind-inv (leer_bloque i.sema.nombre_sem i.sema.longitud) _ _ e in
    let (b, q, e2) = bind-inv (leer_bloque i.memoria.valor i.memoria.size) _ _ e1 in
    let (c, r, e3) = bind-inv (leer_bloque i.nombre_io.nombre i.nombre_io.longitud) _ _ e2 in
    record {
      nombre_sem = a;
      valor = b;
      nombre = c;
      del_sem = p;
      del_valor = q;
      del_nombre = r;
      es = (let z : mensaje i a b c ≡ bytes = cc in sym z);
    }

recibir_mensaje-mensaje :
    (i : MateInstance) (a b c resto : List ℕ)
    → Palabras i
    → length a ≡ i.sema.longitud
    → length b ≡ i.memoria.size
    → length c ≡ i.nombre_io.longitud
    → recibir_mensaje (mensaje i a b c ++ resto) ≡ some (con_bloques i a b c, resto)
unfolding recibir_mensaje deserializar_instancia recibir_int
recibir_mensaje-mensaje i a b c resto p la lb lc =
    rw
      (
        palabra i.tipo p.tipo,
        palabra i.sema.operacion p.operacion,
        palabra i.sema.longitud p.longitud_sem,
        palabra i.sema.valor p.valor_sem,
      )
      (rw (recibir-append_resto i.sema.longitud a _ resto la) (
        rw (palabra i.pid p.pid, palabra i.estado p.estado, palabra i.memoria.size p.size)
          (rw (recibir-append_resto i.memoria.size b _ resto lb) (
            rw
              (
                palabra i.memoria.addr p.addr,
                palabra i.memoria.tipo_op p.tipo_op,
                palabra i.nombre_io.longitud p.longitud,
              )
              (rw (recibir-append i.nombre_io.longitud c _ lc) refl)))))

-- If the integers of an instance are words and serializar_instancia gives a message for it, then
-- the message, with any bytes behind it, is received as one instance with those bytes left; that
-- instance is serialized to the same message, and it is the one sent with each of its three blocks
-- cut to its length.
pub recibir_mensaje-serializar_instancia :
    (i : MateInstance) (bytes resto : List ℕ)
    → Palabras i
    → serializar_instancia i ≡ some bytes
    → (j : MateInstance) × (recibir_mensaje (bytes ++ resto) ≡ some (j, resto))
      × (serializar_instancia j ≡ some bytes)
      × (j
          ≡ con_bloques i
              (take i.sema.longitud i.sema.nombre_sem)
              (take i.memoria.size i.memoria.valor)
              (take i.nombre_io.longitud i.nombre_io.nombre))
unfolding serializar_instancia
recibir_mensaje-serializar_instancia i bytes resto p e =
    let k = serializar_instancia-Bloques i bytes e in
    let la = length-leer_bloque i.sema.nombre_sem i.sema.longitud k.nombre_sem k.del_sem in
    let lb = length-leer_bloque i.memoria.valor i.memoria.size k.valor k.del_valor in
    let lc = length-leer_bloque i.nombre_io.nombre i.nombre_io.longitud k.nombre k.del_nombre in
    (
      con_bloques i k.nombre_sem k.valor k.nombre,
      ap (λ b. recibir_mensaje (b ++ resto)) k.es
          ∙ recibir_mensaje-mensaje i k.nombre_sem k.valor k.nombre resto p la lb lc,
      rw
          (
            leer_bloque-todo i.sema.longitud k.nombre_sem la,
            leer_bloque-todo i.memoria.size k.valor lb,
            leer_bloque-todo i.nombre_io.longitud k.nombre lc,
          )
          (ap some (sym k.es)),
      rw
          (
            tomado i.sema.nombre_sem i.sema.longitud k.nombre_sem k.del_sem,
            tomado i.memoria.valor i.memoria.size k.valor k.del_valor,
            tomado i.nombre_io.nombre i.nombre_io.longitud k.nombre k.del_nombre,
          )
          refl,
    )

-- If the lengths of the three blocks of an instance add up to less than 4294967240 and
-- serializar_instancia gives a message for it, then the message has 44 bytes more than the sum,
-- and not more than the block that is taken for it.
pub length-serializar_instancia :
    (i : MateInstance) (bytes : List ℕ)
    → i.sema.longitud + i.memoria.size + i.nombre_io.longitud < 4294967240
    → serializar_instancia i ≡ some bytes
    → (length bytes ≡ 44 + (i.sema.longitud + i.memoria.size + i.nombre_io.longitud))
      × (length bytes ≤ tamanio_mensaje i)
unfolding tamanio_mensaje
length-serializar_instancia i bytes h e =
    let k = serializar_instancia-Bloques i bytes e in
    let la = length-leer_bloque i.sema.nombre_sem i.sema.longitud k.nombre_sem k.del_sem in
    let lb = length-leer_bloque i.memoria.valor i.memoria.size k.valor k.del_valor in
    let lc = length-leer_bloque i.nombre_io.nombre i.nombre_io.longitud k.nombre k.del_nombre in
    let l = ap length k.es in
    let l2 = length-append k.valor (
      bytes_u32 i.memoria.addr
      ++ (bytes_u32 i.memoria.tipo_op ++ (bytes_u32 i.nombre_io.longitud ++ k.nombre))) in
    let l1 = length-append k.nombre_sem (
      bytes_u32 i.pid
      ++ (bytes_u32 i.estado
          ++ (bytes_u32 i.memoria.size
              ++ (k.valor
                  ++ (bytes_u32 i.memoria.addr
                      ++ (bytes_u32 i.memoria.tipo_op
                          ++ (bytes_u32 i.nombre_io.longitud ++ k.nombre))))))) in
    let n : length bytes ≡ 44 + (i.sema.longitud + i.memoria.size + i.nombre_io.longitud) =
      omega (arith, l, l1, l2, la, lb, lc) in
    (n, omega (arith, n, h))
