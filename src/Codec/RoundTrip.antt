-- ===== src/Codec/RoundTrip.antt =====
-- Decoding reads back what encoding wrote (include/papper/detail/codec.h).
use papper.Common.{
  ℕ, ◌+◌, ◌*◌, ◌^◌, ◌<◌, ◌≡◌, refl, sym, ap, ap₂, ◌∙◌, subst, some, List, [], ◌∷◌, ◌++◌, arith, map,
  length, take, drop, length-append, u64, add64,
}
use papper.Memory.{Bytes, blit, load, Holds, load-Holds, Holds-append, blit-append}
use papper.Codec.{
  Value, object, string, kind_of, le_bytes, flatten, units_of, encoded_size, Cursor, put, encode,
  decode, encoded_size_all, encode_all, decode_all,
}
use papper.Codec.Endian.{length-le_bytes, of_le-le_bytes_8}

abbrev AllWidth : ℕ → List Bytes → Type 0
AllWidth w [] = Unit {0}
AllWidth w (u ∷ us) = (length u ≡ w) × AllWidth w us

-- A value that the program can have: objects and units have their size, and a string's size in
-- bytes, with its length in front, fits a `size_t`.
abbrev IsValue : Value → Type 0
IsValue (object n bs) = length bs ≡ n
IsValue (string w us) = AllWidth w us × (8 + length us * w < 2 ^ 64) × (length us < 2 ^ 64)

-- The bytes that stand for a value.
abbrev bytes_of : Value → Bytes
bytes_of (object n bs) = bs
bytes_of (string w us) = le_bytes 8 (length us) ++ flatten us

length-flatten : (w : ℕ) (us : List Bytes) → AllWidth w us → length (flatten us) ≡ length us * w
length-flatten w [] h = omega arith
length-flatten w (u ∷ us) h =
    grind (arith, length-append u (flatten us), length-flatten w us h.1, h.0)

take-append : {A : Type 0} (xs ys : List A) → take (length xs) (xs ++ ys) ≡ xs
take-append [] ys = refl
take-append (x ∷ xs) ys = ap (λ l. x ∷ l) (take-append xs ys)

drop-append : {A : Type 0} (xs ys : List A) → drop (length xs) (xs ++ ys) ≡ ys
drop-append [] ys = refl
drop-append (x ∷ xs) ys = drop-append xs ys

units_of-flatten :
    (w : ℕ) (us : List Bytes) → AllWidth w us → units_of (length us) w (flatten us) ≡ us
units_of-flatten w [] h = refl
units_of-flatten w (u ∷ us) h = rw (sym h.0) (
    ap₂ ◌∷◌ (take-append u (flatten us)) (
      ap (λ (bs : Bytes). units_of (length us) (length u) bs) (drop-append u (flatten us))
      ∙ units_of-flatten (length u) us (subst (λ (x : ℕ). AllWidth x us) (sym h.0) h.1)))

-- `encoded_size` says how many bytes `encode` writes.
encoded_size-eq-length : (v : Value) → IsValue v → encoded_size v ≡ length (bytes_of v)
unfolding encoded_size
encoded_size-eq-length (object n bs) h = sym h
encoded_size-eq-length (string w us) h = omega (
  arith,
  length-append (le_bytes 8 (length us)) (flatten us),
  length-le_bytes 8 (length us),
  length-flatten w us h.0,
)

-- `encode` copies exactly those bytes, and moves the pointer behind them.
encode_lem :
    (c : Cursor) (v : Value)
    → IsValue v
    → encode c v ≡ record { memory = blit c.memory c.at (bytes_of v); at = c.at + encoded_size v }
unfolding encode put encoded_size
encode_lem c (object n bs) h = refl
encode_lem c (string w us) h = λ i. record {
  memory =
      (ap (λ (n : ℕ). blit (blit c.memory c.at (le_bytes 8 (length us))) (c.at + n) (flatten us))
            (sym (length-le_bytes 8 (length us)))
          ∙ sym (blit-append c.memory c.at (le_bytes 8 (length us)) (flatten us)))
        i;
  at = place i;
}
  where
    place : c.at + 8 + u64 (length us * w) ≡ c.at + add64 8 (u64 (length us * w))
    place = omega (arith, h.1)

-- `decode` reads back a value that lies in the memory.
decode_lem :
    (memory : Bytes) (p : ℕ) (v : Value)
    → IsValue v
    → Holds memory p (bytes_of v)
    → decode (kind_of v) memory p ≡ some (v, p + encoded_size v)
unfolding decode encoded_size
decode_lem memory p (object n bs) h there = rw (sym h) (rw (load-Holds memory p bs there))
decode_lem memory p (string w us) h there =
    rw (header, of_le-le_bytes_8 (length us) h.2, body, units_of-flatten w us h.0)
      (ap (λ (q : ℕ). some (string w us, q)) (omega (arith, h.1)))
  where
    parts :
        Holds memory p (le_bytes 8 (length us))
        × Holds memory (p + length (le_bytes 8 (length us))) (flatten us)
    parts = Holds-append memory p (le_bytes 8 (length us)) (flatten us) there

    header : load memory p 8 ≡ some (le_bytes 8 (length us))
    header =
        ap (load memory p) (sym (length-le_bytes 8 (length us)))
        ∙ load-Holds memory p (le_bytes 8 (length us)) parts.0

    size : u64 (length us * w) ≡ length (flatten us)
    size = omega (arith, h.1, length-flatten w us h.0)

    body : load memory (p + 8) (u64 (length us * w)) ≡ some (flatten us)
    body =
        ap (load memory (p + 8)) size
        ∙ load-Holds memory (p + 8) (flatten us) (
            subst (λ (n : ℕ). Holds memory (p + n) (flatten us)) (length-le_bytes 8 (length us))
              parts.1)

-- Values side by side.
abbrev pub AllValues : List Value → Type 0
AllValues [] = Unit {0}
AllValues (v ∷ vs) = IsValue v × AllValues vs

abbrev pub bytes_of_all : List Value → Bytes
bytes_of_all [] = []
bytes_of_all (v ∷ vs) = bytes_of v ++ bytes_of_all vs

-- The sum that `push_log_event` computes is the number of bytes that it then encodes, if that fits a
-- `size_t`.
pub encoded_size_all_lem :
    (vs : List Value)
    → AllValues vs
    → length (bytes_of_all vs) < 2 ^ 64
    → encoded_size_all vs ≡ length (bytes_of_all vs)
unfolding encoded_size_all
encoded_size_all_lem [] h small = refl
encoded_size_all_lem (v ∷ vs) h small = omega (
  arith,
  length-append (bytes_of v) (bytes_of_all vs),
  encoded_size-eq-length v h.0,
  encoded_size_all_lem vs h.1 (omega (arith, length-append (bytes_of v) (bytes_of_all vs))),
)

-- Encoding all values copies their bytes one behind the other, and moves the pointer behind them.
pub encode_all_lem :
    (memory : Bytes) (p : ℕ) (vs : List Value)
    → AllValues vs
    → encode_all (record { memory = memory; at = p }) vs
      ≡ record { memory = blit memory p (bytes_of_all vs); at = p + length (bytes_of_all vs) }
unfolding encode_all
encode_all_lem memory p [] h =
    unfold blit in ap (λ (q : ℕ). record { memory = memory; at = q }) (omega arith)
encode_all_lem memory p (v ∷ vs) h =
    ap (λ (c : Cursor). encode_all c vs) (encode_lem (record { memory = memory; at = p }) v h.0)
    ∙ encode_all_lem (blit memory p (bytes_of v)) (p + encoded_size v) vs h.1
    ∙ λ i. record {
      memory =
          (ap (λ (n : ℕ). blit (blit memory p (bytes_of v)) (p + n) (bytes_of_all vs)) size
              ∙ sym (blit-append memory p (bytes_of v) (bytes_of_all vs)))
            i;
      at = place i;
    }
  where
    size : encoded_size v ≡ length (bytes_of v)
    size = encoded_size-eq-length v h.0

    place :
        p + encoded_size v + length (bytes_of_all vs) ≡ p + length (bytes_of v ++ bytes_of_all vs)
    place = omega (arith, size, length-append (bytes_of v) (bytes_of_all vs))

-- Decoding all values with the kinds of those that lie in the memory reads them back, and moves the
-- pointer behind them.
pub decode_all_lem :
    (memory : Bytes) (p : ℕ) (vs : List Value)
    → AllValues vs
    → Holds memory p (bytes_of_all vs)
    → decode_all (map kind_of vs) memory p ≡ some (vs, p + length (bytes_of_all vs))
unfolding decode_all
decode_all_lem memory p [] h there = ap (λ (q : ℕ). some ([], q)) (omega arith)
decode_all_lem memory p (v ∷ vs) h there = rw (decode_lem memory p v h.0 parts.0) (
    rw (decode_all_lem memory (p + encoded_size v) vs h.1 rest) (
      ap (λ (q : ℕ). some (v ∷ vs, q))
        (omega (arith, size, length-append (bytes_of v) (bytes_of_all vs)))))
  where
    size : encoded_size v ≡ length (bytes_of v)
    size = encoded_size-eq-length v h.0

    parts : Holds memory p (bytes_of v) × Holds memory (p + length (bytes_of v)) (bytes_of_all vs)
    parts = Holds-append memory p (bytes_of v) (bytes_of_all vs) there

    rest : Holds memory (p + encoded_size v) (bytes_of_all vs)
    rest = rw size parts.1
