-- ===== src/Codec.antt =====
-- How arguments are written to and read from raw bytes, include/papper/detail/codec.h. The two
-- specialisations of `Codec` are kinds; a type that is neither does not compile and has no kind.
pub mod Endian
pub mod RoundTrip
mod Tests
use papper.Common.{
  ℕ, zero, suc, ◌+◌, ◌*◌, ◌/◌, ◌%◌, Option, some, List, [], ◌∷◌, ◌++◌, length, take, drop, ◌>>=◌,
  u64, add64,
}
use papper.Memory.{Bytes, blit, load}

-- `Codec<T>` for a trivially copyable `T` of some size, and for a string of some `sizeof(CharT)`.
pub data Kind : Type 0 where
  trivially_copyable : (size : ℕ) → Kind
  basic_string : (char_size : ℕ) → Kind

-- An object is the bytes of its representation; a string is its code units, each its bytes.
pub data Value : Type 0 where
  object : (size : ℕ) (bytes : Bytes) → Value
  string : (char_size : ℕ) (units : List Bytes) → Value

abbrev pub kind_of : Value → Kind
kind_of (object n bs) = trivially_copyable n
kind_of (string w us) = basic_string w

-- The object representation of an unsigned integer of `k` bytes, least byte first: both processors
-- that include/papper/detail/time.h supports store it so.
unfoldable pub le_bytes : ℕ → ℕ → Bytes
le_bytes zero x = []
le_bytes (suc k) x = (x % 256) ∷ le_bytes k (x / 256)

unfoldable pub of_le : Bytes → ℕ
of_le [] = 0
of_le (b ∷ bs) = b + 256 * of_le bs

abbrev pub flatten : List Bytes → Bytes
flatten [] = []
flatten (u ∷ us) = u ++ flatten us

-- `n` units of `w` bytes each, from the bytes that were copied to a string's data.
abbrev pub units_of : ℕ → ℕ → Bytes → List Bytes
units_of zero w bs = []
units_of (suc n) w bs = take w bs ∷ units_of n w (drop w bs)

unfoldable pub encoded_size : Value → ℕ
encoded_size (object n bs) = n
encoded_size (string w us) = add64 8 (u64 (length us * w))

-- The memory and the pointer that `encode` moves on.
pub record Cursor : Type 0 where
  pub memory : Bytes
  pub at : ℕ

-- `memcpy(buffer, bs, n); buffer += n`
unfoldable pub put : Cursor → Bytes → ℕ → Cursor
put c bs n = record { memory = blit c.memory c.at bs; at = c.at + n }

unfoldable pub encode : Cursor → Value → Cursor
encode c (object n bs) = put c bs n
encode c (string w us) = put (put c (le_bytes 8 (length us)) 8) (flatten us) (u64 (length us * w))

-- `none` is a read past the end of the memory.
unfoldable pub decode : Kind → Bytes → ℕ → Option (Value × ℕ)
decode (trivially_copyable n) memory p = load memory p n >>= λ bs. some (object n bs, p + n)
decode (basic_string w) memory p = load memory p 8 >>= λ header.
    let n = of_le header in
    load memory (p + 8) (u64 (n * w)) >>= λ bs.
    some (string w (units_of n w bs), p + 8 + u64 (n * w))

-- The fold expressions over the arguments of a log call.
unfoldable pub encoded_size_all : List Value → ℕ
encoded_size_all [] = 0
encoded_size_all (v ∷ vs) = add64 (encoded_size v) (encoded_size_all vs)

unfoldable pub encode_all : Cursor → List Value → Cursor
encode_all c [] = c
encode_all c (v ∷ vs) = encode_all (encode c v) vs

unfoldable pub decode_all : List Kind → Bytes → ℕ → Option (List Value × ℕ)
decode_all [] memory p = some ([], p)
decode_all (k ∷ ks) memory p =
    decode k memory p >>= λ (v, p1). decode_all ks memory p1 >>= λ (vs, p2). some (v ∷ vs, p2)
