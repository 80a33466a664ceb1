-- ===== src/Codec/Tests.antt =====
-- The codec of include/papper/detail/codec.h on a concrete list of arguments.
use papper.Common.{◌≡◌, refl, some, List, [], ◌∷◌, replicate}
use papper.Memory.{Bytes, blit, load}
use papper.Codec.{
  trivially_copyable, basic_string, Value, object, string, le_bytes, of_le, encoded_size, put,
  encode, decode, encode_all, decode_all,
}

-- An `int` and a `std::string`.
abbrev arguments : List Value
arguments = object 4 (1 ∷ 2 ∷ 3 ∷ 4 ∷ []) ∷ string 1 ((104 ∷ []) ∷ (105 ∷ []) ∷ []) ∷ []

abbrev encoded : Bytes
encoded = (encode_all (record { memory = replicate 20 0; at = 3 }) arguments).memory

decoded : decode_all (trivially_copyable 4 ∷ basic_string 1 ∷ []) encoded 3 ≡ some (arguments, 17)
unfolding encode_all encode put le_bytes decode_all decode of_le blit load encoded_size
decoded = refl
