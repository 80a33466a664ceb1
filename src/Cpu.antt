-- ===== src/Cpu.antt =====
-- What the CPUID instruction tells of the processor, include/papper/detail/time.h on x86. The
-- instruction is a parameter, from a leaf to the registers; the sub-leaf is always 0.
pub mod ModelName
mod Tests
use papper.Common.{
  ℕ, zero, suc, ◌+◌, ◌-◌, ◌*◌, ◌/◌, ◌%◌, ◌^◌, ◌≤◌, ◌<◌, min, bit_and, bit_xor, ◌≡◌, refl, sym, ap,
  ap₂, ◌∙◌, subst, ◌≢◌, ◌↔◌, ◌⊎◌, inl, inr, Bool, true, false, not, ◌&&◌, ◌||◌, Option, none, some,
  List, [], ◌∷◌, ◌++◌, append-nil, append_assoc, arith, map, ltb, leb, ◌==◌, if◌then◌else◌, ltb→lt,
  lt→ltb, leb→le, le→leb, leb_of_ltb, ltb_of_leb, ==_iff, ==_false, Bool-cases, Option-cases,
  length, get_elem?, set, take, drop, replicate, List-cases, length-append, length-set,
  length-replicate, get_elem?-set_self, get_elem?-set_ne, ◌>>=◌, >>=-eq-some, word, u64, add64,
  sub64,
}
use papper.Memory.{
  Bytes, blit, load, Holds, length-blit, Holds-blit_ne, Holds-blit, load-Holds, Holds-append,
  Holds-append_intro, blit-append,
}
use papper.Codec.{
  Kind, trivially_copyable, basic_string, Value, object, string, kind_of, le_bytes, of_le, flatten,
  units_of, encoded_size, Cursor, put, encode, decode, encoded_size_all, encode_all, decode_all,
}
use papper.Text.{Text, codes, text_eq}

-- `cpuid_t`
pub record CpuId : Type 0 where
  pub eax : ℕ
  pub ebx : ℕ
  pub ecx : ℕ
  pub edx : ℕ

-- A C string in an array; `none` if there is no NUL, where `strlen` reads past the end of the array.
unfoldable pub c_string : Bytes → Option Text
c_string [] = none
c_string (c ∷ cs) = let rest = c_string cs >>= λ t. some (c ∷ t) in if c == 0 then some [] else rest

-- What stands before a NUL that the code writes behind these bytes.
abbrev before_nul : Bytes → Text
before_nul [] = []
before_nul (c ∷ cs) = if c == 0 then [] else c ∷ before_nul cs

-- A `cpuid_t` in memory.
abbrev pub register_bytes : CpuId → Bytes
register_bytes c = le_bytes 4 c.eax ++ le_bytes 4 c.ebx ++ le_bytes 4 c.ecx ++ le_bytes 4 c.edx

-- Whether a text starts with another, and `find` against npos.
unfoldable pub starts_with : Text → Text → Bool
starts_with [] cs = true
starts_with (p ∷ ps) [] = false
starts_with (p ∷ ps) (c ∷ cs) = (p == c) && starts_with ps cs

unfoldable pub has_substring : Text → Text → Bool
unfolding starts_with
has_substring p [] = starts_with p []
has_substring p (c ∷ cs) = starts_with p (c ∷ cs) || has_substring p cs

-- The loop that removes trailing blanks, with `end` as an index: a blank is overwritten by NUL, which
-- cuts the text there; the first character stays.
unfoldable pub remove_trailing : ℕ → Text → Text
remove_trailing zero t = t
remove_trailing (suc end) t = elim (get_elem? t (suc end)) [
  | none ↦ t
  | some c ↦ if c == b' ' then remove_trailing end (take (suc end) t) else t
]

unfoldable pub skip_blanks : Text → Text
skip_blanks [] = []
skip_blanks (c ∷ cs) = if c == b' ' then skip_blanks cs else c ∷ cs

-- Both loops; `end` starts at the last character. On an empty text it starts before the first one,
-- and the loop does not run.
unfoldable pub trim_blanks : Text → Text
unfolding remove_trailing skip_blanks
trim_blanks t = skip_blanks (remove_trailing (length t - 1) t)

-- `char brand[256]`
abbrev pub brand_size : ℕ
brand_size = 256

-- How often the loop over the leaves runs for `ids`, which is the `int` with these bits: a negative
-- one, as of a processor with no extended leaves, stops it at once.
abbrev pub leaf_count : ℕ → ℕ
leaf_count ids = if ltb ids (2 ^ 31) then ids else 0

module _ (x86_cpuid : ℕ → CpuId) where
  unfoldable pub cpu_brand_name : Text
  cpu_brand_name =
      let cpuinfo = x86_cpuid 0 in
      before_nul (le_bytes 4 cpuinfo.ebx ++ le_bytes 4 cpuinfo.edx ++ le_bytes 4 cpuinfo.ecx)

  unfoldable pub on_intel : Bool
  on_intel = text_eq cpu_brand_name (codes "GenuineIntel")

  unfoldable pub on_amd : Bool
  on_amd = text_eq cpu_brand_name (codes "AuthenticAMD")

  -- The loop over `n` leaves from the `i`-th on; `none` is a write past the end of `brand`.
  unfoldable pub read_leaves : ℕ → ℕ → Bytes → Option Bytes
  read_leaves zero i brand = some brand
  read_leaves (suc n) i brand =
      let rest =
        read_leaves n (i + 1)
          (blit brand (i * 16) (register_bytes (x86_cpuid (i + 0x8000_0002)))) in
      if leb (i * 16 + 16) brand_size then rest else none

  -- The name from the brand string of `ids` leaves; `none` is a write or a read past the end of `brand`.
  abbrev pub name_from_leaves : ℕ → Option Text
  name_from_leaves ids = read_leaves (leaf_count ids) 0 (replicate brand_size 0) >>= λ brand.
      c_string brand >>= λ t. some (trim_blanks t)

  unfoldable pub cpu_model_name : Option Text
  cpu_model_name =
      if on_amd
      then name_from_leaves 3
      else if on_intel
      then name_from_leaves (bit_xor (x86_cpuid 0x8000_0000).eax 0x8000_0000)
      else some cpu_brand_name

  unfoldable pub on_apple_rosetta : Option Bool
  on_apple_rosetta = cpu_model_name >>= λ name. some (has_substring (codes "Apple") name)
