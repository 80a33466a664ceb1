-- ===== src/Codec/Endian.antt =====
-- The byte representation of integers that include/papper/detail/codec.h copies.
use papper.Common.{ℕ, zero, suc, ◌/◌, ◌^◌, ◌<◌, ◌≡◌, refl, ap, arith, length}
use papper.Codec.{le_bytes, of_le}
use native.Mathlib.Nat.{pow-suc}

pub length-le_bytes : (k x : ℕ) → length (le_bytes k x) ≡ k
unfolding le_bytes
length-le_bytes zero x = refl
length-le_bytes (suc k) x = ap suc (length-le_bytes k (x / 256))

-- An integer that fits is read back from its bytes.
of_le-le_bytes : (k x : ℕ) → x < 256 ^ k → of_le (le_bytes k x) ≡ x
unfolding le_bytes of_le
of_le-le_bytes zero x h = omega arith
of_le-le_bytes (suc k) x h =
    omega (arith, of_le-le_bytes k (x / 256) (omega (arith, pow-suc 256 k)))

pub of_le-le_bytes_8 : (x : ℕ) → x < 2 ^ 64 → of_le (le_bytes 8 x) ≡ x
of_le-le_bytes_8 x h = of_le-le_bytes 8 x h
