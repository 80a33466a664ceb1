-- ===== src/Common/Int.antt =====
-- Signed integers over the native numbers, under the library's names.
use Prim.Native.Nat.{ℕ, suc, ◌+◌, ◌-◌, ◌*◌, ◌^◌, ◌%◌, ◌≤◌, ◌<◌}
use mathlib.Core.Path.{◌≡◌}
use mathlib.Core.Logic.{◌↔◌}
use mathlib.Core.Bool.{Bool, true, false}
use native.Mathlib.Nat.{mul-le-mul_left}
use native.Mathlib.Omega.{arith}
use papper.Common.Word.{sub64}
use papper.Common.Tests.{ltb, leb, ◌==◌, if◌then◌else◌}

-- `negsuc n` is -(n + 1).
pub data ℤ : Type 0 where
  pos : ℕ → ℤ
  negsuc : ℕ → ℤ

abbrev pub eq_ℤ : ℤ → ℤ → Bool
eq_ℤ (pos m) (pos n) = m == n
eq_ℤ (pos m) (negsuc n) = false
eq_ℤ (negsuc m) (pos n) = false
eq_ℤ (negsuc m) (negsuc n) = m == n

pub eq_ℤ_iff : (a b : ℤ) → (eq_ℤ a b ≡ true) ↔ (a ≡ b)
eq_ℤ_iff a b = ground arith

abbrev pub pos_part : ℤ → ℕ
pos_part (pos n) = n
pos_part (negsuc n) = 0

abbrev pub neg_part : ℤ → ℕ
neg_part (pos n) = 0
neg_part (negsuc n) = suc n

-- a - b, as an integer.
abbrev pub sub_ℕ : ℕ → ℕ → ℤ
sub_ℕ a b = if leb b a then pos (a - b) else negsuc (b - a - 1)

infixl 65 ◌+ℤ◌ ◌-ℤ◌
infixl 70 ◌*ℤ◌
unfoldable pub ◌+ℤ◌ : ℤ → ℤ → ℤ
a +ℤ b = sub_ℕ (pos_part a + pos_part b) (neg_part a + neg_part b)

unfoldable pub ◌-ℤ◌ : ℤ → ℤ → ℤ
a -ℤ b = sub_ℕ (pos_part a + neg_part b) (neg_part a + pos_part b)

unfoldable pub ◌*ℤ◌ : ℤ → ℤ → ℤ
a *ℤ b =
    sub_ℕ (pos_part a * pos_part b + neg_part a * neg_part b)
      (pos_part a * neg_part b + neg_part a * pos_part b)

-- One lemma for each operation lets `omega` work with the operations shut.
pub +ℤ_parts :
    (a b : ℤ)
    → pos_part (a +ℤ b) + neg_part a + neg_part b ≡ neg_part (a +ℤ b) + pos_part a + pos_part b
unfolding ◌+ℤ◌
+ℤ_parts a b = ground arith

pub -ℤ_parts :
    (a b : ℤ)
    → pos_part (a -ℤ b) + neg_part a + pos_part b ≡ neg_part (a -ℤ b) + pos_part a + neg_part b
unfolding ◌-ℤ◌
-ℤ_parts a b = ground arith

pub eq_of_parts : (a b : ℤ) → pos_part a + neg_part b ≡ pos_part b + neg_part a → a ≡ b
eq_of_parts a b h = ground arith

infix 50 ◌≤ℤ◌
abbrev pub ◌≤ℤ◌ : ℤ → ℤ → Type 0
a ≤ℤ b = pos_part a + neg_part b ≤ pos_part b + neg_part a

-- `(int64_t)` of a `uint64_t`.
abbrev pub i64 : ℕ → ℤ
i64 n = if ltb n (2 ^ 63) then pos n else negsuc (2 ^ 64 - 1 - n)

-- The difference of two counters as a signed number, if they are less than 2 ^ 63 apart.
pub i64-sub64 :
    (a b : ℕ)
    → a < 2 ^ 64
    → b < 2 ^ 64
    → a < b + 2 ^ 63
    → b < a + 2 ^ 63
    → i64 (sub64 a b) ≡ sub_ℕ a b
i64-sub64 a b ha hb near near' = ground arith

pub +ℤ_mono : (a b c : ℤ) → b ≤ℤ c → (a +ℤ b) ≤ℤ (a +ℤ c)
+ℤ_mono a b c h = omega (arith, +ℤ_parts a b, +ℤ_parts a c)

pub +ℤ_mono_left : (a b c : ℤ) → a ≤ℤ b → (a +ℤ c) ≤ℤ (b +ℤ c)
+ℤ_mono_left a b c h = omega (arith, +ℤ_parts a c, +ℤ_parts b c)

pub *ℤ_parts_left :
    (n : ℕ) (x : ℤ)
    → pos_part (pos n *ℤ x) + n * neg_part x ≡ neg_part (pos n *ℤ x) + n * pos_part x
unfolding ◌*ℤ◌
*ℤ_parts_left n x = ground arith

pub *ℤ_mono : (n : ℕ) (x y : ℤ) → x ≤ℤ y → (pos n *ℤ x) ≤ℤ (pos n *ℤ y)
*ℤ_mono n x y h = grind (arith, *ℤ_parts_left n x, *ℤ_parts_left n y, mul-le-mul_left n h)

-- A sum of two `int64_t`. C++ leaves one that does not fit undefined; here it wraps around.
abbrev pub wrap64 : ℤ → ℤ
wrap64 (pos n) = i64 (n % 2 ^ 64)
wrap64 (negsuc n) = i64 (2 ^ 64 - 1 - n % 2 ^ 64)

abbrev pub add_i64 : ℤ → ℤ → ℤ
add_i64 a b = wrap64 (a +ℤ b)

-- At least -2 ^ 63 and less than 2 ^ 63.
abbrev pub FitsI64 : ℤ → Type 0
FitsI64 a = (neg_part a ≤ 2 ^ 63) × (pos_part a < 2 ^ 63)

pub wrap64-FitsI64 : (a : ℤ) → FitsI64 a → wrap64 a ≡ a
wrap64-FitsI64 (pos n) h = ground arith
wrap64-FitsI64 (negsuc n) h = ground arith
