-- ===== src/Common/Bits.antt =====
-- `x & (2 ^ k - 1)` is `x % 2 ^ k`: the law behind an index that wraps by a mask.
use Prim.Native.Nat.{
  ℕ, zero, suc, ◌+◌, ◌-◌, ◌*◌, ◌/◌, ◌%◌, ◌^◌, ◌≤◌, ◌<◌, ◌∣◌, min, bit_and, digits, bit_and-bitwise,
}
use mathlib.Core.Path.{◌≡◌, refl, ap, ◌∙◌, subst}
use native.Mathlib.Nat.{
  pow-suc, dvd_refl, dvd-mul_right_of_dvd, mod-mod_of_dvd, div-add-mod, mod-lt, mod-eq_of_lt,
  mul-add-mod_self_left, mul_assoc,
}
use native.Mathlib.Omega.{arith}

pub pow-pos : (k : ℕ) → 0 < 2 ^ k
pow-pos zero = omega arith
pow-pos (suc k) = omega (arith, pow-suc 2 k, pow-pos k)

-- The lowest binary digit of a remainder by twice `p`.
mod_twice : (a p : ℕ) → 0 < p → a % (2 * p) ≡ (a / 2 % p) * 2 + a % 2
mod_twice a p h =
    ap (λ t. t % (2 * p)) split
    ∙ mul-add-mod_self_left (2 * p) q (r * 2 + a % 2)
    ∙ mod-eq_of_lt (omega (arith, mod-lt (a / 2) h))
  where
    q : ℕ
    q = a / 2 / p

    r : ℕ
    r = a / 2 % p

    split : a ≡ 2 * p * q + (r * 2 + a % 2)
    split = omega (arith, div-add-mod (a / 2) p)

-- Multiples of a modulus do not count: `a` is any number with remainder `r`.
pub mod_unique : (a m q r : ℕ) → a ≡ m * q + r → r < m → a % m ≡ r
mod_unique a m q r e h = ap (λ t. t % m) e ∙ mul-add-mod_self_left m q r ∙ mod-eq_of_lt h

-- A mask of ones, halved.
half_mask : (k : ℕ) → (2 ^ suc k - 1) / 2 ≡ 2 ^ k - 1
half_mask k = omega (arith, pow-suc 2 k, pow-pos k)

-- The digits that the native `bit_and` stands for: with a mask of `k` ones they are the lowest `k`.
masked_digits : (fuel k a : ℕ) → a ≤ fuel → digits (λ b. zero) min fuel a (2 ^ k - 1) ≡ a % 2 ^ k
masked_digits zero k zero h = omega (arith, mod-eq_of_lt (pow-pos k))
masked_digits zero k (suc a) h = absurd (omega arith)
masked_digits (suc fuel) k zero h = omega (arith, mod-eq_of_lt (pow-pos k))
masked_digits (suc fuel) zero (suc a) h =
    omega (arith, masked_digits fuel zero (suc a / 2) (omega arith))
masked_digits (suc fuel) (suc k) (suc a) h = omega (
  arith,
  masked_digits fuel k (suc a / 2) (omega arith),
  ap (λ m. digits (λ b. zero) min fuel (suc a / 2) m) (half_mask k),
  pow-suc 2 k,
  pow-pos k,
  mod_twice (suc a) (2 ^ k) (pow-pos k),
  ap (λ m. suc a % m) (pow-suc 2 k ∙ twice),
)
  where
    twice : 2 ^ k * 2 ≡ 2 * 2 ^ k
    twice = omega arith

pub bit_and_mask : (k a : ℕ) → bit_and a (2 ^ k - 1) ≡ a % 2 ^ k
bit_and_mask k a = bit_and-bitwise a (2 ^ k - 1) ∙ masked_digits a k a (omega arith)

-- The binary digit at a place, counted from the lowest.
abbrev pub bit : ℕ → ℕ → ℕ
bit zero a = a % 2
bit (suc k) a = bit k (a / 2)

bit-zero : (k : ℕ) → bit k 0 ≡ 0
bit-zero zero = refl
bit-zero (suc k) = bit-zero k

double_digits : (x p : ℕ) → x * p * 2 ≡ x * (p * 2)
double_digits x p = mul_assoc x p 2

-- With a single one at place `k` they are that digit of `a`.
bit-digits : (fuel k a : ℕ) → a ≤ fuel → digits (λ b. zero) min fuel a (2 ^ k) ≡ bit k a * 2 ^ k
bit-digits zero k zero h = rw (bit-zero k) (omega arith)
bit-digits zero k (suc a) h = absurd (omega arith)
bit-digits (suc fuel) k zero h = rw (bit-zero k) (omega arith)
bit-digits (suc fuel) zero (suc a) h =
    omega (arith, masked_digits fuel zero (suc a / 2) (omega arith))
bit-digits (suc fuel) (suc k) (suc a) h = omega (
  arith,
  bit-digits fuel k (suc a / 2) (omega arith),
  ap (λ m. digits (λ b. zero) min fuel (suc a / 2) m) half,
  double_digits (bit k (suc a / 2)) (2 ^ k),
  ap (λ m. bit k (suc a / 2) * m) (pow-suc 2 k),
  pow-suc 2 k,
)
  where
    half : 2 ^ suc k / 2 ≡ 2 ^ k
    half = omega (arith, pow-suc 2 k)

-- `x & (1 << k)` is not 0 exactly if the digit is 1.
pub bit_and-bit : (k a : ℕ) → bit_and a (2 ^ k) ≡ bit k a * 2 ^ k
bit_and-bit k a = bit_and-bitwise a (2 ^ k) ∙ bit-digits a k a (omega arith)

pow_dvd : (k j n : ℕ) → k + j ≡ n → 2 ^ k ∣ 2 ^ n
pow_dvd k zero n e = subst (λ (x : ℕ). 2 ^ k ∣ 2 ^ x) (omega arith) (dvd_refl (2 ^ k))
pow_dvd k (suc j) zero e = absurd (omega arith)
pow_dvd k (suc j) (suc n) e =
    rw (pow-suc 2 n) (dvd-mul_right_of_dvd (2 ^ k) (pow_dvd k j n (omega arith)) 2)

pub pow-le : (k j n : ℕ) → k + j ≡ n → 2 ^ k ≤ 2 ^ n
pow-le k zero n e = let same : k ≡ n = omega arith in omega (arith, ap (λ (x : ℕ). 2 ^ x) same)
pow-le k (suc j) zero e = absurd (omega arith)
pow-le k (suc j) (suc n) e = omega (arith, pow-suc 2 n, pow-le k j n (omega arith))

-- The index of a 64-bit position: the wrap-around of the position does not show.
pub index_of_position : (k v : ℕ) → k ≤ 64 → bit_and (v % 2 ^ 64) (2 ^ k - 1) ≡ v % 2 ^ k
index_of_position k v h =
    bit_and_mask k (v % 2 ^ 64) ∙ mod-mod_of_dvd (2 ^ k) v (pow_dvd k (64 - k) 64 (omega arith))
