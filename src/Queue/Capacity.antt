-- ===== src/Queue/Capacity.antt =====
-- The capacity of include/papper/detail/queue.h: `std::bit_ceil` and the mask made from it.
use papper.Common.{
  ℕ, zero, suc, ◌+◌, ◌*◌, ◌^◌, ◌≤◌, ◌<◌, ◌≡◌, refl, ap, ◌⊎◌, inl, inr, false, arith, leb, leb→le,
  Bool-cases,
}
use papper.Queue.{bit_ceil_from, bit_ceil}
use native.Mathlib.Nat.{pow-suc}

-- A number from 1 to 2 ^ 63 is at most doubled on the way to a power of two.
pub record IsCeil (n p : ℕ) : Type 0 where
  pub exponent : ℕ
  pub small : exponent ≤ 63
  pub power : p ≡ 2 ^ exponent
  pub above : n ≤ p
  pub least : (p ≡ 1) ⊎ (p < 2 * n)

twice : (e : ℕ) → 2 * 2 ^ e ≡ 2 ^ suc e
twice e = omega (arith, pow-suc 2 e)

lt_of_leb : (n p : ℕ) → leb n p ≡ false → p < n
lt_of_leb n p h = ground arith

least_of : (e n : ℕ) → (e ≡ 0) ⊎ (2 ^ e < 2 * n) → (2 ^ e ≡ 1) ⊎ (2 ^ e < 2 * n)
least_of e n (inl h) = inl (ap (λ k. 2 ^ k) h)
least_of e n (inr h) = inr h

bit_ceil_from-IsCeil :
    (rounds e n : ℕ)
    → e + rounds ≡ 63
    → n ≤ 2 ^ 63
    → (e ≡ 0) ⊎ (2 ^ e < 2 * n)
    → IsCeil n (bit_ceil_from rounds (2 ^ e) n)
unfolding bit_ceil_from
bit_ceil_from-IsCeil zero e n sum small low = record {
  exponent = e;
  small = omega arith;
  power = refl;
  above = let last : e ≡ 63 = omega arith in rw last small;
  least = least_of e n low;
}
bit_ceil_from-IsCeil (suc rounds) e n sum small low = elim (Bool-cases (leb n (2 ^ e))) [
  | inl fits ↦ rw fits (record {
    exponent = e;
    small = omega arith;
    power = refl;
    above = leb→le n (2 ^ e) fits;
    least = least_of e n low;
  })
  | inr short ↦ rw short (
      rw (twice e) (
        bit_ceil_from-IsCeil rounds (suc e) n (omega arith) small
          (inr (omega (arith, twice e, lt_of_leb n (2 ^ e) short)))))
]

-- The constructor's capacity: the least power of two that is at least what was asked for.
pub bit_ceil-IsCeil : (n : ℕ) → n ≤ 2 ^ 63 → IsCeil n (bit_ceil n)
unfolding bit_ceil
bit_ceil-IsCeil n h = bit_ceil_from-IsCeil 63 0 n refl h (inl refl)
