-- ===== src/Double.antt =====
-- All that the clock of include/papper/detail/time.h does with a `double`.
use papper.Common.{ℕ, ◌+◌, ◌/◌, Bool, ltb}
use papper.Common.Int.{ℤ, pos, eq_ℤ, pos_part, neg_part, ◌+ℤ◌, ◌-ℤ◌, ◌*ℤ◌}

pub record Double (D : Type 0) : Type 0 where
  pub of_u64 : ℕ → D
  pub of_i64 : ℤ → D
  pub to_u64 : D → ℕ
  pub to_i64 : D → ℤ
  pub plus : D → D → D
  pub minus : D → D → D
  pub times : D → D → D
  pub over : D → D → D
  -- `==` and `>`
  pub is_equal : D → D → Bool
  pub is_greater : D → D → Bool

-- Whole numbers fill the interface.
abbrev pub whole_numbers : Double ℤ
whole_numbers = record {
  of_u64 = λ (n : ℕ). pos n;
  of_i64 = λ (a : ℤ). a;
  to_u64 = pos_part;
  to_i64 = λ (a : ℤ). a;
  plus = ◌+ℤ◌;
  minus = ◌-ℤ◌;
  times = ◌*ℤ◌;
  over = λ (a b : ℤ). pos (pos_part a / pos_part b);
  is_equal = eq_ℤ;
  is_greater = λ (a b : ℤ). ltb (pos_part b + neg_part a) (pos_part a + neg_part b);
}
