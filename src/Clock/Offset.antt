-- ===== src/Clock/Offset.antt =====
-- The offset from UTC (include/papper/detail/time.h) is the difference of the two times, also when
-- they are in different years.
use papper.Common.{
  ℕ, suc, ◌+◌, ◌*◌, ◌≤◌, ◌<◌, ◌≡◌, ap, inl, inr, arith, ltb, ◌==◌, ==_iff, Bool-cases,
}
use papper.Common.Int.{
  ℤ, pos, pos_part, neg_part, ◌+ℤ◌, ◌-ℤ◌, ◌*ℤ◌, +ℤ_parts, -ℤ_parts, eq_of_parts,
}
use papper.Clock.{Tm, day_diff, recalculate_utc_offset}

scale_parts :
    (a : ℤ) (k : ℕ)
    → pos_part (a *ℤ pos k) + neg_part a * k ≡ neg_part (a *ℤ pos k) + pos_part a * k
unfolding ◌*ℤ◌
scale_parts a k = ground arith

-- The day of a date, where `first_day` is that of the first of January of a year.
abbrev day_of : (ℕ → ℕ) → Tm → ℕ
day_of first_day t = first_day t.tm_year + t.tm_yday

-- The seconds since the first day.
abbrev pub seconds_of : (ℕ → ℕ) → Tm → ℕ
seconds_of first_day t = day_of first_day t * 86400 + t.tm_hour * 3600 + t.tm_min * 60 + t.tm_sec

-- A calendar in which years follow each other, and two dates of it that are at most a day apart.
pub record Nearby (first_day : ℕ → ℕ) (local utc : Tm) : Type 0 where
  pub increasing : (y z : ℕ) → y ≤ z → first_day y ≤ first_day z
  pub local_in_year : day_of first_day local < first_day (suc local.tm_year)
  pub utc_in_year : day_of first_day utc < first_day (suc utc.tm_year)
  pub not_later : day_of first_day local ≤ day_of first_day utc + 1
  pub not_earlier : day_of first_day utc ≤ day_of first_day local + 1

module _ {first_day : ℕ → ℕ} {local utc : Tm} (near : Nearby first_day local utc) where
  -- The days between the dates.
  day_diff_parts :
      pos_part (day_diff local utc) + day_of first_day utc
      ≡ neg_part (day_diff local utc) + day_of first_day local
  unfolding day_diff
  day_diff_parts = elim (Bool-cases (local.tm_year == utc.tm_year)) [
    | inl e ↦ rw e (
        omega (
          arith,
          -ℤ_parts (pos local.tm_yday) (pos utc.tm_yday),
          ap first_day ((==_iff local.tm_year utc.tm_year).0 e),
        ))
    | inr e ↦ rw e (elim (Bool-cases (ltb utc.tm_year local.tm_year)) [
      | inl f ↦ rw f (
          omega (
            arith,
            near.increasing (suc utc.tm_year) local.tm_year (ground arith),
            near.utc_in_year,
            near.not_later,
          ))
      | inr f ↦ rw f (
          omega (
            arith,
            near.increasing (suc local.tm_year) utc.tm_year (ground arith),
            near.local_in_year,
            near.not_earlier,
          ))
    ])
  ]

  -- For two dates of a calendar that are at most a day apart, of the same year or not: the offset is
  -- the local time minus the time in UTC, in nanoseconds.
  pub recalculate_utc_offset_lem :
      recalculate_utc_offset local utc
      ≡ (pos (seconds_of first_day local) -ℤ pos (seconds_of first_day utc)) *ℤ pos 1_000_000_000
  unfolding recalculate_utc_offset
  recalculate_utc_offset_lem =
      ap (λ (s : ℤ). s *ℤ pos 1_000_000_000)
        (eq_of_parts _ _ (
          omega (
            arith,
            day_diff_parts,
            scale_parts (day_diff local utc) 86400,
            -ℤ_parts (pos local.tm_hour) (pos utc.tm_hour),
            scale_parts (pos local.tm_hour -ℤ pos utc.tm_hour) 3600,
            -ℤ_parts (pos local.tm_min) (pos utc.tm_min),
            scale_parts (pos local.tm_min -ℤ pos utc.tm_min) 60,
            -ℤ_parts (pos local.tm_sec) (pos utc.tm_sec),
            +ℤ_parts (day_diff local utc *ℤ pos 86400)
                ((pos local.tm_hour -ℤ pos utc.tm_hour) *ℤ pos 3600),
            +ℤ_parts
                (day_diff local utc *ℤ pos 86400
                  +ℤ (pos local.tm_hour -ℤ pos utc.tm_hour) *ℤ pos 3600)
                ((pos local.tm_min -ℤ pos utc.tm_min) *ℤ pos 60),
            +ℤ_parts
                (day_diff local utc *ℤ pos 86400
                  +ℤ (pos local.tm_hour -ℤ pos utc.tm_hour) *ℤ pos 3600
                  +ℤ (pos local.tm_min -ℤ pos utc.tm_min) *ℤ pos 60)
                (pos local.tm_sec -ℤ pos utc.tm_sec),
            -ℤ_parts (pos (seconds_of first_day local)) (pos (seconds_of first_day utc)),
          )))
