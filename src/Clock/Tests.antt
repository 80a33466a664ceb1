-- ===== src/Clock/Tests.antt =====
-- The offset from UTC (include/papper/detail/time.h) on the last evening of a year.
use papper.Common.{ℕ, ◌+◌, ◌*◌, ◌/◌, ◌≡◌, refl, false, arith}
use papper.Common.Int.{ℤ, pos, negsuc, ◌+ℤ◌, ◌-ℤ◌, ◌*ℤ◌, ◌≤ℤ◌, *ℤ_mono}
use papper.Double.{whole_numbers}
use papper.Clock.{
  Tm, recalculate_utc_offset, Clock, Reading, Resync, timestamp_to_local_system_time,
}
use papper.Clock.Offset.{seconds_of, Nearby, recalculate_utc_offset_lem}
use papper.Clock.Monotone.{KeepsOrder, Convertible, timestamp_to_local_system_time_mono}

-- Half past midnight on the first of January 2025, and the time in UTC an hour before.
abbrev new_year : Tm
new_year = record { tm_year = 125; tm_yday = 0; tm_hour = 0; tm_min = 30; tm_sec = 0 }

abbrev old_year : Tm
old_year = record { tm_year = 124; tm_yday = 365; tm_hour = 23; tm_min = 30; tm_sec = 0 }

-- The days before a year, from 1900 to 2099.
abbrev days_before : ℕ → ℕ
days_before y = y * 365 + (y + 3) / 4

turn : Nearby days_before new_year old_year
turn = record {
  increasing = λ (y z : ℕ) h. (omega (arith, h));
  local_in_year = omega arith;
  utc_in_year = omega arith;
  not_later = omega arith;
  not_earlier = omega arith;
}

recalculate_utc_offset_lem_example :
    recalculate_utc_offset new_year old_year
    ≡ (pos (seconds_of days_before new_year) -ℤ pos (seconds_of days_before old_year))
      *ℤ pos 1_000_000_000
recalculate_utc_offset_lem_example = recalculate_utc_offset_lem turn

-- Whole numbers keep the order.
not_greater : (a b : ℤ) → whole_numbers.is_greater a b ≡ false → a ≤ℤ b
not_greater a b h = ground arith

is_not_greater : (a b : ℤ) → a ≤ℤ b → whole_numbers.is_greater a b ≡ false
is_not_greater a b h = ground arith

whole_times_mono :
    (t x y : ℤ)
    → whole_numbers.is_greater (pos 0) t ≡ false
    → whole_numbers.is_greater x y ≡ false
    → whole_numbers.is_greater (t *ℤ x) (t *ℤ y) ≡ false
whole_times_mono (pos n) x y h le =
    is_not_greater (pos n *ℤ x) (pos n *ℤ y) (*ℤ_mono n x y (not_greater x y le))
whole_times_mono (negsuc n) x y h le = absurd (omega (arith, not_greater (pos 0) (negsuc n) h))

whole_numbers-KeepsOrder : KeepsOrder whole_numbers
whole_numbers-KeepsOrder = record {
  of_i64_mono = is_not_greater;
  times_mono = whole_times_mono;
  to_i64_mono = λ x y a b c d h. not_greater x y h;
}

abbrev clock : Clock ℤ
clock = record {
  sync_point = record { ts = 1000; system_time = pos 5_000_000 };
  utc_offset_ns = pos 3_600_000_000_000;
  ns_per_tick = pos 2;
}

early-Convertible : Convertible whole_numbers whole_numbers-KeepsOrder clock 900
unfolding ◌*ℤ◌ ◌+ℤ◌
early-Convertible = record {
  counter = omega arith;
  not_late = omega arith;
  not_early = omega arith;
  above = refl;
  below = refl;
  offset_fits = (omega arith, omega arith);
  time_fits = (omega arith, omega arith);
}

late-Convertible : Convertible whole_numbers whole_numbers-KeepsOrder clock 1100
unfolding ◌*ℤ◌ ◌+ℤ◌
late-Convertible = record {
  counter = omega arith;
  not_late = omega arith;
  not_early = omega arith;
  above = refl;
  below = refl;
  offset_fits = (omega arith, omega arith);
  time_fits = (omega arith, omega arith);
}

timestamp_to_local_system_time_mono_example :
    timestamp_to_local_system_time whole_numbers clock 900
    ≤ℤ timestamp_to_local_system_time whole_numbers clock 1100
timestamp_to_local_system_time_mono_example =
    timestamp_to_local_system_time_mono whole_numbers whole_numbers-KeepsOrder clock 900 1100
      (omega arith) refl early-Convertible late-Convertible (omega arith)

abbrev resync : Resync ℤ
resync = record { clock = clock; last_utc_offset_resync = pos 0; last_system_clock_resync = pos 0 }

abbrev reading : Reading
reading = record {
  tsc1 = 600_000_000;
  system_now = pos 1_205_000_000;
  tsc2 = 600_000_100;
  local = new_year;
  utc = old_year;
}
