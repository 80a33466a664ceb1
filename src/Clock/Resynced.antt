-- ===== src/Clock/Resynced.antt =====
-- The backend thread resynchronises its clock when that is due (include/papper/detail/core.h).
use papper.Common.{◌≡◌, Bool, false}
use papper.Double.{Double}
use papper.Clock.{resync_utc_offset_interval_ns, resync_to_system_clock_interval_ns}

module _ {D : Type 0} (double : Double D) where
  abbrev is_due : D → D → D → Bool
  is_due now last interval = double.is_greater (double.minus now last) interval

  -- A resynchronisation is not due at the time of the last one; so it is with IEEE numbers, where a
  -- difference of a number and itself is 0 or NaN.
  pub record NotDueAtOnce : Type 0 where
    pub utc :
        (x : D)
        → double.is_greater (double.minus x x) (resync_utc_offset_interval_ns double) ≡ false
    pub system :
        (x : D)
        → double.is_greater (double.minus x x) (resync_to_system_clock_interval_ns double) ≡ false
