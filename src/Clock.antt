-- ===== src/Clock.antt =====
-- The clock of the backend, include/papper/detail/time.h, with the resynchronisation by the backend
-- thread in include/papper/detail/core.h.
pub mod Offset
pub mod Monotone
pub mod Resynced
mod Tests
use papper.Common.{ℕ, not, Option, none, some, ltb, ◌==◌, if◌then◌else◌, sub64}
use papper.Common.Int.{ℤ, pos, negsuc, ◌+ℤ◌, ◌-ℤ◌, ◌*ℤ◌, i64, add_i64}
use papper.Double.{Double}

-- The fields of `std::tm` that the clock reads; the year counts from 1900.
pub record Tm : Type 0 where
  pub tm_year : ℕ
  pub tm_yday : ℕ
  pub tm_hour : ℕ
  pub tm_min : ℕ
  pub tm_sec : ℕ

unfoldable pub day_diff : Tm → Tm → ℤ
day_diff local utc =
    if not (local.tm_year == utc.tm_year)
    then (if ltb utc.tm_year local.tm_year then pos 1 else negsuc 0)
    else pos local.tm_yday -ℤ pos utc.tm_yday

-- `recalculate_utc_offset`, with what `localtime` and `gmtime` make of the time: the new offset.
unfoldable pub recalculate_utc_offset : Tm → Tm → ℤ
recalculate_utc_offset local utc =
    (day_diff local utc *ℤ pos 86400
      +ℤ (pos local.tm_hour -ℤ pos utc.tm_hour) *ℤ pos 3600
      +ℤ (pos local.tm_min -ℤ pos utc.tm_min) *ℤ pos 60
      +ℤ (pos local.tm_sec -ℤ pos utc.tm_sec))
    *ℤ pos 1_000_000_000

-- `SyncPoint` and the other fields of `Clock`. The time is in nanoseconds since the epoch.
pub record SyncPoint : Type 0 where
  pub ts : ℕ
  pub system_time : ℤ

pub record Clock (D : Type 0) : Type 0 where
  pub sync_point : SyncPoint
  pub utc_offset_ns : ℤ
  pub ns_per_tick : D

-- What the clock reads from outside: the system's time between two readings of the counter, and the
-- local time and UTC.
pub record Reading : Type 0 where
  pub tsc1 : ℕ
  pub system_now : ℤ
  pub tsc2 : ℕ
  pub local : Tm
  pub utc : Tm

-- The clock with the times of the last resynchronisations, as the backend thread keeps them.
pub record Resync (D : Type 0) : Type 0 where
  pub clock : Clock D
  pub last_utc_offset_resync : D
  pub last_system_clock_resync : D

module _ {D : Type 0} (double : Double D) where
  open double use {of_u64, of_i64, to_u64, to_i64, plus, minus, times, over, is_greater}

  unfoldable pub sync_to_system_clock : Clock D → Reading → Clock D
  sync_to_system_clock c r = record c {
    sync_point = record {
      ts = to_u64 (plus (of_u64 r.tsc1) (over (of_u64 (sub64 r.tsc2 r.tsc1)) (of_u64 2)));
      system_time = r.system_now;
    };
  }

  abbrev pub set_utc_offset : Clock D → Reading → Clock D
  set_utc_offset c r = record c { utc_offset_ns = recalculate_utc_offset r.local r.utc }

  -- `init`, with the length of a tick that was found, if any.
  unfoldable pub init_clock : Clock D → Option D → Reading → Option (Clock D)
  init_clock c none r = none
  init_clock c (some tick_time) r =
      some (sync_to_system_clock (set_utc_offset (record c { ns_per_tick = tick_time }) r) r)

  abbrev pub ns_since_sync : Clock D → ℕ → D
  ns_since_sync c ts = times c.ns_per_tick (of_i64 (i64 (sub64 ts c.sync_point.ts)))

  unfoldable pub timestamp_to_local_system_time : Clock D → ℕ → ℤ
  timestamp_to_local_system_time c ts =
      add_i64 c.sync_point.system_time (add_i64 (to_i64 (ns_since_sync c ts)) c.utc_offset_ns)

  unfoldable pub read_timestamp_ns : Clock D → ℕ → D
  read_timestamp_ns c tsc = times c.ns_per_tick (of_u64 tsc)

  -- `1e6 * 1000.0` and `1e6 * 100.0`
  abbrev pub resync_utc_offset_interval_ns : D
  resync_utc_offset_interval_ns = times (of_u64 1_000_000) (of_u64 1000)

  abbrev pub resync_to_system_clock_interval_ns : D
  resync_to_system_clock_interval_ns = times (of_u64 1_000_000) (of_u64 100)

  abbrev resync_utc : Resync D → D → Reading → Resync D
  resync_utc s now r =
      if is_greater (minus now s.last_utc_offset_resync) resync_utc_offset_interval_ns
      then record s { clock = set_utc_offset s.clock r; last_utc_offset_resync = now }
      else s

  abbrev resync_system : Resync D → D → Reading → Resync D
  resync_system s now r =
      if is_greater (minus now s.last_system_clock_resync) resync_to_system_clock_interval_ns
      then record s { clock = sync_to_system_clock s.clock r; last_system_clock_resync = now }
      else s

  -- `try_resync_clock`, with the counter as it is read before each of the two tests.
  unfoldable pub try_resync_clock : Resync D → ℕ → ℕ → Reading → Resync D
  try_resync_clock s tsc_a tsc_b r =
      let s' = resync_utc s (read_timestamp_ns s.clock tsc_a) r in
      resync_system s' (read_timestamp_ns s'.clock tsc_b) r
