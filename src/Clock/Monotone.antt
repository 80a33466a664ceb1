-- ===== src/Clock/Monotone.antt =====
-- Between two resynchronisations, include/papper/detail/time.h keeps the order of time stamps.
use papper.Common.{ℕ, ◌+◌, ◌-◌, ◌^◌, ◌≤◌, ◌<◌, ◌≡◌, sym, ap, ◌∙◌, subst, true, false, arith, sub64}
use papper.Common.Int.{
  ℤ, negsuc, sub_ℕ, ◌+ℤ◌, ◌≤ℤ◌, i64, i64-sub64, +ℤ_mono, +ℤ_mono_left, add_i64, FitsI64,
  wrap64-FitsI64,
}
use papper.Double.{Double}
use papper.Clock.{Clock, ns_since_sync, timestamp_to_local_system_time}

-- What the conversion relies on of IEEE arithmetic: rounding keeps the order, by "not greater", which
-- NaN fulfils too; and a number strictly between -2 ^ 63 and 2 ^ 63 is converted by cutting it off.
pub record KeepsOrder {D : Type 0} (double : Double D) : Type 0 where
  pub of_i64_mono :
      (a b : ℤ) → a ≤ℤ b → double.is_greater (double.of_i64 a) (double.of_i64 b) ≡ false
  pub times_mono :
      (t x y : D)
      → double.is_greater (double.of_u64 0) t ≡ false
      → double.is_greater x y ≡ false
      → double.is_greater (double.times t x) (double.times t y) ≡ false
  pub to_i64_mono :
      (x y : D)
      → double.is_greater x (double.of_i64 (negsuc (2 ^ 63 - 1))) ≡ true
      → double.is_greater (double.of_u64 (2 ^ 63)) x ≡ true
      → double.is_greater y (double.of_i64 (negsuc (2 ^ 63 - 1))) ≡ true
      → double.is_greater (double.of_u64 (2 ^ 63)) y ≡ true
      → double.is_greater x y ≡ false
      → double.to_i64 x ≤ℤ double.to_i64 y

module _ {D : Type 0} (double : Double D) (laws : KeepsOrder double) (c : Clock D) where
  -- Nanoseconds since the sync point, with the offset, and the local time, as integers of any size.
  abbrev local_ns : ℕ → ℤ
  local_ns ts = double.to_i64 (ns_since_sync double c ts) +ℤ c.utc_offset_ns

  abbrev local_time_ns : ℕ → ℤ
  local_time_ns ts = c.sync_point.system_time +ℤ local_ns ts

  -- A time stamp less than 2 ^ 63 ticks from the sync point, and whose distance in nanoseconds fits 64
  -- bits, also with the offset and as a local time.
  pub record Convertible (ts : ℕ) : Type 0 where
    pub counter : ts < 2 ^ 64
    pub not_late : ts < c.sync_point.ts + 2 ^ 63
    pub not_early : c.sync_point.ts < ts + 2 ^ 63
    pub above :
        double.is_greater (ns_since_sync double c ts) (double.of_i64 (negsuc (2 ^ 63 - 1))) ≡ true
    pub below : double.is_greater (double.of_u64 (2 ^ 63)) (ns_since_sync double c ts) ≡ true
    pub offset_fits : FitsI64 (local_ns ts)
    pub time_fits : FitsI64 (local_time_ns ts)

  -- No sum wraps around.
  converted :
      (ts : ℕ) → Convertible ts → timestamp_to_local_system_time double c ts ≡ local_time_ns ts
  unfolding timestamp_to_local_system_time
  converted ts v =
      ap (add_i64 c.sync_point.system_time) (wrap64-FitsI64 (local_ns ts) v.offset_fits)
      ∙ wrap64-FitsI64 (local_time_ns ts) v.time_fits

  ticks :
      (ts : ℕ)
      → c.sync_point.ts < 2 ^ 64
      → Convertible ts
      → i64 (sub64 ts c.sync_point.ts) ≡ sub_ℕ ts c.sync_point.ts
  ticks ts h v = i64-sub64 ts c.sync_point.ts v.counter h v.not_late v.not_early

  sub_ℕ_mono : (a b n : ℕ) → a ≤ b → sub_ℕ a n ≤ℤ sub_ℕ b n
  sub_ℕ_mono a b n h = ground arith

  local_time_ns-mono :
      (ts ts' : ℕ)
      → c.sync_point.ts < 2 ^ 64
      → double.is_greater (double.of_u64 0) c.ns_per_tick ≡ false
      → Convertible ts
      → Convertible ts'
      → ts ≤ ts'
      → local_time_ns ts ≤ℤ local_time_ns ts'
  local_time_ns-mono ts ts' h tick v v' le = +ℤ_mono c.sync_point.system_time _ _ (
      +ℤ_mono_left _ _ c.utc_offset_ns (
        laws.to_i64_mono (ns_since_sync double c ts) (ns_since_sync double c ts') v.above v.below
          v'.above v'.below
          (laws.times_mono c.ns_per_tick _ _ tick (
            laws.of_i64_mono _ _ (
              subst (λ (x : ℤ). x ≤ℤ i64 (sub64 ts' c.sync_point.ts)) (sym (ticks ts h v))
                (subst (λ (x : ℤ). sub_ℕ ts c.sync_point.ts ≤ℤ x) (sym (ticks ts' h v'))
                  (sub_ℕ_mono ts ts' c.sync_point.ts le)))))))

  -- For a clock whose tick is not negative, and two convertible time stamps: the later one is not
  -- converted to an earlier local time.
  pub timestamp_to_local_system_time_mono :
      (ts ts' : ℕ)
      → c.sync_point.ts < 2 ^ 64
      → double.is_greater (double.of_u64 0) c.ns_per_tick ≡ false
      → Convertible ts
      → Convertible ts'
      → ts ≤ ts'
      → timestamp_to_local_system_time double c ts ≤ℤ timestamp_to_local_system_time double c ts'
  timestamp_to_local_system_time_mono ts ts' h tick v v' le =
      subst (λ (x : ℤ). x ≤ℤ timestamp_to_local_system_time double c ts') (sym (converted ts v))
        (subst (λ (x : ℤ). local_time_ns ts ≤ℤ x) (sym (converted ts' v'))
          (local_time_ns-mono ts ts' h tick v v' le))
