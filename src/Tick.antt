-- ===== src/Tick.antt =====
-- The length of a tick of the time stamp counter, include/papper/detail/time.h on x86. `strtod` is that
-- of the C library; `measured` is what `measure_tsc_tick` returns.
pub mod Invariant
pub mod Brand
mod Tests
use papper.Common.{
  ℕ, zero, suc, ◌+◌, ◌-◌, ◌^◌, bit_and, ◌||◌, Option, none, some, ltb, ◌==◌, if◌then◌else◌, length,
  get_elem?, drop, ◌>>=◌, sub64,
}
use papper.Double.{Double}
use papper.Text.{Text}
use papper.Cpu.{CpuId, on_intel, cpu_model_name, on_apple_rosetta}

-- The multiplier of the unit at the third character from the end.
abbrev pub multiplier_of : ℕ → Option ℕ
multiplier_of c =
    if c == b'M'
    then some 1_000_000
    else if c == b'G'
    then some 1_000_000_000
    else if c == b'T'
    then some 1_000_000_000_000
    else none

-- `while (*end != ' ' && end >= brand) end--;`, from an index: the character is read before the bound
-- is tested, so with no blank the loop reads in front of the text, which is `none`.
unfoldable pub find_blank : ℕ → Text → Option ℕ
find_blank zero brand = elim (get_elem? brand 0) [
  | none ↦ none
  | some c ↦ if c == b' ' then some 0 else none
]
find_blank (suc end) brand =
    let further = find_blank end brand in
    elim (get_elem? brand (suc end)) [
      | none ↦ none
      | some c ↦ if c == b' ' then some (suc end) else further
    ]

module _ {D : Type 0} (double : Double D) (x86_cpuid : ℕ → CpuId) (strtod : Text → D)
    (measured : D) where
  open double use {of_u64, times, over, is_equal}

  -- `measure_tsc_tick`, from the counter before and behind a pause of 10 ms.
  unfoldable pub measure_tsc_tick : ℕ → ℕ → D
  measure_tsc_tick start_tick end_tick =
      over (of_u64 10_000_000) (of_u64 (sub64 end_tick start_tick))

  unfoldable pub extract_tick_time_from_leaf_15h : Option D
  extract_tick_time_from_leaf_15h =
      if ltb (x86_cpuid 0).eax 0x15
      then none
      else let cpuinfo = x86_cpuid 0x15 in
        if (cpuinfo.ebx == 0) || (cpuinfo.ecx == 0)
        then none
        else some (
            over (times (of_u64 1_000_000_000) (of_u64 cpuinfo.eax))
              (times (of_u64 cpuinfo.ebx) (of_u64 cpuinfo.ecx)))

  -- The tick of a frequency, unless it is 0.
  abbrev pub tick_of : D → ℕ → Option D
  tick_of freq multiplier =
      if is_equal freq (of_u64 0)
      then none
      else some (over (of_u64 1_000_000_000) (times freq (of_u64 multiplier)))

  -- What follows the test of the unit, at the index `end`.
  abbrev pub tick_from_unit : Text → ℕ → Option ℕ → Option (Option D)
  tick_from_unit brand end none = some none
  tick_from_unit brand end (some multiplier) =
      find_blank end brand >>= λ i. some (tick_of (strtod (drop (i + 1) brand)) multiplier)

  -- `extract_tick_time_from_name`, from the name: the outer `none` is a read outside of the text, the
  -- inner one the answer false.
  unfoldable pub tick_from_brand : Text → Option (Option D)
  tick_from_brand brand =
      if ltb (length brand) 3
      then none
      else get_elem? brand (length brand - 3) >>= λ unit.
          tick_from_unit brand (length brand - 3) (multiplier_of unit)

  -- Here and below the outer `none` is any access outside of an array: that in `cpu_model_name` to its
  -- array, or the read outside of the name.
  unfoldable pub extract_tick_time_from_name : Option (Option D)
  extract_tick_time_from_name = cpu_model_name x86_cpuid >>= λ brand. tick_from_brand brand

  -- `res` if there is one, and else the measured length.
  abbrev pub or_measured : Option D → Option D
  or_measured none = some measured
  or_measured (some res) = some res

  abbrev on_intel_by_name : Option (Option D)
  on_intel_by_name = on_apple_rosetta x86_cpuid >>= λ rosetta.
      if rosetta
      then some (some measured)
      else (extract_tick_time_from_name >>= λ res. some (or_measured res))

  -- The ways to find the length, for a processor with an invariant counter.
  abbrev pub find_tick : Option D → Option (Option D)
  find_tick (some res) = some (some res)
  find_tick none = if on_intel x86_cpuid then on_intel_by_name else some (some measured)

  -- `get_tsc_ns_per_tick`: the inner `none` is the answer false.
  unfoldable pub get_tsc_ns_per_tick : Option (Option D)
  get_tsc_ns_per_tick =
      if ltb (x86_cpuid 0x8000_0000).eax 0x8000_0007
      then some none
      else if bit_and (x86_cpuid 0x8000_0007).edx (2 ^ 8) == 0
      then some none
      else find_tick extract_tick_time_from_leaf_15h

-- `get_tsc_ns_per_tick` on ARM, whose counter is invariant, from the frequency in cntfrq_el0.
abbrev get_tsc_ns_per_tick_on_arm : {D : Type 0} → Double D → ℕ → Option D
get_tsc_ns_per_tick_on_arm double freq =
    some (double.over (double.of_u64 1_000_000_000) (double.of_u64 freq))
