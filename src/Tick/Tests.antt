-- ===== src/Tick/Tests.antt =====
-- The tick length (include/papper/detail/time.h) of a processor that has its frequency in its name.
use papper.Common.{ℕ, ◌^◌, ◌≡◌, ◌⊎◌, true, false, none, some, arith, length}
use papper.Common.Int.{ℤ, pos}
use papper.Double.{whole_numbers}
use papper.Text.{Text, codes}
use papper.Cpu.{CpuId}
use papper.Tick.{tick_from_brand, get_tsc_ns_per_tick}
use papper.Tick.Invariant.{HasInvariantTsc, OutsideOfArray, get_tsc_ns_per_tick_lem}
use papper.Tick.Brand.{giga, tick_from_brand_lem, tick_from_brand-NoBlank}

abbrev registers : ℕ → CpuId
registers leaf = record { eax = 0x8000_0008; ebx = 0; ecx = 0; edx = 0x100 }

-- A stand-in for strtod that counts the characters.
abbrev counted : Text → ℤ
counted t = pos (length t)

get_tsc_ns_per_tick_lem_example :
    ((¬ HasInvariantTsc registers)
      × (get_tsc_ns_per_tick whole_numbers registers counted (pos 7) ≡ some none))
    ⊎ (HasInvariantTsc registers
        × (((t : ℤ) × (get_tsc_ns_per_tick whole_numbers registers counted (pos 7) ≡ some (some t)))
            ⊎ ((get_tsc_ns_per_tick whole_numbers registers counted (pos 7) ≡ none)
                × OutsideOfArray whole_numbers registers counted (pos 7))))
get_tsc_ns_per_tick_lem_example = get_tsc_ns_per_tick_lem whole_numbers registers counted (pos 7)

tick_from_brand_lem_example :
    let tick = tick_from_brand whole_numbers registers counted (pos 7) (codes "CPU @ 3.60GHz") in
    let frequency = counted (codes "3.60GHz") in
    ((whole_numbers.is_equal frequency (pos 0) ≡ true) × (tick ≡ some none))
    ⊎ ((whole_numbers.is_equal frequency (pos 0) ≡ false)
        × (tick
            ≡ some (
                some (
                  whole_numbers.over
                    (pos 1_000_000_000)
                    (whole_numbers.times frequency (pos 1_000_000_000))))))
tick_from_brand_lem_example =
    tick_from_brand_lem whole_numbers registers counted (pos 7) (codes "CPU @") (codes "3.60") b'G'
      b'H' b'z' (10 ^ 9) (omega arith) giga

tick_from_brand-NoBlank_example :
    tick_from_brand whole_numbers registers counted (pos 7) (codes "3.60GHz") ≡ none
tick_from_brand-NoBlank_example =
    tick_from_brand-NoBlank whole_numbers registers counted (pos 7) (codes "3.60") b'G' b'H' b'z'
      (10 ^ 9) (omega arith) giga
