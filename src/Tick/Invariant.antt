-- ===== src/Tick/Invariant.antt =====
-- Which processors include/papper/detail/time.h refuses.
use papper.Common.{
  ℕ, ◌^◌, ◌≤◌, ◌<◌, bit_and, ◌≡◌, refl, ◌⊎◌, inl, inr, true, false, Option, none, some, arith, ltb,
  ◌==◌, ltb→lt, leb_of_ltb, ==_iff, Bool-cases, Option-cases, ◌>>=◌,
}
use papper.Common.Bits.{bit, bit_and-bit}
use papper.Double.{Double}
use papper.Text.{Text, codes}
use papper.Cpu.{CpuId, has_substring, on_intel, cpu_model_name, on_apple_rosetta}
use papper.Tick.{
  extract_tick_time_from_leaf_15h, tick_from_brand, extract_tick_time_from_name, or_measured,
  find_tick, get_tsc_ns_per_tick,
}

-- The processor has the leaf that tells of the counter, and its bit 8 says that the counter is
-- invariant.
abbrev pub HasInvariantTsc : (ℕ → CpuId) → Type 0
HasInvariantTsc x86_cpuid =
    (0x8000_0007 ≤ (x86_cpuid 0x8000_0000).eax) × (bit 8 (x86_cpuid 0x8000_0007).edx ≡ 1)

module _ {D : Type 0} (double : Double D) (x86_cpuid : ℕ → CpuId) (strtod : Text → D)
    (measured : D) where
  -- A processor of Intel that does not tell by leaf 15H, and an access outside of an array: by
  -- `cpu_model_name`, or with the name behind the reads of the name.
  pub record OutsideOfArray : Type 0 where
    pub untold : extract_tick_time_from_leaf_15h double x86_cpuid strtod measured ≡ none
    pub intel : on_intel x86_cpuid ≡ true
    pub place :
        (cpu_model_name x86_cpuid ≡ none)
        ⊎ ((name : Text) × (cpu_model_name x86_cpuid ≡ some name)
            × (has_substring (codes "Apple") name ≡ false)
            × (tick_from_brand double x86_cpuid strtod measured name ≡ none))

  -- A length, or an access outside of an array.
  abbrev Found : Option (Option D) → Type 0
  Found r = ((t : D) × (r ≡ some (some t))) ⊎ ((r ≡ none) × OutsideOfArray)

  by_name-Found :
      (name : Text) (r : Option (Option D))
      → extract_tick_time_from_leaf_15h double x86_cpuid strtod measured ≡ none
      → on_intel x86_cpuid ≡ true
      → cpu_model_name x86_cpuid ≡ some name
      → has_substring (codes "Apple") name ≡ false
      → tick_from_brand double x86_cpuid strtod measured name ≡ r
      → Found (r >>= λ res. some (or_measured double x86_cpuid strtod measured res))
  by_name-Found name none untold intel named other e =
      inr (refl, record { untold = untold; intel = intel; place = inr (name, named, other, e) })
  by_name-Found name (some none) untold intel named other e = inl (measured, refl)
  by_name-Found name (some (some t)) untold intel named other e = inl (t, refl)

  find_tick-Found :
      (r : Option D)
      → extract_tick_time_from_leaf_15h double x86_cpuid strtod measured ≡ r
      → Found (find_tick double x86_cpuid strtod measured r)
  unfolding on_apple_rosetta extract_tick_time_from_name
  find_tick-Found (some t) told = inl (t, refl)
  find_tick-Found none untold = elim (Bool-cases (on_intel x86_cpuid)) [
    | inr other ↦ inl (measured, rw other refl)
    | inl intel ↦ rw intel (elim (Option-cases (cpu_model_name x86_cpuid)) [
      | inl e ↦ inr (rw e refl, record { untold = untold; intel = intel; place = inl e })
      | inr (name, e) ↦ elim (Bool-cases (has_substring (codes "Apple") name)) [
        | inl rosetta ↦ inl (measured, rw e (rw rosetta refl))
        | inr other ↦ rw e (rw other (by_name-Found name _ untold intel e other refl))
      ]
    ])
  ]

  not_zero : (n : ℕ) → (n == 0) ≡ false → 0 < n
  not_zero n h = ground arith

  -- `get_tsc_ns_per_tick` answers false exactly for a processor that does not have an invariant counter,
  -- or does not tell. For any other it finds a length; or there is an access outside of an array, and
  -- then the processor is one of Intel that does not tell by leaf 15H, and either `cpu_model_name` writes
  -- or reads past the end of its array, or what it returns does not contain "Apple" and the search in it
  -- reads outside of the name.
  pub get_tsc_ns_per_tick_lem :
      ((¬ HasInvariantTsc x86_cpuid)
        × (get_tsc_ns_per_tick double x86_cpuid strtod measured ≡ some none))
      ⊎ (HasInvariantTsc x86_cpuid
          × (((t : D) × (get_tsc_ns_per_tick double x86_cpuid strtod measured ≡ some (some t)))
              ⊎ ((get_tsc_ns_per_tick double x86_cpuid strtod measured ≡ none) × OutsideOfArray)))
  unfolding get_tsc_ns_per_tick
  get_tsc_ns_per_tick_lem = elim (Bool-cases (ltb (x86_cpuid 0x8000_0000).eax 0x8000_0007)) [
    | inl low ↦ inl ((λ h. absurd (omega (arith, h.0, ltb→lt _ _ low))), rw low refl)
    | inr high ↦ elim (Bool-cases (bit_and (x86_cpuid 0x8000_0007).edx (2 ^ 8) == 0)) [
      | inl unset ↦ inl (
        (λ h. absurd (
            omega (
              arith,
              h.1,
              bit_and-bit 8 (x86_cpuid 0x8000_0007).edx,
              (==_iff (bit_and (x86_cpuid 0x8000_0007).edx (2 ^ 8)) 0).0 unset,
            ))),
        rw high (rw unset refl),
      )
      | inr is_set ↦ inr (
        (
          leb_of_ltb _ _ high,
          omega (arith, bit_and-bit 8 (x86_cpuid 0x8000_0007).edx, not_zero _ is_set),
        ),
        rw high (
            rw is_set (
              find_tick-Found (extract_tick_time_from_leaf_15h double x86_cpuid strtod measured)
                refl)),
      )
    ]
  ]
