-- ===== src/Tick/Brand.antt =====
-- The frequency in the name of the processor (include/papper/detail/time.h).
use papper.Common.{
  ℕ, zero, suc, ◌+◌, ◌-◌, ◌^◌, ◌≤◌, ◌<◌, ◌≡◌, refl, ap, ap₂, ◌∙◌, subst, ◌≢◌, ◌⊎◌, inl, inr, true,
  false, Option, none, some, [], ◌∷◌, ◌++◌, append_assoc, arith, ltb, ==_false, Bool-cases, length,
  get_elem?, drop, length-append,
}
use papper.Double.{Double}
use papper.Text.{Text}
use papper.Cpu.{CpuId}
use papper.Tick.{multiplier_of, find_blank, tick_of, tick_from_unit, tick_from_brand}

-- The text has no blank.
abbrev NoBlank : Text → Type 0
NoBlank [] = Unit {0}
NoBlank (c ∷ cs) = (c ≢ b' ') × NoBlank cs

-- The character at an index is there, and is no blank.
abbrev Figure : Text → ℕ → Type 0
Figure t i = (c : ℕ) × (get_elem? t i ≡ some c) × (c ≢ b' ')

NoBlank-Figure : (t rest : Text) (i : ℕ) → NoBlank t → i < length t → Figure (t ++ rest) i
NoBlank-Figure [] rest i n h = absurd (omega arith)
NoBlank-Figure (c ∷ t) rest zero n h = (c, refl, n.0)
NoBlank-Figure (c ∷ t) rest (suc i) n h = NoBlank-Figure t rest i n.1 (omega arith)

get_elem?-append_right :
    (xs ys : Text) (i : ℕ) → get_elem? (xs ++ ys) (length xs + i) ≡ get_elem? ys i
get_elem?-append_right [] ys i = let e : 0 + i ≡ i = omega arith in rw e
get_elem?-append_right (x ∷ xs) ys i =
    let e : suc (length xs) + i ≡ suc (length xs + i) = omega arith in
    rw e (get_elem?-append_right xs ys i)

get_elem?-append_self : (xs ys : Text) (c : ℕ) → get_elem? (xs ++ c ∷ ys) (length xs) ≡ some c
get_elem?-append_self [] ys c = refl
get_elem?-append_self (x ∷ xs) ys c = get_elem?-append_self xs ys c

drop-append_suc : (xs ys : Text) (c : ℕ) → drop (suc (length xs)) (xs ++ c ∷ ys) ≡ ys
drop-append_suc [] ys c = refl
drop-append_suc (x ∷ xs) ys c = drop-append_suc xs ys c

-- The search from `end` down, over characters that are no blanks.
find_blank-step :
    (end : ℕ) (t : Text) → Figure t (suc end) → find_blank (suc end) t ≡ find_blank end t
unfolding find_blank
find_blank-step end t (c, g, other) = rw (g, find_blank) (rw (==_false c b' ' other) refl)

find_blank-at : (i : ℕ) (t : Text) → get_elem? t i ≡ some b' ' → find_blank i t ≡ some i
unfolding find_blank
find_blank-at zero t g = rw (g, find_blank) refl
find_blank-at (suc i) t g = rw (g, find_blank) refl

find_blank-down :
    (k i : ℕ) (t : Text)
    → get_elem? t i ≡ some b' '
    → ((j : ℕ) → i < j → j ≤ i + k → Figure t j)
    → find_blank (i + k) t ≡ some i
find_blank-down zero i t g figures =
    ap (λ (n : ℕ). find_blank n t) (omega arith) ∙ find_blank-at i t g
find_blank-down (suc k) i t g figures =
    ap (λ (n : ℕ). find_blank n t) (omega arith)
    ∙ find_blank-step (i + k) t (figures (suc (i + k)) (omega arith) (omega arith))
    ∙ find_blank-down k i t g (λ j lt le. figures j lt (omega arith))

find_blank-none : (end : ℕ) (t : Text) → ((j : ℕ) → j ≤ end → Figure t j) → find_blank end t ≡ none
unfolding find_blank
find_blank-none zero t figures =
    let (c, g, other) = figures 0 (omega arith) in
    rw (g, find_blank) (rw (==_false c b' ' other) refl)
find_blank-none (suc end) t figures =
    find_blank-step end t (figures (suc end) (omega arith))
    ∙ find_blank-none end t (λ j le. figures j (omega arith))

-- What the letters stand for.
pub data UnitOf : ℕ → ℕ → Type 0 where
  mega : UnitOf b'M' (10 ^ 6)
  giga : UnitOf b'G' (10 ^ 9)
  tera : UnitOf b'T' (10 ^ 12)

UnitOf-multiplier_of : (unit m : ℕ) → UnitOf unit m → multiplier_of unit ≡ some m
UnitOf-multiplier_of unit m mega = refl
UnitOf-multiplier_of unit m giga = refl
UnitOf-multiplier_of unit m tera = refl

unit_not_blank : (unit m : ℕ) → multiplier_of unit ≡ some m → unit ≢ b' '
unit_not_blank unit m h = ground arith

NoBlank-snoc : (t : Text) (c : ℕ) → NoBlank t → c ≢ b' ' → NoBlank (t ++ c ∷ [])
NoBlank-snoc [] c n h = (h, tt)
NoBlank-snoc (d ∷ t) c n h = (n.0, NoBlank-snoc t c n.1 h)

unit-Figure :
    (figures : Text) (unit x y i : ℕ)
    → NoBlank figures
    → unit ≢ b' '
    → i ≤ length figures
    → Figure (figures ++ unit ∷ x ∷ y ∷ []) i
unit-Figure figures unit x y i n other le =
    subst (λ (t : Text). Figure t i) (append_assoc figures (unit ∷ []) (x ∷ y ∷ []))
      (NoBlank-Figure (figures ++ unit ∷ []) (x ∷ y ∷ []) i (NoBlank-snoc figures unit n other)
        (omega (arith, length-append figures (unit ∷ []))))

module _ {D : Type 0} (double : Double D) (x86_cpuid : ℕ → CpuId) (strtod : Text → D)
    (measured : D) where
  abbrev from_brand : Text → Option (Option D)
  from_brand = tick_from_brand double x86_cpuid strtod measured

  abbrev from_unit : Text → ℕ → Option ℕ → Option (Option D)
  from_unit = tick_from_unit double x86_cpuid strtod measured

  unit_step :
      (brand : Text) (n unit m : ℕ)
      → length brand ≡ n + 3
      → get_elem? brand n ≡ some unit
      → multiplier_of unit ≡ some m
      → from_brand brand ≡ from_unit brand n (some m)
  unfolding tick_from_brand
  unit_step brand n unit m long g h =
      let index : length brand - 3 ≡ n = omega arith in
      rw (not_short (length brand) (omega arith), tick_from_brand) (rw index (rw g (rw h refl)))
    where
      not_short : (k : ℕ) → 3 ≤ k → ltb k 3 ≡ false
      not_short k le = ground arith

  -- The call at a name that has its unit third from the end.
  at_unit :
      (before : Text) (unit x y m : ℕ)
      → multiplier_of unit ≡ some m
      → from_brand (before ++ unit ∷ x ∷ y ∷ [])
        ≡ from_unit (before ++ unit ∷ x ∷ y ∷ []) (length before) (some m)
  at_unit before unit x y m h =
      unit_step (before ++ unit ∷ x ∷ y ∷ []) (length before) unit m
        (length-append before (unit ∷ x ∷ y ∷ [])) (get_elem?-append_self before (x ∷ y ∷ []) unit)
        h

  -- Behind the last blank stand the figures.
  tick_from_figures :
      (words figures : Text) (unit x y m : ℕ)
      → NoBlank figures
      → multiplier_of unit ≡ some m
      → tick_from_brand double x86_cpuid strtod measured
          ((words ++ b' ' ∷ figures) ++ unit ∷ x ∷ y ∷ [])
        ≡ some (tick_of double x86_cpuid strtod measured (strtod (figures ++ unit ∷ x ∷ y ∷ [])) m)
  tick_from_figures words figures unit x y m n h =
      at_unit (words ++ b' ' ∷ figures) unit x y m h ∙ rw found (ap tick behind)
    where
      brand : Text
      brand = (words ++ b' ' ∷ figures) ++ unit ∷ x ∷ y ∷ []

      split : brand ≡ words ++ b' ' ∷ (figures ++ unit ∷ x ∷ y ∷ [])
      split = append_assoc words (b' ' ∷ figures) (unit ∷ x ∷ y ∷ [])

      tick : Text → Option (Option D)
      tick t = some (tick_of double x86_cpuid strtod measured (strtod t) m)

      rest : Text
      rest = figures ++ unit ∷ x ∷ y ∷ []

      figure :
          (j : ℕ)
          → length words < j
          → j ≤ length words + suc (length figures)
          → Figure (words ++ b' ' ∷ rest) j
      figure j lt le =
          let (c, g, other) =
            unit-Figure figures unit x y (j - length words - 1) n (unit_not_blank unit m h)
              (omega arith) in
          let e : j ≡ length words + suc (j - length words - 1) = omega arith in
          (
            c,
            ap (get_elem? (words ++ b' ' ∷ rest)) e
                ∙ get_elem?-append_right words (b' ' ∷ rest) (suc (j - length words - 1))
                ∙ g,
            other,
          )

      behind : drop (length words + 1) brand ≡ figures ++ unit ∷ x ∷ y ∷ []
      behind =
          (let e : length words + 1 ≡ suc (length words) = omega arith in ap₂ drop e split)
          ∙ drop-append_suc words (figures ++ unit ∷ x ∷ y ∷ []) b' '

      found : find_blank (length (words ++ b' ' ∷ figures)) brand ≡ some (length words)
      found =
          ap₂ find_blank (length-append words (b' ' ∷ figures)) split
          ∙ find_blank-down (suc (length figures)) (length words)
              (words ++ b' ' ∷ (figures ++ unit ∷ x ∷ y ∷ []))
              (get_elem?-append_self words (figures ++ unit ∷ x ∷ y ∷ []) b' ') figure

  -- A name whose third character from the end is a unit, M, G or T for 10^6, 10^9 or 10^12, and that has
  -- a blank before: strtod reads the figures between the last blank and the unit, with what follows. If
  -- it gives 0 the answer is false, and otherwise the tick is 1e9 divided by what it gives times the unit.
  pub tick_from_brand_lem :
      (words figures : Text) (unit x y m : ℕ)
      → NoBlank figures
      → UnitOf unit m
      → let tick =
          tick_from_brand double x86_cpuid strtod measured
            ((words ++ b' ' ∷ figures) ++ unit ∷ x ∷ y ∷ []) in
        let frequency = strtod (figures ++ unit ∷ x ∷ y ∷ []) in
        ((double.is_equal frequency (double.of_u64 0) ≡ true) × (tick ≡ some none))
        ⊎ ((double.is_equal frequency (double.of_u64 0) ≡ false)
            × (tick
                ≡ some (
                    some (
                      double.over
                        (double.of_u64 1_000_000_000)
                        (double.times frequency (double.of_u64 m))))))
  tick_from_brand_lem words figures unit x y m n u =
      let frequency : D = strtod (figures ++ unit ∷ x ∷ y ∷ []) in
      elim (Bool-cases (double.is_equal frequency (double.of_u64 0))) [
        | inl nothing ↦ inl (
          nothing,
          tick_from_figures words figures unit x y m n (UnitOf-multiplier_of unit m u)
              ∙ rw nothing refl,
        )
        | inr other ↦ inr (
          other,
          tick_from_figures words figures unit x y m n (UnitOf-multiplier_of unit m u)
              ∙ rw other refl,
        )
      ]

  -- A name whose third character from the end is a unit but that has no blank before it: the search
  -- reads in front of the name.
  pub tick_from_brand-NoBlank :
      (figures : Text) (unit x y m : ℕ)
      → NoBlank figures
      → UnitOf unit m
      → tick_from_brand double x86_cpuid strtod measured (figures ++ unit ∷ x ∷ y ∷ []) ≡ none
  tick_from_brand-NoBlank figures unit x y m n u =
      at_unit figures unit x y m h ∙ rw (find_blank-none (length figures) brand figure) refl
    where
      h : multiplier_of unit ≡ some m
      h = UnitOf-multiplier_of unit m u

      brand : Text
      brand = figures ++ unit ∷ x ∷ y ∷ []

      figure : (j : ℕ) → j ≤ length figures → Figure brand j
      figure j le = unit-Figure figures unit x y j n (unit_not_blank unit m h) le
