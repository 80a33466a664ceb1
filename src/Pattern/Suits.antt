-- ===== src/Pattern/Suits.antt =====
-- The format string that `parse_pattern` makes (include/papper/detail/pattern.h) is typed: each of its
-- replacement fields gets an argument that it can format.
use papper.Common.{
  ℕ, ◌≡◌, refl, inl, inr, Bool, true, false, ◌&&◌, Option, none, some, List, [], ◌∷◌, ◌++◌, arith,
  ◌==◌, if◌then◌else◌, ==_false, Bool-cases, length, ◌>>=◌,
}
use papper.Common.Int.{ℤ}
use papper.Text.{Text, codes}
use papper.Pattern.{
  PatternData, PatternField, PatternFieldFormatSpec, no_spec, time_hms_micros, time_hms_nanos,
  no_error, validate_field_spec_combination,
}
use papper.Pattern.Parse.{ParsedPattern, parsed, parse_pattern}
use papper.Pattern.Names.{shown}
use papper.Pattern.Grammar.{Parses, done, literal, escape, placeholder}
use papper.Pattern.Meaning.{parse_pattern_sound}
use papper.Pattern.Format.{
  FormatArg, number_arg, get_field, Caches, process_time_arg, expand_and_process_format_arg,
  format_args,
}
use papper.Pattern.Slots.{
  Mode, in_text, in_field, next_mode, Parses-paired, AllAllowed, Parses-allowed,
}

abbrev collected : Mode → Text → ℕ → Text
collected in_field text c = text ++ c ∷ []
collected mode text c = []

-- What stands in the replacement fields of a format string, read as fmt does.
abbrev contents_from : Mode → Text → Text → Option (List Text)
contents_from in_text text [] = some []
contents_from mode text [] = none
contents_from mode text (c ∷ cs) = next_mode mode c >>= λ (mode', k).
    contents_from mode' (collected mode' text c) cs >>= λ more.
    some (if k == 1 then text ∷ more else more)

abbrev pub contents : Text → Option (List Text)
contents f = contents_from in_text [] f

-- A field without a format takes any argument; `:06` and `:09` pad a number with zeros, and fmt refuses
-- them for others.
abbrev suits : Text → FormatArg → Bool
suits [] arg = true
suits (c ∷ cs) (number_arg n) = true
suits (c ∷ cs) arg = false

abbrev pub all_suit : List Text → List FormatArg → Bool
all_suit [] [] = true
all_suit (t ∷ ts) (a ∷ xs) = suits t a && all_suit ts xs
all_suit ts xs = false

abbrev contents_of : PatternFieldFormatSpec → List Text
contents_of time_hms_micros = [] ∷ codes ":06" ∷ []
contents_of time_hms_nanos = [] ∷ codes ":09" ∷ []
contents_of spec = [] ∷ []

abbrev all_contents : List PatternFieldFormatSpec → List Text
all_contents [] = []
all_contents (spec ∷ specs) = contents_of spec ++ all_contents specs

contents-shown :
    (spec : PatternFieldFormatSpec) (f : Text) (ts : List Text)
    → contents f ≡ some ts
    → contents (shown spec ++ f) ≡ some (contents_of spec ++ ts)
contents-shown no_spec f ts h = rw h refl
contents-shown spec f ts h = rw h refl

Parses-contents :
    {p f : Text} {fs : List PatternField} {ss : List PatternFieldFormatSpec}
    → Parses p f fs ss
    → contents f ≡ some (all_contents ss)
Parses-contents done = refl
Parses-contents (literal {c = c} not_open not_close p) =
    rw (==_false c b'{' not_open, ==_false c b'}' not_close) (rw (Parses-contents p) refl)
Parses-contents (escape (inl open_brace) same p) =
    rw (same, open_brace) (rw (Parses-contents p) refl)
Parses-contents (escape (inr close_brace) same p) =
    rw (same, close_brace) (rw (Parses-contents p) refl)
Parses-contents (placeholder {f = f} {ss = ss} {spec = spec} o d e l ph p) =
    contents-shown spec f (all_contents ss) (Parses-contents p)

all_suit-append :
    (ts us : List Text) (xs ys : List FormatArg)
    → all_suit ts xs ≡ true
    → all_suit us ys ≡ true
    → all_suit (ts ++ us) (xs ++ ys) ≡ true
all_suit-append [] us [] ys h k = k
all_suit-append [] us (a ∷ xs) ys h k = cc
all_suit-append (t ∷ ts) us [] ys h k = cc
all_suit-append (t ∷ ts) us (a ∷ xs) ys h k = elim (Bool-cases (suits t a)) [
  | inl e ↦ rw e (all_suit-append ts us xs ys (rw e at h) k)
  | inr e ↦ absurd (clash (rw e at h))
]
  where
    clash : false ≡ true → ⊥
    clash x = cc

module _ (hms : ℤ → Text) (vformat : Text → List FormatArg → Text) where
  expand-suit :
      (field : PatternField) (spec : PatternFieldFormatSpec) (caches : Caches) (d : PatternData)
      → validate_field_spec_combination field spec ≡ true
      → all_suit
          (contents_of spec)
          (expand_and_process_format_arg hms vformat spec caches (get_field field d)).1
        ≡ true
  unfolding validate_field_spec_combination expand_and_process_format_arg get_field process_time_arg
  expand-suit field spec caches d h = ground arith

  all_suit-format_args :
      (fs : List PatternField) (ss : List PatternFieldFormatSpec) (caches : Caches)
      (d : PatternData)
      → length fs ≡ length ss
      → AllAllowed fs ss
      → all_suit (all_contents ss) (format_args hms vformat fs ss caches d).1 ≡ true
  unfolding format_args
  all_suit-format_args [] [] caches d e h = refl
  all_suit-format_args [] (s ∷ ss) caches d e h = absurd (omega arith)
  all_suit-format_args (f ∷ fs) [] caches d e h = absurd h
  all_suit-format_args (f ∷ fs) (s ∷ ss) caches d e h =
      let out : Caches × List FormatArg =
        expand_and_process_format_arg hms vformat s caches (get_field f d) in
      all_suit-append (contents_of s) (all_contents ss) out.1 _ (expand-suit f s caches d h.0)
        (all_suit-format_args fs ss out.0 d (omega arith) h.1)

  -- For an accepted pattern and any event, each replacement field of the format string that is handed to
  -- fmt has one argument of its own, in their order; and a field that pads with zeros has a number.
  pub format_args-suit :
      (max_fields max_len : ℕ) (p : Text) {r : ParsedPattern} (caches : Caches) (d : PatternData)
      → parse_pattern max_fields max_len p ≡ parsed r
      → r.error ≡ no_error
      → (ts : List Text) × (contents r.fmt_str ≡ some ts)
        × (all_suit ts (format_args hms vformat r.fields r.specs caches d).1 ≡ true)
  format_args-suit max_fields max_len p {r} caches d h ok =
      let g = (parse_pattern_sound max_fields max_len p h ok).0 in
      (
        all_contents r.specs,
        Parses-contents g,
        all_suit-format_args r.fields r.specs caches d (Parses-paired g) (Parses-allowed g),
      )
