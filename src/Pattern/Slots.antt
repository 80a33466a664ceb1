-- ===== src/Pattern/Slots.antt =====
-- The format string that `parse_pattern` makes (include/papper/detail/pattern.h) asks for as many
-- arguments as the formatter passes.
use papper.Common.{
  ℕ, suc, ◌+◌, ◌≡◌, refl, sym, ap, ap₂, ◌∙◌, inl, inr, true, Option, none, some, List, [], ◌∷◌,
  ◌++◌, arith, ◌==◌, if◌then◌else◌, ==_false, length, length-append, ◌>>=◌,
}
use papper.Common.Int.{ℤ}
use papper.Text.{Text}
use papper.Pattern.{
  PatternData, PatternField, PatternFieldFormatSpec, no_spec, time_hms_micros, time_hms_nanos,
  no_error, validate_field_spec_combination,
}
use papper.Pattern.Parse.{ParsedPattern, parsed, parse_pattern}
use papper.Pattern.Names.{HasFormat-validate, shown}
use papper.Pattern.Grammar.{
  Placeholder, bare, formatted, Parses, done, literal, escape, placeholder,
}
use papper.Pattern.Meaning.{parse_pattern_sound}
use papper.Pattern.Format.{
  FormatArg, get_field, Caches, process_time_arg, expand_and_process_format_arg, format_args,
}

-- Where a reader of a format string of fmt stands: in text, behind a first opening bracket, in a
-- replacement field, behind a first closing bracket.
pub data Mode : Type 0 where
  in_text opened in_field closed : Mode

-- The next place, and the replacement fields that end here; `none` for what fmt refuses.
abbrev pub next_mode : Mode → ℕ → Option (Mode × ℕ)
next_mode in_text c =
    some (if c == b'{' then (opened, 0) else if c == b'}' then (closed, 0) else (in_text, 0))
next_mode opened c =
    some (if c == b'{' then (in_text, 0) else if c == b'}' then (in_text, 1) else (in_field, 0))
next_mode in_field c = some (if c == b'}' then (in_text, 1) else (in_field, 0))
next_mode closed c = if c == b'}' then some (in_text, 0) else none

-- The number of replacement fields of a format string, read as fmt does.
abbrev slots_from : Mode → Text → Option ℕ
slots_from in_text [] = some 0
slots_from mode [] = none
slots_from mode (c ∷ cs) =
    next_mode mode c >>= λ (mode', k). slots_from mode' cs >>= λ n. some (k + n)

abbrev slots : Text → Option ℕ
slots f = slots_from in_text f

-- How many arguments a field with a format is expanded to.
abbrev args_of : PatternFieldFormatSpec → ℕ
args_of time_hms_micros = 2
args_of time_hms_nanos = 2
args_of spec = 1

abbrev total_args : List PatternFieldFormatSpec → ℕ
total_args [] = 0
total_args (spec ∷ specs) = args_of spec + total_args specs

slots-shown :
    (spec : PatternFieldFormatSpec) (f : Text) (n : ℕ)
    → slots f ≡ some n
    → slots (shown spec ++ f) ≡ some (args_of spec + n)
slots-shown no_spec f n h = rw h (ap {B = Option ℕ} some (omega arith))
slots-shown spec f n h = rw h (ap {B = Option ℕ} some (omega arith))

Parses-slots :
    {p f : Text} {fs : List PatternField} {ss : List PatternFieldFormatSpec}
    → Parses p f fs ss
    → slots f ≡ some (total_args ss)
Parses-slots done = refl
Parses-slots (literal {c = c} {f = f} {ss = ss} not_open not_close p) =
    rw (==_false c b'{' not_open, ==_false c b'}' not_close)
      (rw (Parses-slots p) (ap {B = Option ℕ} some (omega arith)))
Parses-slots (escape {f = f} {ss = ss} (inl open_brace) same p) =
    rw (same, open_brace) (rw (Parses-slots p) (ap {B = Option ℕ} some (omega arith)))
Parses-slots (escape {f = f} {ss = ss} (inr close_brace) same p) =
    rw (same, close_brace) (rw (Parses-slots p) (ap {B = Option ℕ} some (omega arith)))
Parses-slots (placeholder {f = f} {ss = ss} {spec = spec} o d e l ph p) =
    slots-shown spec f (total_args ss) (Parses-slots p)

-- The fields and the formats of an accepted pattern belong together.
pub Parses-paired :
    {p f : Text} {fs : List PatternField} {ss : List PatternFieldFormatSpec}
    → Parses p f fs ss
    → length fs ≡ length ss
Parses-paired done = refl
Parses-paired (literal not_open not_close p) = Parses-paired p
Parses-paired (escape brace same p) = Parses-paired p
Parses-paired (placeholder o d e l ph p) = ap suc (Parses-paired p)

-- Each argument has a format that it can be expanded with.
abbrev pub AllAllowed : List PatternField → List PatternFieldFormatSpec → Type 0
AllAllowed [] ss = Unit {0}
AllAllowed (f ∷ fs) [] = ⊥
AllAllowed (f ∷ fs) (s ∷ ss) = (validate_field_spec_combination f s ≡ true) × AllAllowed fs ss

Placeholder-allowed :
    {cs : Text} {field : PatternField} {spec : PatternFieldFormatSpec}
    → Placeholder cs field spec
    → validate_field_spec_combination field spec ≡ true
Placeholder-allowed (bare name l n s allowed) = HasFormat-validate allowed
Placeholder-allowed (formatted name spec_name l n s allowed) = HasFormat-validate allowed

pub Parses-allowed :
    {p f : Text} {fs : List PatternField} {ss : List PatternFieldFormatSpec}
    → Parses p f fs ss
    → AllAllowed fs ss
Parses-allowed done = tt
Parses-allowed (literal not_open not_close p) = Parses-allowed p
Parses-allowed (escape brace same p) = Parses-allowed p
Parses-allowed (placeholder o d e l ph p) = (Placeholder-allowed ph, Parses-allowed p)

module _ (hms : ℤ → Text) (vformat : Text → List FormatArg → Text) where
  length-expand :
      (field : PatternField) (spec : PatternFieldFormatSpec) (caches : Caches) (d : PatternData)
      → validate_field_spec_combination field spec ≡ true
      → length (expand_and_process_format_arg hms vformat spec caches (get_field field d)).1
        ≡ args_of spec
  unfolding validate_field_spec_combination expand_and_process_format_arg get_field process_time_arg
  length-expand field spec caches d h = ground arith

  length-format_args :
      (fs : List PatternField) (ss : List PatternFieldFormatSpec) (caches : Caches)
      (d : PatternData)
      → length fs ≡ length ss
      → AllAllowed fs ss
      → length (format_args hms vformat fs ss caches d).1 ≡ total_args ss
  unfolding format_args
  length-format_args [] [] caches d e h = refl
  length-format_args [] (s ∷ ss) caches d e h = absurd (omega arith)
  length-format_args (f ∷ fs) [] caches d e h = absurd h
  length-format_args (f ∷ fs) (s ∷ ss) caches d e h =
      let out : Caches × List FormatArg =
        expand_and_process_format_arg hms vformat s caches (get_field f d) in
      length-append out.1 (format_args hms vformat fs ss out.0 d).1
      ∙ ap₂ ◌+◌ (length-expand f s caches d h.0)
          (length-format_args fs ss out.0 d (omega arith) h.1)

  -- For an accepted pattern, the format string that is handed to fmt has exactly as many replacement
  -- fields as there are arguments, whatever the event.
  format_args-fit :
      (max_fields max_len : ℕ) (p : Text) {r : ParsedPattern} (caches : Caches) (d : PatternData)
      → parse_pattern max_fields max_len p ≡ parsed r
      → r.error ≡ no_error
      → slots r.fmt_str ≡ some (length (format_args hms vformat r.fields r.specs caches d).1)
  format_args-fit max_fields max_len p {r} caches d h ok =
      let g = (parse_pattern_sound max_fields max_len p h ok).0 in
      Parses-slots g
      ∙ ap {B = Option ℕ} some
          (sym (length-format_args r.fields r.specs caches d (Parses-paired g) (Parses-allowed g)))
