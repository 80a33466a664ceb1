-- ===== src/Pattern/Grammar.antt =====
-- The language of patterns that include/papper/detail/pattern.h accepts, apart from how it is parsed,
-- and what a pattern means: a format string for fmt, and the fields that fill it.
use papper.Common.{
  ℕ, ◌≡◌, refl, sym, ap, subst, ◌≢◌, ◌⊎◌, inl, inr, true, Option, none, some, List, [], ◌∷◌, ◌++◌,
  arith, ◌==◌, ==_iff, Bool-cases, Option-cases,
}
use papper.Text.{Text}
use papper.Pattern.{
  PatternField, PatternFieldFormatSpec, name_to_field_enum, name_to_format_spec_enum,
  validate_field_spec_combination,
}
use papper.Pattern.Names.{
  FieldName, FormatName, HasFormat, shown, name_to_field_enum_lem, name_to_format_spec_enum_lem,
  validate-HasFormat,
}
use papper.Pattern.Parse.{find_close, split_colon}

-- The text has no character `c`.
abbrev pub Lacks : ℕ → Text → Type 0
Lacks c [] = Unit {0}
Lacks c (d ∷ ds) = (d ≢ c) × Lacks c ds

-- What may stand between brackets: the name of a field, and behind a colon a format that the field
-- has. A name ends at the first colon.
pub data Placeholder : Text → PatternField → PatternFieldFormatSpec → Type 0 where
  bare :
      (name : Text) {field : PatternField} {spec : PatternFieldFormatSpec}
      → Lacks b':' name
      → FieldName name field
      → FormatName [] spec
      → HasFormat field spec
      → Placeholder name field spec
  formatted :
      (name spec_name : Text) {field : PatternField} {spec : PatternFieldFormatSpec}
      → Lacks b':' name
      → FieldName name field
      → FormatName spec_name spec
      → HasFormat field spec
      → Placeholder (name ++ b':' ∷ spec_name) field spec

-- A pattern, its format string, its fields and their formats.
pub data Parses : Text → Text → List PatternField → List PatternFieldFormatSpec → Type 0 where
  done : Parses [] [] [] []
  literal :
      {c : ℕ} {cs f : Text} {fs : List PatternField} {ss : List PatternFieldFormatSpec}
      → c ≢ b'{'
      → c ≢ b'}'
      → Parses cs f fs ss
      → Parses (c ∷ cs) (c ∷ f) fs ss
  escape :
      {c d : ℕ} {cs f : Text} {fs : List PatternField} {ss : List PatternFieldFormatSpec}
      → (c ≡ b'{') ⊎ (c ≡ b'}')
      → d ≡ c
      → Parses cs f fs ss
      → Parses (c ∷ d ∷ cs) (c ∷ d ∷ f) fs ss
  placeholder :
      {c d e : ℕ} {inside cs f : Text} {fs : List PatternField} {ss : List PatternFieldFormatSpec}
      {field : PatternField} {spec : PatternFieldFormatSpec}
      → c ≡ b'{'
      → d ≢ b'{'
      → e ≡ b'}'
      → Lacks b'}' (d ∷ inside)
      → Placeholder (d ∷ inside) field spec
      → Parses cs f fs ss
      → Parses (c ∷ (d ∷ inside) ++ e ∷ cs) (shown spec ++ f) (field ∷ fs) (spec ∷ ss)

some_pair :
    {A B : Type 0} {a c : A} {b d : B}
    → ◌≡◌ {A = Option (A × B)} (some (a, b)) (some (c, d))
    → (a ≡ c) × (b ≡ d)
some_pair {A} {B} {a} {c} {b} {d} h =
    let p : ◌≡◌ {A = A × B} (a, b) (c, d) = cc in (ap (λ x. x.0) p, ap (λ x. x.1) p)

-- The search for the bracket splits the text at the first one.
pub find_close-eq :
    (cs before after : Text)
    → find_close cs ≡ some (before, after)
    → (cs ≡ before ++ b'}' ∷ after) × Lacks b'}' before
unfolding find_close
find_close-eq [] before after h = cc
find_close-eq (c ∷ cs) before after h = elim (Bool-cases (c == b'}')) [
  | inl e ↦
      let (b, a) = some_pair (rw e at h) in
      rw (sym b, sym a) (ap (λ (x : ℕ). x ∷ cs) ((==_iff c b'}').0 e), tt)
  | inr e ↦ elim (Option-cases (find_close cs)) [
    | inl f ↦ absurd (none_here (rw f at (rw e at h)))
    | inr ((b0, a0), f) ↦
        let (b, a) = some_pair (rw f at (rw e at h)) in
        let (split, lacks) = find_close-eq cs b0 a0 f in
        rw (sym b, sym a) (ap (λ (l : Text). c ∷ l) split, (ground arith, lacks))
  ]
]
  where
    none_here : ◌≡◌ {A = Option (Text × Text)} none (some (before, after)) → ⊥
    none_here h' = cc

-- The split at the first colon.
split_colon-eq :
    (cs : Text)
    → let (name, spec) = split_colon cs in
      Lacks b':' name × (((cs ≡ name) × (spec ≡ [])) ⊎ (cs ≡ name ++ b':' ∷ spec))
unfolding split_colon
split_colon-eq [] = (tt, inl (refl, refl))
split_colon-eq (c ∷ cs) = elim (Bool-cases (c == b':')) [
  | inl e ↦ rw e (tt, inr (ap (λ (x : ℕ). x ∷ cs) ((==_iff c b':').0 e)))
  | inr e ↦ rw e (
    (ground arith, (split_colon-eq cs).0),
    elim (split_colon-eq cs).1 [
      | inl (whole, bare_spec) ↦ inl (ap (λ (l : Text). c ∷ l) whole, bare_spec)
      | inr split ↦ inr (ap (λ (l : Text). c ∷ l) split)
    ],
  )
]

-- What the parser accepts between brackets is a placeholder.
pub split_colon-Placeholder :
    (cs : Text) (field : PatternField) (spec : PatternFieldFormatSpec)
    → name_to_field_enum (split_colon cs).0 ≡ some field
    → name_to_format_spec_enum (split_colon cs).1 ≡ some spec
    → validate_field_spec_combination field spec ≡ true
    → Placeholder cs field spec
split_colon-Placeholder cs field spec named formatted_as allowed = elim (split_colon-eq cs).1 [
  | inl (whole, bare_spec) ↦ rw whole (
      bare (split_colon cs).0 (split_colon-eq cs).0 field_name
        (subst (λ (l : Text). FormatName l spec) bare_spec format_name) has_format)
  | inr split ↦
      subst (λ (l : Text). Placeholder l field spec) (sym split)
        (formatted (split_colon cs).0 (split_colon cs).1 (split_colon-eq cs).0 field_name
          format_name has_format)
]
  where
    field_name : FieldName (split_colon cs).0 field
    field_name = (name_to_field_enum_lem (split_colon cs).0 field).0 named

    format_name : FormatName (split_colon cs).1 spec
    format_name = (name_to_format_spec_enum_lem (split_colon cs).1 spec).0 formatted_as

    has_format : HasFormat field spec
    has_format = validate-HasFormat field spec allowed
