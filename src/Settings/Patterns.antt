-- ===== src/Settings/Patterns.antt =====
-- What setting a pattern (include/papper/papper.h) means for the lines that follow.
use papper.Common.{
  ℕ, ◌≤◌, ◌≡◌, refl, sym, ap, ◌∙◌, ◌⊎◌, inl, inr, Option, none, some, List, [], ◌∷◌, ◌==◌,
  if◌then◌else◌, ==_iff, Option-cases, length,
}
use papper.Text.{Text}
use papper.Pattern.{
  ParsingError, no_error, unterminated_brace, empty_field_name, unknown_field_name,
  unknown_format_spec, invalid_spec_usage, too_many_fields, unmatched_closing_brace,
}
use papper.Pattern.Parse.{ParsedPattern, Outcome, parsed, overflow, out_of_fuel, parse_pattern}
use papper.Pattern.Grammar.{Parses}
use papper.Pattern.Meaning.{parse_pattern_sound}
use papper.Pattern.Complete.{parse_pattern_complete}
use papper.Formatters.{FormatterEffect, queue_new_formatter, poll_for_pending_formatter_switch}
use papper.Settings.{FormatterObjects, asserted, instantiated, set_long_pattern}

-- The formatter at an address, the one allocated last if the address was used before.
abbrev pub object_at : ℕ → List (ℕ × ParsedPattern) → Option ParsedPattern
object_at address [] = none
object_at address ((a, r) ∷ objects) = if a == address then some r else object_at address objects

-- The pattern has a meaning that fits the arrays.
pub record HasMeaning (max_fields max_len : ℕ) (pattern : Text) (r : ParsedPattern) : Type 0 where
  pub meaning : Parses pattern r.fmt_str r.fields r.specs
  pub text_fits : length r.fmt_str ≤ max_len
  pub fields_fit : length r.fields ≤ max_fields

asserted-parsed :
    (o : Outcome) (r : ParsedPattern)
    → instantiated o ≡ some r
    → (o ≡ parsed r) × (r.error ≡ no_error)
asserted-parsed (parsed r') r h = by_error r'.error refl h
  where
    none_ne_some : none ≡ some r → ⊥
    none_ne_some x = cc

    by_error :
        (e : ParsingError)
        → r'.error ≡ e
        → asserted e r' ≡ some r
        → (parsed r' ≡ parsed r) × (r.error ≡ no_error)
    by_error no_error e k =
        let same : r' ≡ r = cc in
        (ap parsed same, sym (ap (λ (x : ParsedPattern). x.error) same) ∙ e)
    by_error unterminated_brace e k = absurd (none_ne_some k)
    by_error empty_field_name e k = absurd (none_ne_some k)
    by_error unknown_field_name e k = absurd (none_ne_some k)
    by_error unknown_format_spec e k = absurd (none_ne_some k)
    by_error invalid_spec_usage e k = absurd (none_ne_some k)
    by_error too_many_fields e k = absurd (none_ne_some k)
    by_error unmatched_closing_brace e k = absurd (none_ne_some k)
asserted-parsed overflow r h = absurd (none_ne_some h)
  where
    none_ne_some : none ≡ some r → ⊥
    none_ne_some x = cc
asserted-parsed out_of_fuel r h = absurd (none_ne_some h)
  where
    none_ne_some : none ≡ some r → ⊥
    none_ne_some x = cc

-- Setting a pattern compiles exactly if the pattern is in the grammar with a meaning that fits the
-- arrays. Behind it, whatever the state of the handler was, the next poll switches to a formatter
-- with that meaning.
pub set_long_pattern_lem :
    (pattern : Text) (max_fields max_len address : ℕ) (s : FormatterObjects)
    → ((r : ParsedPattern) × (after : FormatterObjects) × (effects : List FormatterEffect)
        × HasMeaning max_fields max_len pattern r
        × (set_long_pattern pattern max_fields max_len address s ≡ some (after, effects))
        × (object_at (poll_for_pending_formatter_switch after.handler).0.formatter after.objects
            ≡ some r))
      ⊎ (((r : ParsedPattern) → ¬ HasMeaning max_fields max_len pattern r)
          × (set_long_pattern pattern max_fields max_len address s ≡ none))
unfolding set_long_pattern queue_new_formatter poll_for_pending_formatter_switch
set_long_pattern_lem pattern max_fields max_len address s =
    elim (Option-cases (instantiated (parse_pattern max_fields max_len pattern))) [
      | inl e ↦ inr ((λ r h. absurd (meaningless r h e)), rw e refl)
      | inr (r, e) ↦
          let (whole, ok) = asserted-parsed _ r e in
          let (meaning, room, few) = parse_pattern_sound max_fields max_len pattern whole ok in
          inl (
            r,
            record {
              handler = (queue_new_formatter s.handler (some address)).0;
              objects = (address, r) ∷ s.objects;
            },
            (queue_new_formatter s.handler (some address)).1,
            record { meaning = meaning; text_fits = room; fields_fit = few },
            rw e refl,
            rw ((==_iff address address).1 refl) refl,
          )
    ]
  where
    some_ne_none : {r : ParsedPattern} → some r ≡ none → ⊥
    some_ne_none x = cc

    meaningless :
        (r : ParsedPattern)
        → HasMeaning max_fields max_len pattern r
        → instantiated (parse_pattern max_fields max_len pattern) ≡ none
        → ⊥
    meaningless r h e = some_ne_none (
        sym (
          ap instantiated
            (parse_pattern_complete max_fields max_len h.meaning h.text_fits h.fields_fit))
        ∙ e)
