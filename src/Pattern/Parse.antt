-- ===== src/Pattern/Parse.antt =====
-- `parse_pattern` of include/papper/detail/pattern.h. The index into the pattern is the text that is
-- left; `fmt_str` is the text up to `fmt_str_len`, and `fields` and `specs` are the entries up to
-- `field_count`. A write past the end of `fmt_str` does not compile in a constant expression: that is
-- the outcome `overflow`.
use papper.Common.{
  ℕ, zero, suc, ◌+◌, Bool, false, Option, none, some, List, [], ◌∷◌, ◌++◌, leb, ◌==◌, if◌then◌else◌,
  length, drop, ◌>>=◌,
}
use papper.Text.{Text}
use papper.Pattern.{
  PatternField, PatternFieldFormatSpec, ParsingError, no_error, unterminated_brace,
  empty_field_name, unknown_field_name, unknown_format_spec, invalid_spec_usage, too_many_fields,
  unmatched_closing_brace, name_to_field_enum, name_to_format_spec_enum,
  validate_field_spec_combination, expansion,
}

pub record ParsedPattern : Type 0 where
  pub error : ParsingError
  pub fmt_str : Text
  pub fields : List PatternField
  pub specs : List PatternFieldFormatSpec

abbrev pub empty_pattern : ParsedPattern
empty_pattern = record { error = no_error; fmt_str = []; fields = []; specs = [] }

abbrev pub fail : ParsedPattern → ParsingError → ParsedPattern
fail r e = record r { error = e }

-- What one round of the loop does: return, go on behind some text, or write past the end.
pub data Round : Type 0 where
  stop : ParsedPattern → Round
  go : ParsedPattern → Text → Round
  past_end : Round

pub data Outcome : Type 0 where
  parsed : ParsedPattern → Outcome
  overflow : Outcome
  out_of_fuel : Outcome

-- The search for the matching bracket: the text before it and the text behind it.
unfoldable pub find_close : Text → Option (Text × Text)
find_close [] = none
find_close (c ∷ cs) =
    if c == b'}'
    then some ([], cs)
    else (find_close cs >>= λ (before, after). some (c ∷ before, after))

-- `find_first_of(':')` and the two `substr`; with no separator the spec is empty.
unfoldable pub split_colon : Text → Text × Text
split_colon [] = ([], [])
split_colon (c ∷ cs) =
    if c == b':' then ([], cs) else (let (name, spec) = split_colon cs in (c ∷ name, spec))

-- `Pattern.data[i + 1] == c`, if there is such a character.
abbrev pub next_is : ℕ → Text → Bool
next_is c [] = false
next_is c (d ∷ ds) = d == c

-- The rest of the loop, after a round.
abbrev resume : (ParsedPattern → Text → Outcome) → Round → Outcome
resume loop (stop r) = parsed r
resume loop (go r rest) = loop r rest
resume loop past_end = overflow

module _ (max_fields max_fmt_str_len : ℕ) where
  -- `push_char` of some characters, then the loop goes on behind `rest`.
  abbrev pub push : ParsedPattern → Text → Text → Round
  push r cs rest =
      if leb (length r.fmt_str + length cs) max_fmt_str_len
      then go (record r { fmt_str = r.fmt_str ++ cs }) rest
      else past_end

  abbrev pub add_field : ParsedPattern → PatternField → PatternFieldFormatSpec → Text → Round
  add_field r field spec after =
      if leb max_fields (length r.fields)
      then stop (fail r too_many_fields)
      else push (record r { fields = r.fields ++ field ∷ []; specs = r.specs ++ spec ∷ [] })
          (expansion spec) after

  -- The checks of a field, from the text between the brackets.
  abbrev check_spec : ParsedPattern → PatternField → Option PatternFieldFormatSpec → Text → Round
  check_spec r field none after = stop (fail r unknown_format_spec)
  check_spec r field (some spec) after =
      if validate_field_spec_combination field spec
      then add_field r field spec after
      else stop (fail r invalid_spec_usage)

  abbrev check_field : ParsedPattern → Option PatternField → Text → Text → Round
  check_field r none spec_name after = stop (fail r unknown_field_name)
  check_field r (some field) spec_name after =
      check_spec r field (name_to_format_spec_enum spec_name) after

  abbrev pub named_field : ParsedPattern → Text → Text → Round
  named_field r [] after = stop (fail r empty_field_name)
  named_field r (c ∷ cs) after =
      let (field_name, spec_name) = split_colon (c ∷ cs) in
      check_field r (name_to_field_enum field_name) spec_name after

  abbrev pub brace_field : ParsedPattern → Option (Text × Text) → Round
  brace_field r none = stop (fail r unterminated_brace)
  brace_field r (some (name_and_spec, after)) = named_field r name_and_spec after

  -- One round of the loop at the character `c`, with `cs` behind it.
  unfoldable pub round : ParsedPattern → ℕ → Text → Round
  round r c cs =
      if c == b'{'
      then (if next_is b'{' cs
          then push r (b'{' ∷ b'{' ∷ []) (drop 1 cs)
          else brace_field r (find_close cs))
      else if c == b'}'
      then (if next_is b'}' cs
          then push r (b'}' ∷ b'}' ∷ []) (drop 1 cs)
          else stop (fail r unmatched_closing_brace))
      else push r (c ∷ []) cs

  -- The loop. Each round takes at least a character, so the length of the pattern is enough fuel.
  unfoldable pub parse_loop : ℕ → ParsedPattern → Text → Outcome
  parse_loop fuel r [] = parsed r
  parse_loop zero r (c ∷ cs) = out_of_fuel
  parse_loop (suc fuel) r (c ∷ cs) = resume (parse_loop fuel) (round r c cs)

  unfoldable pub parse_pattern : Text → Outcome
  unfolding parse_loop round find_close split_colon name_to_field_enum name_to_format_spec_enum
      validate_field_spec_combination expansion
  parse_pattern pattern = parse_loop (length pattern) empty_pattern pattern
