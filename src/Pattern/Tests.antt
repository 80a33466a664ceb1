-- ===== src/Pattern/Tests.antt =====
-- Runs of include/papper/detail/pattern.h, and its theorems at concrete inputs.
use papper.Common.{
  ℕ, ◌≤◌, ◌≡◌, refl, ◌≢◌, true, Option, none, some, List, [], ◌∷◌, arith, map, length,
}
use papper.Common.Int.{ℤ, pos, negsuc}
use papper.Text.{Text, codes}
use papper.Level.{info}
use papper.Pattern.{
  PatternData, level_field, time_field, file_field, line_field, message_field, no_spec,
  time_hms_micros, file_name_only, ParsingError, no_error, unterminated_brace, empty_field_name,
  unknown_field_name, unknown_format_spec, invalid_spec_usage, too_many_fields,
  unmatched_closing_brace,
}
use papper.Pattern.Parse.{ParsedPattern, Outcome, parsed, overflow, out_of_fuel, parse_pattern}
use papper.Pattern.Names.{names_m, names_nothing, plain}
use papper.Pattern.Grammar.{bare, Parses, done, literal, placeholder}
use papper.Pattern.Meaning.{parse_pattern-ends, parse_pattern_sound}
use papper.Pattern.Complete.{parse_pattern_complete}
use papper.Pattern.Format.{FormatArg, floor_seconds, initial_caches, format_args}
use papper.Pattern.Suits.{contents, all_suit, format_args-suit}
use papper.Pattern.Lines.{line_args, format_run-line, format_run-last_second}
use papper.Pattern.TimeCache.{format_run}

parse_default :
    parse_pattern 16 1000 (codes "[{time:HMSf}] ({level}) ({file:nameonly}:{line}) {message}")
    ≡ parsed (record {
      error = no_error;
      fmt_str = codes "[{}.{:06}] ({}) ({}:{}) {}";
      fields = time_field ∷ level_field ∷ file_field ∷ line_field ∷ message_field ∷ [];
      specs = time_hms_micros ∷ no_spec ∷ file_name_only ∷ no_spec ∷ no_spec ∷ [];
    })
unfolding parse_pattern
parse_default = refl

parse_escapes :
    parse_pattern 4 1000 (codes "{{{level}}}")
    ≡ parsed (record {
      error = no_error;
      fmt_str = codes "{{{}}}";
      fields = level_field ∷ [];
      specs = no_spec ∷ [];
    })
unfolding parse_pattern
parse_escapes = refl

error_of : Outcome → Option ParsingError
error_of (parsed r) = some r.error
error_of overflow = none
error_of out_of_fuel = none

parse_errors :
    (error_of (parse_pattern 4 1000 (codes "{level")) ≡ some unterminated_brace)
    × (error_of (parse_pattern 4 1000 (codes "{}")) ≡ some empty_field_name)
    × (error_of (parse_pattern 4 1000 (codes "{nope}")) ≡ some unknown_field_name)
    × (error_of (parse_pattern 4 1000 (codes "{time:nope}")) ≡ some unknown_format_spec)
    × (error_of (parse_pattern 4 1000 (codes "{level:HMS}")) ≡ some invalid_spec_usage)
    × (error_of (parse_pattern 4 1000 (codes "{line:nameonly}")) ≡ some invalid_spec_usage)
    × (error_of (parse_pattern 4 1000 (codes "{m}{m}{m}{m}{m}")) ≡ some too_many_fields)
    × (error_of (parse_pattern 4 1000 (codes "level}")) ≡ some unmatched_closing_brace)
unfolding parse_pattern error_of
parse_errors = (refl, refl, refl, refl, refl, refl, refl, refl)

-- Stand-ins for what fmt does.
abbrev shown_second : ℤ → Text
shown_second (pos n) = n ∷ []
shown_second (negsuc n) = 45 ∷ n ∷ []

abbrev shown_args : Text → List FormatArg → Text
shown_args f args = length args ∷ f

abbrev time_and_message : ParsedPattern
time_and_message = record {
  error = no_error;
  fmt_str = codes "{}.{:06} {}";
  fields = time_field ∷ message_field ∷ [];
  specs = time_hms_micros ∷ no_spec ∷ [];
}

abbrev event_at : ℤ → PatternData
event_at t = record {
  level = info;
  thread_name = codes "t";
  timestamp = t;
  filename = codes "a.cpp";
  functionname = codes "f";
  linenumber = 3;
  message = codes "m";
}

parse_pattern-ends_example : parse_pattern 4 100 (codes "{level") ≢ out_of_fuel
parse_pattern-ends_example = parse_pattern-ends 4 100 (codes "{level")

parse_pattern_sound_example :
    Parses
      (codes "{time:HMSf} {message}")
      (codes "{}.{:06} {}")
      (time_field ∷ message_field ∷ [])
      (time_hms_micros ∷ no_spec ∷ [])
    × (11 ≤ 100)
    × (2 ≤ 4)
unfolding parse_pattern
parse_pattern_sound_example =
    parse_pattern_sound 4 100 (codes "{time:HMSf} {message}") {r = time_and_message} refl refl

level_Parses : Parses (codes "a{m}") (codes "a{}") (message_field ∷ []) (no_spec ∷ [])
level_Parses = literal (omega arith) (omega arith) (
    placeholder refl (omega arith) refl (omega arith, tt)
      (bare (codes "m") (omega arith, tt) names_m names_nothing plain) done)

parse_pattern_complete_example :
    parse_pattern 4 100 (codes "a{m}")
    ≡ parsed (record {
      error = no_error;
      fmt_str = codes "a{}";
      fields = message_field ∷ [];
      specs = no_spec ∷ [];
    })
parse_pattern_complete_example =
    parse_pattern_complete 4 100 level_Parses (omega arith) (omega arith)

format_args-suit_example :
    (ts : List Text) × (contents (codes "{}.{:06} {}") ≡ some ts)
    × (all_suit ts
          (format_args shown_second shown_args
            (time_field ∷ message_field ∷ [])
            (time_hms_micros ∷ no_spec ∷ [])
            initial_caches
            (event_at (pos 5))).1
        ≡ true)
unfolding parse_pattern
format_args-suit_example =
    format_args-suit shown_second shown_args 4 100 (codes "{time:HMSf} {message}")
      {r = time_and_message} initial_caches (event_at (pos 5)) refl refl

not_before : (n : ℕ) → ¬ (pos n ≡ negsuc 0)
not_before n h = cc

format_run-last_second_example :
    format_run shown_second shown_args time_and_message initial_caches
      (event_at (negsuc 0) ∷ event_at (negsuc 7) ∷ [])
    ≡ map
        (λ d.
          shown_args time_and_message.fmt_str
            (line_args (λ t. []) time_and_message.fields time_and_message.specs d))
        (event_at (negsuc 0) ∷ event_at (negsuc 7) ∷ [])
format_run-last_second_example =
    format_run-last_second shown_second shown_args time_and_message
      (event_at (negsuc 0) ∷ event_at (negsuc 7) ∷ []) (refl, (refl, tt))

format_run-line_example :
    format_run shown_second shown_args time_and_message initial_caches
      (event_at (pos 5) ∷ event_at (pos 6) ∷ [])
    ≡ map
        (λ d. shown_args time_and_message.fmt_str (
          line_args
            (λ t. shown_second (floor_seconds t))
            time_and_message.fields
            time_and_message.specs
            d))
        (event_at (pos 5) ∷ event_at (pos 6) ∷ [])
format_run-line_example =
    format_run-line shown_second shown_args time_and_message
      (event_at (pos 5) ∷ event_at (pos 6) ∷ []) (not_before 0, (not_before 0, tt))
