-- ===== src/Settings.antt =====
-- What a program can set, include/papper/papper.h and the setters of `Backend` in
-- include/papper/detail/core.h.
pub mod Files
pub mod Patterns
mod Tests
use papper.Common.{ℕ, Bool, if◌then◌else◌, Option, none, some, List, [], ◌∷◌, ◌>>=◌}
use papper.Level.{LogLevel, error}
use papper.Text.{Text, codes}
use papper.Pattern.{
  ParsingError, no_error, unterminated_brace, empty_field_name, unknown_field_name,
  unknown_format_spec, invalid_spec_usage, too_many_fields, unmatched_closing_brace,
}
use papper.Pattern.Parse.{ParsedPattern, Outcome, parsed, overflow, out_of_fuel, parse_pattern}
use papper.Formatters.{PatternFormatterHandler, FormatterEffect, queue_new_formatter}
use papper.Sink.{File, SinkHandler, Effect, queue_new_sink}

pub data FlushOn : Type 0 where
  line_end buffer_full : FlushOn

-- The state that the setters change: the sink and the minimum level of the backend, and
-- `defaults::queue_size`.
pub record Settings : Type 0 where
  pub sink : SinkHandler
  pub min_log_level : LogLevel
  pub queue_size : ℕ

unfoldable pub set_level : Settings → LogLevel → Settings
set_level s level = record s { min_log_level = level }

unfoldable pub set_default_queue_size : Settings → ℕ → Settings
set_default_queue_size s size = record s { queue_size = size }

-- `_IOLBF` and `_IOFBF`.
module _ (iolbf iofbf : ℕ) where
  abbrev buffering_mode_of : FlushOn → ℕ
  buffering_mode_of line_end = iolbf
  buffering_mode_of buffer_full = iofbf

  -- `set_sink` with a `FILE*`, none for a null one.
  unfoldable pub set_sink : Settings → Option File → FlushOn → ℕ → Settings × List Effect
  set_sink s file flush_on buffer_size =
      let (sink, effects) = queue_new_sink s.sink file (buffering_mode_of flush_on) buffer_size in
      (record s { sink = sink }, effects)

  -- What follows fopen: its answer, and the number that it leaves in errno.
  abbrev pub set_opened : Settings → Option File → ℕ → FlushOn → ℕ → Settings × List Effect × ℕ
  set_opened s none errno flush_on buffer_size = (s, [], errno)
  set_opened s (some file) errno flush_on buffer_size =
      let (s', effects) = set_sink s (some file) flush_on buffer_size in (s', effects, 0)

  -- `set_sink` with a file name; `fopen` takes the name and the mode.
  unfoldable pub set_sink_file :
      Settings
      → (Text → Text → Option File)
      → Text
      → Bool
      → ℕ
      → FlushOn
      → ℕ
      → Settings × List Effect × ℕ
  set_sink_file s fopen filename truncate errno flush_on buffer_size =
      set_opened s (fopen filename (if truncate then codes "w" else codes "a")) errno flush_on
        buffer_size

-- The formatters that the program made, each with its address, and the handler of the backend.
pub record FormatterObjects : Type 0 where
  pub handler : PatternFormatterHandler
  pub objects : List (ℕ × ParsedPattern)

-- The static asserts of `PatternFormatter`.
abbrev pub asserted : ParsingError → ParsedPattern → Option ParsedPattern
asserted no_error r = some r
asserted unterminated_brace r = none
asserted empty_field_name r = none
asserted unknown_field_name r = none
asserted unknown_format_spec r = none
asserted invalid_spec_usage r = none
asserted too_many_fields r = none
asserted unmatched_closing_brace r = none

-- `PatternFormatter<pattern, max_fields, max_expanded_fmt_str_len>`, `none` if it does not compile: a
-- write past the end of an array is no constant expression.
abbrev pub instantiated : Outcome → Option ParsedPattern
instantiated (parsed r) = asserted r.error r
instantiated overflow = none
instantiated out_of_fuel = none

-- `PAPPER_SET_LONG_PATTERN`, its formatter being allocated at an address; `PAPPER_SET_PATTERN` has the
-- default sizes. `none` does not compile.
unfoldable pub set_long_pattern :
    Text → ℕ → ℕ → ℕ → FormatterObjects → Option (FormatterObjects × List FormatterEffect)
set_long_pattern pattern max_fields max_expanded_fmt_str_len address s =
    instantiated (parse_pattern max_fields max_expanded_fmt_str_len pattern) >>= λ r.
    let (handler, effects) = queue_new_formatter s.handler (some address) in
    some (record { handler = handler; objects = (address, r) ∷ s.objects }, effects)

abbrev set_pattern : Text → ℕ → FormatterObjects → Option (FormatterObjects × List FormatterEffect)
set_pattern pattern address s = set_long_pattern pattern 16 1000 address s
