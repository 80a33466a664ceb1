-- ===== src/Pattern.antt =====
-- The parts of a pattern and what fills them, include/papper/detail/pattern.h.
pub mod Parse
pub mod Names
pub mod Grammar
pub mod Sound
pub mod Meaning
pub mod FileName
pub mod TimeCache
pub mod Lines
pub mod Format
pub mod Complete
pub mod Slots
pub mod Suits
mod Tests
use papper.Common.{ℕ, Bool, true, false, Option, none, some, List, [], ◌∷◌, if◌then◌else◌}
use papper.Common.Int.{ℤ}
use papper.Text.{Text, codes, text_eq}
use papper.Level.{LogLevel}

-- `PatternData`; a time is a number of nanoseconds since the epoch.
pub record PatternData : Type 0 where
  pub level : LogLevel
  pub thread_name : Text
  pub timestamp : ℤ
  pub filename : Text
  pub functionname : Text
  pub linenumber : ℕ
  pub message : Text

pub data PatternField : Type 0 where
  level_field thread_field time_field file_field function_field line_field message_field :
      PatternField

pub data PatternFieldFormatSpec : Type 0 where
  no_spec : PatternFieldFormatSpec
  time_hms : PatternFieldFormatSpec  -- 16:08:09
  time_hms_micros : PatternFieldFormatSpec  -- 16:08:09.796341
  time_hms_nanos : PatternFieldFormatSpec  -- 16:08:09.796341126
  file_name_only : PatternFieldFormatSpec  -- file.txt instead of /home/user/file.txt

pub data ParsingError : Type 0 where
  no_error : ParsingError
  unterminated_brace : ParsingError
  empty_field_name : ParsingError
  unknown_field_name : ParsingError
  unknown_format_spec : ParsingError
  invalid_spec_usage : ParsingError
  too_many_fields : ParsingError
  unmatched_closing_brace : ParsingError

-- The loop over a table of names: the first entry whose name fits.
unfoldable pub find_name {ℓ} : {A : Type ℓ} → List (Text × A) → Text → Option A
unfolding text_eq
find_name [] name = none
find_name ((n, a) ∷ table) name = if text_eq n name then some a else find_name table name

abbrev pub field_table : List (Text × PatternField)
field_table =
    (codes "time", time_field)
    ∷ (codes "file", file_field)
    ∷ (codes "function", function_field)
    ∷ (codes "line", line_field)
    ∷ (codes "level", level_field)
    ∷ (codes "message", message_field)
    ∷ (codes "m", message_field)
    ∷ (codes "thread", thread_field)
    ∷ []

unfoldable pub name_to_field_enum : Text → Option PatternField
unfolding find_name
name_to_field_enum name = find_name field_table name

abbrev pub spec_table : List (Text × PatternFieldFormatSpec)
spec_table =
    ([], no_spec)
    ∷ (codes "HMS", time_hms)
    ∷ (codes "HMSf", time_hms_micros)
    ∷ (codes "HMSF", time_hms_nanos)
    ∷ (codes "path", no_spec)
    ∷ (codes "nameonly", file_name_only)
    ∷ []

unfoldable pub name_to_format_spec_enum : Text → Option PatternFieldFormatSpec
unfolding find_name
name_to_format_spec_enum name = find_name spec_table name

abbrev is_no_spec : PatternFieldFormatSpec → Bool
is_no_spec no_spec = true
is_no_spec _ = false

unfoldable pub validate_field_spec_combination : PatternField → PatternFieldFormatSpec → Bool
validate_field_spec_combination time_field time_hms = true
validate_field_spec_combination time_field time_hms_micros = true
validate_field_spec_combination time_field time_hms_nanos = true
validate_field_spec_combination file_field file_name_only = true
validate_field_spec_combination field spec = is_no_spec spec

-- What `expand_spec_into_result` pushes.
unfoldable pub expansion : PatternFieldFormatSpec → Text
expansion no_spec = codes "{}"
expansion time_hms = codes "{}"
expansion time_hms_micros = codes "{}.{:06}"
expansion time_hms_nanos = codes "{}.{:09}"
expansion file_name_only = codes "{}"
