-- ===== src/Pattern/Format.antt =====
-- From a pattern and the data of an event to the arguments of fmt::vformat,
-- include/papper/detail/pattern.h. fmt itself is a parameter.
use papper.Common.{
  ℕ, suc, ◌/◌, ◌%◌, Bool, ◌||◌, Option, none, some, List, [], ◌∷◌, ◌++◌, ◌==◌, if◌then◌else◌, drop,
  u64, sub64,
}
use papper.Common.Int.{ℤ, pos, negsuc, eq_ℤ, sub_ℕ}
use papper.Text.{Text}
use papper.Level.{level_to_name}
use papper.Pattern.Parse.{ParsedPattern}
use papper.Pattern.{
  PatternData, PatternField, level_field, thread_field, time_field, file_field, function_field,
  line_field, message_field, PatternFieldFormatSpec, no_spec, time_hms, time_hms_micros,
  time_hms_nanos, file_name_only,
}

-- What is handed to fmt.
pub data FormatArg : Type 0 where
  text_arg : Text → FormatArg
  number_arg : ℕ → FormatArg
  time_arg : ℤ → FormatArg

unfoldable pub get_field : PatternField → PatternData → FormatArg
unfolding level_to_name
get_field level_field d = text_arg (level_to_name d.level)
get_field time_field d = time_arg d.timestamp
get_field file_field d = text_arg d.filename
get_field function_field d = text_arg d.functionname
get_field line_field d = number_arg d.linenumber
get_field message_field d = text_arg d.message
get_field thread_field d = text_arg d.thread_name

-- `std::chrono::floor<seconds>`, rounding down also before the epoch.
abbrev pub floor_seconds : ℤ → ℤ
floor_seconds (pos n) = pos (n / 1_000_000_000)
floor_seconds (negsuc n) = negsuc (n / 1_000_000_000)

-- `(uint64_t)` of a signed integer.
abbrev pub to_u64 : ℤ → ℕ
to_u64 (pos n) = u64 n
to_u64 (negsuc n) = sub64 0 (u64 (suc n))

-- `time_since_epoch() % seconds(1)`: the sign is that of the left side.
abbrev pub ns_of_second : ℤ → ℤ
ns_of_second (pos n) = pos (n % 1_000_000_000)
ns_of_second (negsuc n) = sub_ℕ 0 (suc n % 1_000_000_000)

-- `floor<microseconds>` of some nanoseconds.
abbrev pub floor_micros : ℤ → ℤ
floor_micros (pos n) = pos (n / 1000)
floor_micros (negsuc n) = negsuc (n / 1000)

-- The static variables of an instance of `process_time_arg`, and those of its three instances.
pub record TimeCache : Type 0 where
  pub hms_part : Text
  pub last_update : ℤ

pub record Caches : Type 0 where
  pub seconds : TimeCache
  pub micros : TimeCache
  pub nanos : TimeCache

abbrev initial_cache : TimeCache
initial_cache = record { hms_part = []; last_update = negsuc 0 }

abbrev pub initial_caches : Caches
initial_caches = record { seconds = initial_cache; micros = initial_cache; nanos = initial_cache }

-- `find_last_of("/\\")`; `none` for npos.
abbrev pub is_separator : ℕ → Bool
is_separator c = (c == 0x2f) || (c == 0x5c)

unfoldable pub find_last_separator : Text → Option ℕ
find_last_separator [] = none
find_last_separator (c ∷ cs) = elim (find_last_separator cs) [
  | some i ↦ some (suc i)
  | none ↦ if is_separator c then some 0 else none
]

-- `path_sv.substr(position + 1)`, where npos + 1 is 0.
unfoldable pub file_name_of : Text → Text
unfolding find_last_separator
file_name_of path = elim (find_last_separator path) [ none ↦ path | some i ↦ drop (suc i) path ]

-- `hms` is what fmt makes of a whole second with "{:%H:%M:%S}", `vformat` is fmt::vformat.
module _ (hms : ℤ → Text) (vformat : Text → List FormatArg → Text) where
  -- The update of the static variables.
  unfoldable pub update_cache : TimeCache → ℤ → TimeCache
  update_cache cache arg =
      if eq_ℤ (floor_seconds arg) cache.last_update
      then cache
      else record { hms_part = hms (floor_seconds arg); last_update = floor_seconds arg }

  -- `process_time_arg`: the tuple, with the static variables before and after.
  unfoldable pub process_time_arg : PatternFieldFormatSpec → Caches → ℤ → Caches × List FormatArg
  unfolding update_cache
  process_time_arg time_hms caches arg =
      let cache = update_cache caches.seconds arg in
      (record caches { seconds = cache }, text_arg cache.hms_part ∷ [])
  process_time_arg time_hms_micros caches arg =
      let cache = update_cache caches.micros arg in
      (
        record caches { micros = cache },
        text_arg cache.hms_part ∷ number_arg (to_u64 (floor_micros (ns_of_second arg))) ∷ [],
      )
  process_time_arg time_hms_nanos caches arg =
      let cache = update_cache caches.nanos arg in
      (
        record caches { nanos = cache },
        text_arg cache.hms_part ∷ number_arg (to_u64 (ns_of_second arg)) ∷ [],
      )
  process_time_arg spec caches arg = (caches, [])

  -- `expand_and_process_format_arg`. The combinations of an argument and a format that the parser
  -- refuses do not compile, and have no argument here.
  unfoldable pub expand_and_process_format_arg :
      PatternFieldFormatSpec → Caches → FormatArg → Caches × List FormatArg
  unfolding process_time_arg file_name_of
  expand_and_process_format_arg no_spec caches arg = (caches, arg ∷ [])
  expand_and_process_format_arg file_name_only caches (text_arg path) =
      (caches, text_arg (file_name_of path) ∷ [])
  expand_and_process_format_arg time_hms caches (time_arg t) = process_time_arg time_hms caches t
  expand_and_process_format_arg time_hms_micros caches (time_arg t) =
      process_time_arg time_hms_micros caches t
  expand_and_process_format_arg time_hms_nanos caches (time_arg t) =
      process_time_arg time_hms_nanos caches t
  expand_and_process_format_arg spec caches arg = (caches, [])

  -- The `tuple_cat` over the fields of a parsed pattern.
  unfoldable pub format_args :
      List PatternField
      → List PatternFieldFormatSpec
      → Caches
      → PatternData
      → Caches × List FormatArg
  unfolding expand_and_process_format_arg get_field
  format_args [] specs caches d = (caches, [])
  format_args (field ∷ fields) [] caches d = (caches, [])
  format_args (field ∷ fields) (spec ∷ specs) caches d =
      let (caches1, args) = expand_and_process_format_arg spec caches (get_field field d) in
      let (caches2, more) = format_args fields specs caches1 d in (caches2, args ++ more)

  -- `PatternFormatter::format`
  unfoldable pub format : ParsedPattern → Caches → PatternData → Caches × Text
  unfolding format_args
  format p caches d =
      let (caches', args) = format_args p.fields p.specs caches d in
      (caches', vformat p.fmt_str args)
