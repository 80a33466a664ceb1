-- ===== src/Settings/Tests.antt =====
-- The theorems on the setters of include/papper/papper.h: for a file that cannot be opened, and for a
-- pattern.
use papper.Common.{◌≡◌, ◌⊎◌, false, Option, none, some, List, [], ◌∷◌, if◌then◌else◌}
use papper.Text.{Text, codes, text_eq}
use papper.Level.{info}
use papper.Sink.{
  File, opened, fwrite, fputc, initial_sink, write_str_and_endl, poll_for_pending_sink_switch,
  queue_sink, run_sink,
}
use papper.Pattern.Parse.{ParsedPattern}
use papper.Formatters.{initial_handler, FormatterEffect, poll_for_pending_formatter_switch}
use papper.Settings.{line_end, Settings, set_sink_file, FormatterObjects, set_long_pattern}
use papper.Settings.Files.{set_sink_file_lem}
use papper.Settings.Patterns.{object_at, HasMeaning, set_long_pattern_lem}

abbrev before : Settings
before = record {
  sink = (run_sink initial_sink (queue_sink (some (opened 1)) 0 4096 ∷ [])).0;
  min_log_level = info;
  queue_size = 64;
}

-- Only a file that is opened at its end can be opened.
abbrev fopen : Text → Text → Option File
fopen filename mode = if text_eq mode (codes "a") then some (opened 2) else none

set_sink_file_lem_example :
    let (s', effects, code) = set_sink_file 1 0 before fopen (codes "log") false 13 line_end 4096 in
    (write_str_and_endl (poll_for_pending_sink_switch s'.sink).0 (104 ∷ [])
      ≡ fwrite (opened 2) (104 ∷ []) ∷ fputc (opened 2) 10 ∷ [])
    × (code ≡ 0)
    × (s'.min_log_level ≡ info)
    × (s'.queue_size ≡ 64)
unfolding text_eq
set_sink_file_lem_example =
    set_sink_file_lem 1 0 (queue_sink (some (opened 1)) 0 4096 ∷ []) info 64 fopen (codes "log")
      false 13 line_end 4096 (104 ∷ [])

abbrev pattern : Text
pattern = codes "{level} {message}"

abbrev objects : FormatterObjects
objects = record { handler = initial_handler 5; objects = [] }

set_long_pattern_lem_example :
    ((r : ParsedPattern) × (after : FormatterObjects) × (effects : List FormatterEffect)
      × HasMeaning 16 1000 pattern r
      × (set_long_pattern pattern 16 1000 6 objects ≡ some (after, effects))
      × (object_at (poll_for_pending_formatter_switch after.handler).0.formatter after.objects
          ≡ some r))
    ⊎ (((r : ParsedPattern) → ¬ HasMeaning 16 1000 pattern r)
        × (set_long_pattern pattern 16 1000 6 objects ≡ none))
set_long_pattern_lem_example = set_long_pattern_lem pattern 16 1000 6 objects
