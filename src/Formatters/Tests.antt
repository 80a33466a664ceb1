-- ===== src/Formatters/Tests.antt =====
-- The theorems on `PatternFormatterHandler` (include/papper/detail/pattern.h) at a run.
use papper.Common.{◌≡◌, none, some, List, [], ◌∷◌, ◌++◌, arith}
use papper.Formatters.{
  initial_handler, destroy_handler, FormatterOp, queue_formatter, format_event, poll_formatter,
  run_formatters,
}
use papper.Formatters.Ownership.{deletions, uses_after_delete, deleted_once, not_used_after_delete}

-- Two formatters are queued, a null one is not, and events are formatted before and behind a poll.
abbrev ops : List FormatterOp
ops =
    format_event
    ∷ queue_formatter (some 2)
    ∷ queue_formatter none
    ∷ poll_formatter
    ∷ format_event
    ∷ queue_formatter (some 3)
    ∷ []

deleted_once_example :
    let (s, effects) = run_formatters (initial_handler 1) ops in
    deletions 2 (effects ++ destroy_handler s) ≡ 1
deleted_once_example = deleted_once 2 1 ops

not_used_after_delete_example : uses_after_delete 1 0 (run_formatters (initial_handler 1) ops).1 ≡ 0
not_used_after_delete_example = not_used_after_delete 1 1 ops (omega arith)
