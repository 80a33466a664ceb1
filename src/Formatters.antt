-- ===== src/Formatters.antt =====
-- The switch of the pattern at run time, `PatternFormatterHandler` of include/papper/detail/pattern.h.
-- A formatter is known by its address; the constructor's default is one of them. Each operation makes
-- one atomic exchange of the pending formatter at most, and so is one step.
pub mod Ownership
pub mod Switch
mod Tests
use papper.Common.{ℕ, Option, none, some, List, [], ◌∷◌, ◌++◌}

pub record PatternFormatterHandler : Type 0 where
  pub formatter : ℕ
  pub pending_new_formatter : Option ℕ

-- The handler that has the default formatter.
abbrev pub initial_handler : ℕ → PatternFormatterHandler
initial_handler default_formatter = record {
  formatter = default_formatter;
  pending_new_formatter = none;
}

-- What becomes of formatters: `delete`, or a call of the virtual `format`.
pub data FormatterEffect : Type 0 where
  deleted : ℕ → FormatterEffect
  formatted : ℕ → FormatterEffect

-- `delete` of a formatter that was exchanged out.
abbrev pub delete_pending : Option ℕ → List FormatterEffect
delete_pending none = []
delete_pending (some f) = deleted f ∷ []

-- A null formatter is ignored.
unfoldable pub queue_new_formatter :
    PatternFormatterHandler → Option ℕ → PatternFormatterHandler × List FormatterEffect
queue_new_formatter s none = (s, [])
queue_new_formatter s (some f) =
    (record s { pending_new_formatter = some f }, delete_pending s.pending_new_formatter)

abbrev pub switch_formatter :
    PatternFormatterHandler → Option ℕ → PatternFormatterHandler × List FormatterEffect
switch_formatter s none = (s, [])
switch_formatter s (some f) =
    (record { formatter = f; pending_new_formatter = none }, deleted s.formatter ∷ [])

unfoldable pub poll_for_pending_formatter_switch :
    PatternFormatterHandler → PatternFormatterHandler × List FormatterEffect
poll_for_pending_formatter_switch s = switch_formatter s s.pending_new_formatter

-- `PatternFormatterHandler::format`
unfoldable pub format_with : PatternFormatterHandler → List FormatterEffect
format_with s = formatted s.formatter ∷ []

-- `~PatternFormatterHandler`
unfoldable pub destroy_handler : PatternFormatterHandler → List FormatterEffect
destroy_handler s = delete_pending s.pending_new_formatter ++ deleted s.formatter ∷ []

-- What the program's threads do with the handler, in the order of their exchanges.
pub data FormatterOp : Type 0 where
  queue_formatter : Option ℕ → FormatterOp
  format_event : FormatterOp
  poll_formatter : FormatterOp

unfoldable pub formatter_step :
    PatternFormatterHandler → FormatterOp → PatternFormatterHandler × List FormatterEffect
formatter_step s (queue_formatter f) = queue_new_formatter s f
formatter_step s format_event = (s, format_with s)
formatter_step s poll_formatter = poll_for_pending_formatter_switch s

unfoldable pub run_formatters :
    PatternFormatterHandler → List FormatterOp → PatternFormatterHandler × List FormatterEffect
run_formatters s [] = (s, [])
run_formatters s (op ∷ ops) =
    let (s1, e1) = formatter_step s op in let (s2, e2) = run_formatters s1 ops in (s2, e1 ++ e2)
