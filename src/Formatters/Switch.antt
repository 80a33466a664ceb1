-- ===== src/Formatters/Switch.antt =====
-- Which formatter is used behind a poll (include/papper/detail/pattern.h): the one that was queued
-- last.
use papper.Common.{ℕ, ◌≡◌, refl, ap, ◌∙◌, Option, none, some, List, [], ◌∷◌, arith}
use papper.Formatters.{
  PatternFormatterHandler, initial_handler, queue_new_formatter, switch_formatter,
  poll_for_pending_formatter_switch, FormatterOp, queue_formatter, format_event, poll_formatter,
  formatter_step, run_formatters,
}

abbrev pub last_formatter : ℕ → List FormatterOp → ℕ
last_formatter f [] = f
last_formatter f (queue_formatter (some g) ∷ ops) = last_formatter g ops
last_formatter f (op ∷ ops) = last_formatter f ops

-- The formatter that a poll would switch to.
abbrev next_formatter : PatternFormatterHandler → ℕ
next_formatter s = elim s.pending_new_formatter [ none ↦ s.formatter | some f ↦ f ]

next_formatter-switch_formatter :
    (s : PatternFormatterHandler) (p : Option ℕ)
    → s.pending_new_formatter ≡ p
    → (next_formatter (switch_formatter s p).0 ≡ next_formatter s)
      × ((switch_formatter s p).0.formatter ≡ next_formatter s)
next_formatter-switch_formatter s none e = (refl, ground arith)
next_formatter-switch_formatter s (some d) e = (ground arith, ground arith)

next_formatter-run_formatters :
    (s : PatternFormatterHandler) (ops : List FormatterOp)
    → next_formatter (run_formatters s ops).0 ≡ last_formatter (next_formatter s) ops
unfolding run_formatters formatter_step queue_new_formatter poll_for_pending_formatter_switch
next_formatter-run_formatters s [] = refl
next_formatter-run_formatters s (queue_formatter none ∷ ops) = next_formatter-run_formatters s ops
next_formatter-run_formatters s (queue_formatter (some f) ∷ ops) =
    next_formatter-run_formatters (queue_new_formatter s (some f)).0 ops
next_formatter-run_formatters s (format_event ∷ ops) = next_formatter-run_formatters s ops
next_formatter-run_formatters s (poll_formatter ∷ ops) =
    next_formatter-run_formatters (switch_formatter s s.pending_new_formatter).0 ops
    ∙ ap (λ (f : ℕ). last_formatter f ops)
        (next_formatter-switch_formatter s s.pending_new_formatter refl).0

-- After any calls and then a poll, events are formatted with the formatter that was queued last, or
-- with the default one if none was.
pub poll_uses_last_formatter :
    (default_formatter : ℕ) (ops : List FormatterOp)
    → (poll_for_pending_formatter_switch
        (run_formatters (initial_handler default_formatter) ops).0).0.formatter
      ≡ last_formatter default_formatter ops
unfolding poll_for_pending_formatter_switch
poll_uses_last_formatter default_formatter ops =
    let s = (run_formatters (initial_handler default_formatter) ops).0 in
    (next_formatter-switch_formatter s s.pending_new_formatter refl).1
    ∙ next_formatter-run_formatters (initial_handler default_formatter) ops
