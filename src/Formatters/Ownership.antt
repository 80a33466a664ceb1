-- ===== src/Formatters/Ownership.antt =====
-- Every formatter that is handed to the handler (include/papper/detail/pattern.h) is deleted as often
-- as it was handed over, and none is used after that.
use papper.Common.{
  ℕ, ◌+◌, ◌≤◌, ◌≡◌, refl, ap, inl, inr, Option, none, some, List, [], ◌∷◌, ◌++◌, arith, ltb, ◌==◌,
  if◌then◌else◌, Option-cases,
}
use papper.Formatters.{
  PatternFormatterHandler, initial_handler, FormatterEffect, deleted, formatted, delete_pending,
  queue_new_formatter, switch_formatter, poll_for_pending_formatter_switch, format_with,
  destroy_handler, FormatterOp, queue_formatter, format_event, poll_formatter, formatter_step,
  run_formatters,
}

abbrev is_at : ℕ → ℕ → ℕ
is_at n f = if f == n then 1 else 0

abbrev deletion_of : ℕ → FormatterEffect → ℕ
deletion_of n (deleted f) = is_at n f
deletion_of n (formatted f) = 0

-- How often the formatter `n` is deleted.
abbrev pub deletions : ℕ → List FormatterEffect → ℕ
deletions n [] = 0
deletions n (e ∷ es) = deletion_of n e + deletions n es

abbrev given : ℕ → FormatterOp → ℕ
given n (queue_formatter (some f)) = is_at n f
given n _ = 0

-- How often the formatter `n` is handed over.
abbrev handed_over : ℕ → List FormatterOp → ℕ
handed_over n [] = 0
handed_over n (op ∷ ops) = given n op + handed_over n ops

abbrev pending_at : ℕ → Option ℕ → ℕ
pending_at n none = 0
pending_at n (some f) = is_at n f

-- How often the handler has the formatter `n`.
abbrev owned : ℕ → PatternFormatterHandler → ℕ
owned n s = is_at n s.formatter + pending_at n s.pending_new_formatter

-- The uses of the formatter `n` that come after a deletion of it, if it has been deleted `k` times.
abbrev pub uses_after_delete : ℕ → ℕ → List FormatterEffect → ℕ
uses_after_delete n k [] = 0
uses_after_delete n k (deleted f ∷ es) = uses_after_delete n (k + is_at n f) es
uses_after_delete n k (formatted f ∷ es) =
    (if ltb 0 k then is_at n f else 0) + uses_after_delete n k es

deletions-append :
    (n : ℕ) (es fs : List FormatterEffect)
    → deletions n (es ++ fs) ≡ deletions n es + deletions n fs
deletions-append n [] fs = omega arith
deletions-append n (e ∷ es) fs = omega (arith, deletions-append n es fs)

uses-append :
    (n k : ℕ) (es fs : List FormatterEffect)
    → uses_after_delete n k (es ++ fs)
      ≡ uses_after_delete n k es + uses_after_delete n (k + deletions n es) fs
uses-append n k [] fs = omega (arith, same)
  where
    same : uses_after_delete n (k + 0) fs ≡ uses_after_delete n k fs
    same = ap (λ (j : ℕ). uses_after_delete n j fs) (omega arith)
uses-append n k (deleted f ∷ es) fs = omega (arith, uses-append n (k + is_at n f) es fs, same)
  where
    same :
        uses_after_delete n (k + is_at n f + deletions n es) fs
        ≡ uses_after_delete n (k + (is_at n f + deletions n es)) fs
    same = ap (λ (j : ℕ). uses_after_delete n j fs) (omega arith)
uses-append n k (formatted f ∷ es) fs = omega (arith, uses-append n k es fs, same)
  where
    same :
        uses_after_delete n (k + (0 + deletions n es)) fs
        ≡ uses_after_delete n (k + deletions n es) fs
    same = ap (λ (j : ℕ). uses_after_delete n j fs) (omega arith)

deletions-delete_pending : (n : ℕ) (p : Option ℕ) → deletions n (delete_pending p) ≡ pending_at n p
deletions-delete_pending n none = refl
deletions-delete_pending n (some f) = omega arith

deletions-switch_formatter :
    (n : ℕ) (s : PatternFormatterHandler) (p : Option ℕ)
    → s.pending_new_formatter ≡ p
    → deletions n (switch_formatter s p).1 + owned n (switch_formatter s p).0
      ≡ is_at n s.formatter + pending_at n p
deletions-switch_formatter n s none e = omega (arith, ap (pending_at n) e)
deletions-switch_formatter n s (some f) e = omega arith

deletions-formatter_step :
    (n : ℕ) (s : PatternFormatterHandler) (op : FormatterOp)
    → deletions n (formatter_step s op).1 + owned n (formatter_step s op).0 ≡ owned n s + given n op
unfolding formatter_step queue_new_formatter format_with poll_for_pending_formatter_switch
deletions-formatter_step n s (queue_formatter none) = omega arith
deletions-formatter_step n s (queue_formatter (some f)) =
    omega (arith, deletions-delete_pending n s.pending_new_formatter)
deletions-formatter_step n s format_event = omega arith
deletions-formatter_step n s poll_formatter =
    omega (arith, deletions-switch_formatter n s s.pending_new_formatter refl)

deletions-run_formatters :
    (n : ℕ) (s : PatternFormatterHandler) (ops : List FormatterOp)
    → deletions n (run_formatters s ops).1 + owned n (run_formatters s ops).0
      ≡ owned n s + handed_over n ops
unfolding run_formatters
deletions-run_formatters n s [] = omega arith
deletions-run_formatters n s (op ∷ ops) =
    let (s1, e1) = formatter_step s op in
    omega (
      arith,
      deletions-append n e1 (run_formatters s1 ops).1,
      deletions-formatter_step n s op,
      deletions-run_formatters n s1 ops,
    )

-- Over the life of a handler, from the default formatter to its destructor, with any calls in between,
-- each formatter is deleted exactly as often as it was handed over, the default counting as handed
-- over once.
pub deleted_once :
    (n default_formatter : ℕ) (ops : List FormatterOp)
    → let (s, effects) = run_formatters (initial_handler default_formatter) ops in
      deletions n (effects ++ destroy_handler s) ≡ is_at n default_formatter + handed_over n ops
unfolding destroy_handler
deleted_once n default_formatter ops =
    let (s, effects) = run_formatters (initial_handler default_formatter) ops in
    omega (
      arith,
      deletions-append n effects
          (delete_pending s.pending_new_formatter ++ deleted s.formatter ∷ []),
      deletions-append n (delete_pending s.pending_new_formatter) (deleted s.formatter ∷ []),
      deletions-delete_pending n s.pending_new_formatter,
      deletions-run_formatters n (initial_handler default_formatter) ops,
    )

step-not_used :
    (n k : ℕ) (s : PatternFormatterHandler) (op : FormatterOp)
    → k + owned n s ≤ 1
    → uses_after_delete n k (formatter_step s op).1 ≡ 0
unfolding formatter_step queue_new_formatter format_with poll_for_pending_formatter_switch
step-not_used n k s (queue_formatter none) once = refl
step-not_used n k s (queue_formatter (some f)) once = elim (Option-cases s.pending_new_formatter) [
  | inl e ↦ rw e
  | inr (g, e) ↦ rw e
]
step-not_used n k s format_event once = ground arith
step-not_used n k s poll_formatter once = elim (Option-cases s.pending_new_formatter) [
  | inl e ↦ rw e
  | inr (g, e) ↦ rw e
]

run-not_used :
    (n k : ℕ) (s : PatternFormatterHandler) (ops : List FormatterOp)
    → k + owned n s + handed_over n ops ≤ 1
    → uses_after_delete n k (run_formatters s ops).1 ≡ 0
unfolding run_formatters
run-not_used n k s [] once = refl
run-not_used n k s (op ∷ ops) once =
    let (s1, e1) = formatter_step s op in
    omega (
      arith,
      uses-append n k e1 (run_formatters s1 ops).1,
      step-not_used n k s op (omega arith),
      run-not_used n (k + deletions n e1) s1 ops (omega (arith, deletions-formatter_step n s op)),
    )

-- With any calls, a formatter that is handed over at most once, the default counting as handed over
-- once, is never used after its deletion.
pub not_used_after_delete :
    (n default_formatter : ℕ) (ops : List FormatterOp)
    → is_at n default_formatter + handed_over n ops ≤ 1
    → uses_after_delete n 0 (run_formatters (initial_handler default_formatter) ops).1 ≡ 0
not_used_after_delete n default_formatter ops once =
    run-not_used n 0 (initial_handler default_formatter) ops (omega arith)
