-- ===== src/Sink/Switch.antt =====
-- Which file the lines go to (include/papper/detail/sink.h): at a poll, the one that was queued last.
use papper.Common.{◌≡◌, refl, ap, ◌∙◌, Option, none, some, List, [], ◌∷◌, arith}
use papper.Text.{Text}
use papper.Sink.{
  File, std_out, SinkDescriptor, SinkHandler, fwrite, fputc, initial_sink, queue_new_sink,
  write_str_and_endl, switch_to, poll_for_pending_sink_switch, SinkOp, queue_sink, write_line,
  poll_sink, sink_step, run_sink,
}

-- The file that was queued last, if any was.
abbrev pub last_queued : File → List SinkOp → File
last_queued f [] = f
last_queued f (queue_sink (some g) mode size ∷ ops) = last_queued g ops
last_queued f (op ∷ ops) = last_queued f ops

-- The file that a poll would switch to.
abbrev next_file : SinkHandler → File
next_file s = elim s.pending_new_sink [ none ↦ s.file | some d ↦ d.file ]

next_file-switch_to :
    (s : SinkHandler) (p : Option SinkDescriptor)
    → s.pending_new_sink ≡ p
    → (next_file (switch_to s p).0 ≡ next_file s) × ((switch_to s p).0.file ≡ next_file s)
next_file-switch_to s none e = (refl, ground arith)
next_file-switch_to s (some d) e = (ground arith, ground arith)

next_file-run_sink :
    (s : SinkHandler) (ops : List SinkOp)
    → next_file (run_sink s ops).0 ≡ last_queued (next_file s) ops
unfolding run_sink sink_step queue_new_sink poll_for_pending_sink_switch
next_file-run_sink s [] = refl
next_file-run_sink s (queue_sink none mode size ∷ ops) = next_file-run_sink s ops
next_file-run_sink s (queue_sink (some f) mode size ∷ ops) =
    next_file-run_sink (queue_new_sink s (some f) mode size).0 ops
next_file-run_sink s (write_line str ∷ ops) = next_file-run_sink s ops
next_file-run_sink s (poll_sink ∷ ops) =
    next_file-run_sink (switch_to s s.pending_new_sink).0 ops
    ∙ ap (λ (f : File). last_queued f ops) (next_file-switch_to s s.pending_new_sink refl).0

pub poll-file :
    (ops : List SinkOp)
    → (poll_for_pending_sink_switch (run_sink initial_sink ops).0).0.file ≡ last_queued std_out ops
unfolding poll_for_pending_sink_switch
poll-file ops =
    let s = (run_sink initial_sink ops).0 in
    (next_file-switch_to s s.pending_new_sink refl).1 ∙ next_file-run_sink initial_sink ops

-- After any calls and then a poll, lines are written to the file that was queued last, or to the
-- standard output if none was.
pub poll_uses_last_queued :
    (ops : List SinkOp) (line : Text)
    → write_str_and_endl (poll_for_pending_sink_switch (run_sink initial_sink ops).0).0 line
      ≡ (let f = last_queued std_out ops in fwrite f line ∷ fputc f 10 ∷ [])
unfolding write_str_and_endl
poll_uses_last_queued ops line = ap (λ (f : File). fwrite f line ∷ fputc f 10 ∷ []) (poll-file ops)
