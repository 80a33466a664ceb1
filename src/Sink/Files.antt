-- ===== src/Sink/Files.antt =====
-- Every file that is handed to the sink (include/papper/detail/sink.h) is closed as often as it was
-- handed over, and none that is in use is closed.
use papper.Common.{
  ℕ, ◌+◌, ◌≤◌, ◌≡◌, refl, ap, Option, none, some, List, [], ◌∷◌, ◌++◌, arith, ◌==◌, if◌then◌else◌,
  ==_iff,
}
use papper.Sink.{
  File, std_out, std_err, opened, SinkDescriptor, SinkHandler, Effect, fclose, setvbuf,
  initial_sink, close_file, drop_pending, queue_new_sink, write_str_and_endl, switch_to,
  poll_for_pending_sink_switch, destroy, SinkOp, queue_sink, write_line, poll_sink, sink_step,
  run_sink,
}

-- Whether a file is the opened file `n`.
abbrev is_file : ℕ → File → ℕ
is_file n std_out = 0
is_file n std_err = 0
is_file n (opened m) = if m == n then 1 else 0

abbrev close_of : ℕ → Effect → ℕ
close_of n (fclose f) = is_file n f
close_of n _ = 0

-- How often the file `n` is closed.
abbrev pub closes : ℕ → List Effect → ℕ
closes n [] = 0
closes n (e ∷ es) = close_of n e + closes n es

abbrev op_queues : ℕ → SinkOp → ℕ
op_queues n (queue_sink (some f) mode size) = is_file n f
op_queues n _ = 0

-- How often the file `n` is handed to the sink.
abbrev queued : ℕ → List SinkOp → ℕ
queued n [] = 0
queued n (op ∷ ops) = op_queues n op + queued n ops

abbrev pending_is : ℕ → Option SinkDescriptor → ℕ
pending_is n none = 0
pending_is n (some d) = is_file n d.file

-- How often the sink holds the file `n`.
abbrev pub held : ℕ → SinkHandler → ℕ
held n s = is_file n s.file + pending_is n s.pending_new_sink

closes-append : (n : ℕ) (es fs : List Effect) → closes n (es ++ fs) ≡ closes n es + closes n fs
closes-append n [] fs = omega arith
closes-append n (e ∷ es) fs = omega (arith, closes-append n es fs)

closes-close_file : (n : ℕ) (f : File) → closes n (close_file f) ≡ is_file n f
unfolding close_file
closes-close_file n std_out = refl
closes-close_file n std_err = refl
closes-close_file n (opened m) = omega arith

closes-drop_pending :
    (n : ℕ) (p : Option SinkDescriptor) → closes n (drop_pending p) ≡ pending_is n p
closes-drop_pending n none = refl
closes-drop_pending n (some d) = closes-close_file n d.file

closes-switch_to :
    (n : ℕ) (s : SinkHandler) (p : Option SinkDescriptor)
    → s.pending_new_sink ≡ p
    → closes n (switch_to s p).1 + held n (switch_to s p).0 ≡ is_file n s.file + pending_is n p
closes-switch_to n s none e = omega (arith, ap (pending_is n) e)
closes-switch_to n s (some d) e = omega (
  arith,
  closes-append n (close_file s.file) (setvbuf d.file d.buffering_mode d.buffer_size ∷ []),
  closes-close_file n s.file,
)

closes-sink_step :
    (n : ℕ) (s : SinkHandler) (op : SinkOp)
    → closes n (sink_step s op).1 + held n (sink_step s op).0 ≡ held n s + op_queues n op
unfolding sink_step queue_new_sink write_str_and_endl poll_for_pending_sink_switch
closes-sink_step n s (queue_sink none mode size) = omega arith
closes-sink_step n s (queue_sink (some f) mode size) =
    omega (arith, closes-drop_pending n s.pending_new_sink)
closes-sink_step n s (write_line str) = omega arith
closes-sink_step n s poll_sink = omega (arith, closes-switch_to n s s.pending_new_sink refl)

-- At any time, the closings of a file and the places where the sink holds it are together as many as
-- the times that it was handed over.
closes-run_sink :
    (n : ℕ) (s : SinkHandler) (ops : List SinkOp)
    → closes n (run_sink s ops).1 + held n (run_sink s ops).0 ≡ held n s + queued n ops
unfolding run_sink
closes-run_sink n s [] = omega arith
closes-run_sink n s (op ∷ ops) =
    let (s1, e1) = sink_step s op in
    omega (
      arith,
      closes-append n e1 (run_sink s1 ops).1,
      closes-sink_step n s op,
      closes-run_sink n s1 ops,
    )

-- Over the life of a sink, from its start on the standard output to its destructor, with any calls in
-- between, each file that the program opened is closed exactly as often as it was handed over: a
-- replaced sink, a pending one and the current one are all closed, and none twice.
pub closed_once :
    (n : ℕ) (ops : List SinkOp)
    → let (s, effects) = run_sink initial_sink ops in closes n (effects ++ destroy s) ≡ queued n ops
unfolding destroy
closed_once n ops =
    let (s, effects) = run_sink initial_sink ops in
    omega (
      arith,
      closes-append n effects (drop_pending s.pending_new_sink ++ close_file s.file),
      closes-append n (drop_pending s.pending_new_sink) (close_file s.file),
      closes-drop_pending n s.pending_new_sink,
      closes-close_file n s.file,
      closes-run_sink n initial_sink ops,
    )

-- A file that was handed over at most once has not been closed while it is the current sink, so no
-- line is written to a closed file.
current_not_closed :
    (n : ℕ) (ops : List SinkOp)
    → queued n ops ≤ 1
    → (run_sink initial_sink ops).0.file ≡ opened n
    → closes n (run_sink initial_sink ops).1 ≡ 0
current_not_closed n ops once current =
    omega (arith, closes-run_sink n initial_sink ops, ap (is_file n) current, same)
  where
    same : is_file n (opened n) ≡ 1
    same = rw ((==_iff n n).1 refl)
