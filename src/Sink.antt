-- ===== src/Sink.antt =====
-- Where the lines go, include/papper/detail/sink.h. A call of the C library is an effect; each
-- operation makes one atomic exchange of the pending sink at most, and so is one step.
pub mod Files
pub mod Switch
mod Tests
use papper.Common.{ℕ, ◌-◌, Option, none, some, List, [], ◌∷◌, ◌++◌}
use papper.Text.{Text}

-- `FILE*`: the two that are never closed, and those that the program has opened.
pub data File : Type 0 where
  std_out : File
  std_err : File
  opened : ℕ → File

pub record SinkDescriptor : Type 0 where
  pub file : File
  pub buffering_mode : ℕ
  pub buffer_size : ℕ

pub record SinkHandler : Type 0 where
  pub file : File
  pub pending_new_sink : Option SinkDescriptor

pub data Effect : Type 0 where
  fclose : File → Effect
  fflush : File → Effect
  setvbuf : File → (mode size : ℕ) → Effect
  fwrite : File → Text → Effect
  fputc : File → ℕ → Effect

abbrev pub initial_sink : SinkHandler
initial_sink = record { file = std_out; pending_new_sink = none }

unfoldable pub close_file : File → List Effect
close_file std_out = []
close_file std_err = []
close_file (opened n) = fclose (opened n) ∷ []

-- `delete` of a descriptor that was exchanged out, its file closed before.
abbrev pub drop_pending : Option SinkDescriptor → List Effect
drop_pending none = []
drop_pending (some d) = close_file d.file

-- A null file is ignored.
unfoldable pub queue_new_sink : SinkHandler → Option File → ℕ → ℕ → SinkHandler × List Effect
queue_new_sink s none buffering_mode buffer_size = (s, [])
queue_new_sink s (some f) buffering_mode buffer_size = (
  record s {
    pending_new_sink =
        some (record { file = f; buffering_mode = buffering_mode; buffer_size = buffer_size });
  },
  drop_pending s.pending_new_sink,
)

unfoldable pub write : SinkHandler → Text → List Effect
write s str = fwrite s.file str ∷ []

unfoldable pub write_str_and_endl : SinkHandler → Text → List Effect
write_str_and_endl s str = fwrite s.file str ∷ fputc s.file 10 ∷ []

abbrev pub switch_to : SinkHandler → Option SinkDescriptor → SinkHandler × List Effect
switch_to s none = (s, [])
switch_to s (some d) = (
  record { file = d.file; pending_new_sink = none },
  fflush s.file ∷ (close_file s.file ++ setvbuf d.file d.buffering_mode d.buffer_size ∷ []),
)

unfoldable pub poll_for_pending_sink_switch : SinkHandler → SinkHandler × List Effect
poll_for_pending_sink_switch s = switch_to s s.pending_new_sink

-- `~SinkHandler`
unfoldable pub destroy : SinkHandler → List Effect
destroy s = drop_pending s.pending_new_sink ++ close_file s.file

-- What the program's threads do with the sink, in the order of their exchanges.
pub data SinkOp : Type 0 where
  queue_sink : Option File → (buffering_mode buffer_size : ℕ) → SinkOp
  write_line : Text → SinkOp
  poll_sink : SinkOp

unfoldable pub sink_step : SinkHandler → SinkOp → SinkHandler × List Effect
sink_step s (queue_sink f mode size) = queue_new_sink s f mode size
sink_step s (write_line str) = (s, write_str_and_endl s str)
sink_step s poll_sink = poll_for_pending_sink_switch s

unfoldable pub run_sink : SinkHandler → List SinkOp → SinkHandler × List Effect
run_sink s [] = (s, [])
run_sink s (op ∷ ops) =
    let (s1, e1) = sink_step s op in let (s2, e2) = run_sink s1 ops in (s2, e1 ++ e2)
