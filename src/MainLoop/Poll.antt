-- ===== src/MainLoop/Poll.antt =====
-- What a turn of the backend's loop (include/papper/detail/core.h) writes, and where.
use papper.Common.{ℕ, ◌≡◌, refl, ap, ap₂, ◌∙◌, none, some, List, [], ◌∷◌, ◌++◌, if◌then◌else◌}
use papper.Text.{Text}
use papper.Level.{LogLevel}
use papper.Double.{Double}
use papper.Codec.{Value}
use papper.Pattern.{PatternData}
use papper.Event.{CallSiteStaticData}
use papper.Sink.{
  File, std_out, SinkHandler, Effect, fwrite, fputc, initial_sink, write_str_and_endl,
  poll_for_pending_sink_switch, SinkOp, run_sink,
}
use papper.Sink.Switch.{last_queued, poll-file}
use papper.Formatters.{
  initial_handler, poll_for_pending_formatter_switch, FormatterOp, run_formatters,
}
use papper.Formatters.Switch.{last_formatter, poll_uses_last_formatter}
use papper.Clock.{Resync, timestamp_to_local_system_time, try_resync_clock}
use papper.Backend.{Node, next_backoff}
use papper.Backend.Visit.{lines_of}
use papper.Backend.Rounds.{Thread, survivors, taken, is_nonempty, events_of, DistinctThreads}
use papper.Backend.Represents.{Represents}
use papper.Backend.Poll.{poll_threads_lem}
use papper.MainLoop.{Backend, write_lines, Turn, TurnResult, loop_turn}

-- Lines on a file, each with a line feed.
abbrev pub lines_on : File → List Text → List Effect
lines_on f [] = []
lines_on f (line ∷ lines) = fwrite f line ∷ fputc f 10 ∷ lines_on f lines

pub write_lines-eq-lines_on :
    (s : SinkHandler) (lines : List Text) → write_lines s lines ≡ lines_on s.file lines
unfolding write_lines write_str_and_endl
write_lines-eq-lines_on s [] = refl
write_lines-eq-lines_on s (line ∷ lines) =
    ap (λ (l : List Effect). fwrite s.file line ∷ fputc s.file 10 ∷ l)
      (write_lines-eq-lines_on s lines)

-- The backend behind some calls of its sink and of its formatters.
abbrev pub backend_after :
    {D : Type 0}
    → List SinkOp
    → ℕ
    → List FormatterOp
    → Resync D
    → List Node
    → LogLevel
    → ℕ
    → Backend D
backend_after sink_ops default_formatter formatter_ops resync nodes level backoff = record {
  sink = (run_sink initial_sink sink_ops).0;
  pattern_formatter = (run_formatters (initial_handler default_formatter) formatter_ops).0;
  resync = resync;
  nodes = nodes;
  min_log_level = level;
  backoff_us = backoff;
}

module _ {D : Type 0} (double : Double D) (sites : ℕ → CallSiteStaticData) (name_at : ℕ → Text)
    (message_of : Text → List Value → Text) (format_of : ℕ → PatternData → Text) where
  -- For a backend behind any calls of its sink and its formatters, whose nodes stand for threads with
  -- different addresses: a turn succeeds. It takes a round of events from the threads; and behind
  -- what the switch of the sink does, it writes their lines to the file that was queued last, made by
  -- the formatter that was queued last and with the clock as it is after its resynchronisation. It
  -- pauses exactly if there was no event.
  pub loop_turn_lem :
      (sink_ops : List SinkOp) (default_formatter : ℕ) (formatter_ops : List FormatterOp)
      (resync : Resync D) (nodes : List Node) (threads : List Thread) (level : LogLevel)
      (backoff : ℕ) (t : Turn)
      → Represents sites nodes threads
      → DistinctThreads threads
      → let b = backend_after sink_ops default_formatter formatter_ops resync nodes level backoff in
        let clock = (try_resync_clock double resync t.tsc_a t.tsc_b t.reading).clock in
        (result : TurnResult D) × (loop_turn double sites name_at message_of format_of b t
          ≡ some result)
        × Represents sites result.after.nodes (survivors threads)
        × (result.files
            ≡ (poll_for_pending_sink_switch b.sink).1
              ++ lines_on (last_queued std_out sink_ops) (
                  lines_of sites name_at message_of
                    (timestamp_to_local_system_time double clock)
                    (format_of (last_formatter default_formatter formatter_ops))
                    level
                    (events_of (taken threads))))
        × (result.pause ≡ (if is_nonempty (taken threads) then none else some backoff))
  unfolding loop_turn
  loop_turn_lem sink_ops default_formatter formatter_ops resync nodes threads level backoff t r d =
      let b = backend_after sink_ops default_formatter formatter_ops resync nodes level backoff in
      let sink = (poll_for_pending_sink_switch b.sink).0 in
      let formatter = (poll_for_pending_formatter_switch b.pattern_formatter).0 in
      let clock = (try_resync_clock double resync t.tsc_a t.tsc_b t.reading).clock in
      let lines =
        lines_of sites name_at message_of (timestamp_to_local_system_time double clock)
          (format_of formatter.formatter) level (events_of (taken threads)) in
      let (after, left, at) =
        poll_threads_lem sites name_at message_of (timestamp_to_local_system_time double clock)
          (format_of formatter.formatter) level nodes threads r d in
      (
        record {
          after = record b {
            sink = sink;
            pattern_formatter = formatter;
            resync = try_resync_clock double resync t.tsc_a t.tsc_b t.reading;
            nodes = after;
            backoff_us = next_backoff (is_nonempty (taken threads)) backoff;
          };
          files = (poll_for_pending_sink_switch b.sink).1 ++ write_lines sink lines;
          formatters = (poll_for_pending_formatter_switch b.pattern_formatter).1;
          pause = if is_nonempty (taken threads) then none else some backoff;
        },
        rw at refl,
        left,
        ap (λ (l : List Effect). (poll_for_pending_sink_switch b.sink).1 ++ l)
            (write_lines-eq-lines_on sink lines
              ∙ ap₂
                  (λ (f : File) (a : ℕ). lines_on f (
                    lines_of sites name_at message_of (timestamp_to_local_system_time double clock)
                      (format_of a) level (events_of (taken threads))))
                  (poll-file sink_ops) (poll_uses_last_formatter default_formatter formatter_ops)),
        refl,
      )
