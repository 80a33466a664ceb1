-- ===== src/MainLoop.antt =====
-- The loop of the backend thread, include/papper/detail/core.h, with all that it works on. The formatter
-- at an address is the parameter `format_of`.
pub mod Poll
pub mod Stop
mod Tests
use papper.Common.{ℕ, zero, suc, Option, none, some, List, [], ◌∷◌, ◌++◌, if◌then◌else◌, ◌>>=◌}
use papper.Text.{Text}
use papper.Level.{LogLevel, trace}
use papper.Double.{Double}
use papper.Codec.{Value}
use papper.Pattern.{PatternData}
use papper.Event.{CallSiteStaticData}
use papper.Sink.{
  SinkHandler, Effect, initial_sink, write_str_and_endl, poll_for_pending_sink_switch, destroy,
}
use papper.Formatters.{
  PatternFormatterHandler, initial_handler, FormatterEffect, poll_for_pending_formatter_switch,
  destroy_handler,
}
use papper.Clock.{
  Clock, Reading, Resync, init_clock, timestamp_to_local_system_time, try_resync_clock,
}
use papper.Backend.{Node, poll_threads, next_backoff, drain_loop}

-- The fields of `Backend` that the loop uses, the clock with the times of its resynchronisations, and
-- the pause.
pub record Backend (D : Type 0) : Type 0 where
  pub sink : SinkHandler
  pub pattern_formatter : PatternFormatterHandler
  pub resync : Resync D
  pub nodes : List Node
  pub min_log_level : LogLevel
  pub backoff_us : ℕ

-- `write_str_and_endl` for each line.
unfoldable pub write_lines : SinkHandler → List Text → List Effect
write_lines s [] = []
write_lines s (line ∷ lines) = write_str_and_endl s line ++ write_lines s lines

-- What a turn reads of the processor's counter and of the clocks outside.
pub record Turn : Type 0 where
  pub tsc_a : ℕ
  pub tsc_b : ℕ
  pub reading : Reading

-- What a turn does: the effects on files, those on formatters, and the pause in microseconds if no
-- events were found.
pub record TurnResult (D : Type 0) : Type 0 where
  pub after : Backend D
  pub files : List Effect
  pub formatters : List FormatterEffect
  pub pause : Option ℕ

module _ {D : Type 0} (double : Double D) (sites : ℕ → CallSiteStaticData) (name_at : ℕ → Text)
    (message_of : Text → List Value → Text) (format_of : ℕ → PatternData → Text) where
  -- One turn of `while (_running)`, in which no thread changes the state but the backend's own.
  unfoldable pub loop_turn : Backend D → Turn → Option (TurnResult D)
  loop_turn b t =
      let (sink, sink_effects) = poll_for_pending_sink_switch b.sink in
      let (formatter, formatter_effects) = poll_for_pending_formatter_switch b.pattern_formatter in
      let resync = try_resync_clock double b.resync t.tsc_a t.tsc_b t.reading in
      poll_threads sites name_at message_of (timestamp_to_local_system_time double resync.clock)
        (format_of formatter.formatter) b.min_log_level b.nodes b.nodes
      >>= λ (nodes, were, lines). some (record {
        after = record b {
          sink = sink;
          pattern_formatter = formatter;
          resync = resync;
          nodes = nodes;
          backoff_us = next_backoff were b.backoff_us;
        };
        files = sink_effects ++ write_lines sink lines;
        formatters = formatter_effects;
        pause = if were then none else some b.backoff_us;
      })

  -- `Backend()`: a processor with no invariant counter, for which no tick was found, is an exception,
  -- `none`. `memory` is the clock before it is initialised.
  unfoldable pub start_backend : Clock D → ℕ → Option D → Reading → Option (Backend D)
  start_backend memory default_formatter tick r = init_clock double memory tick r >>= λ clock.
      some (record {
        sink = initial_sink;
        pattern_formatter = initial_handler default_formatter;
        resync = record {
          clock = clock;
          last_utc_offset_resync = double.of_u64 0;
          last_system_clock_resync = double.of_u64 0;
        };
        nodes = [];
        min_log_level = trace;
        backoff_us = 1;
      })

  -- The clock in the n-th round of the last loop.
  abbrev pub resync_in : (ℕ → Turn) → Resync D → ℕ → Resync D
  resync_in turn_at s zero =
      let t = turn_at 0 in try_resync_clock double s t.tsc_a t.tsc_b t.reading
  resync_in turn_at s (suc n) =
      let t = turn_at (suc n) in
      try_resync_clock double (resync_in turn_at s n) t.tsc_a t.tsc_b t.reading

  -- `~Backend`, whose flag ends the loop, at a turn's end: the last loop, then the destructors of the
  -- formatters and of the sink.
  unfoldable pub stop_backend :
      ℕ → (ℕ → Turn) → Backend D → Option (List Effect × List FormatterEffect)
  stop_backend fuel turn_at b =
      drain_loop sites name_at message_of
        (λ (n : ℕ). timestamp_to_local_system_time double (resync_in turn_at b.resync n).clock)
        (format_of b.pattern_formatter.formatter) fuel 0 b.min_log_level b.nodes
      >>= λ lines.
          some (write_lines b.sink lines ++ destroy b.sink, destroy_handler b.pattern_formatter)
