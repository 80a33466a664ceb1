-- ===== src/MainLoop/Stop.antt =====
-- How the backend (include/papper/detail/core.h) ends when a new sink or formatter is still pending.
use papper.Common.{ℕ, suc, ◌≡◌, refl, some, List, ◌++◌}
use papper.Text.{Text}
use papper.Double.{Double}
use papper.Codec.{Value}
use papper.Pattern.{PatternData}
use papper.Event.{CallSiteStaticData}
use papper.Sink.{SinkDescriptor, close_file, destroy}
use papper.Formatters.{destroy_handler}
use papper.Clock.{timestamp_to_local_system_time}
use papper.Backend.Rounds.{Thread, Taken, from, DistinctThreads, events_at, Shorter, AllDead}
use papper.Backend.Represents.{Represents}
use papper.Backend.DrainAll.{all_taken, scheduled_lines, drain_threads_lem}
use papper.MainLoop.{Backend, Turn, resync_in, stop_backend}
use papper.MainLoop.Poll.{lines_on, write_lines-eq-lines_on}

module _ {D : Type 0} (double : Double D) (sites : ℕ → CallSiteStaticData) (name_at : ℕ → Text)
    (message_of : Text → List Value → Text) (format_of : ℕ → PatternData → Text) where
  -- If the backend is stopped while a sink is pending, all threads being dead, with different addresses
  -- and fewer than `k` events each: it ends. It writes the lines of all events, in the order of each
  -- thread, to the old file, made by the old formatter; the new file is closed without a line, and
  -- then the old one.
  pub stop_drops_pending :
      (k : ℕ) (turn_at : ℕ → Turn) (b : Backend D) (d : SinkDescriptor) (threads : List Thread)
      → Represents sites b.nodes threads
      → DistinctThreads threads
      → AllDead threads
      → Shorter k threads
      → b.sink.pending_new_sink ≡ some d
      → (schedule : List (List Taken)) × (stop_backend double sites name_at message_of format_of
            (suc k)
            turn_at
            b
          ≡ some (
            lines_on b.sink.file (
                  scheduled_lines sites name_at message_of
                    (λ (n : ℕ).
                      timestamp_to_local_system_time double
                        (resync_in double sites name_at message_of format_of turn_at b.resync
                          n).clock)
                    (format_of b.pattern_formatter.formatter)
                    b.min_log_level
                    0
                    schedule)
                ++ (close_file d.file ++ close_file b.sink.file),
            destroy_handler b.pattern_formatter,
          ))
        × ((a : ℕ) → from a (all_taken schedule) ≡ events_at a threads)
  unfolding stop_backend destroy
  stop_drops_pending k turn_at b d threads r distinct dead short pending =
      let (schedule, at, complete) =
        drain_threads_lem sites name_at message_of
          (λ (n : ℕ).
            timestamp_to_local_system_time double
              (resync_in double sites name_at message_of format_of turn_at b.resync n).clock)
          (format_of b.pattern_formatter.formatter) b.min_log_level k 0 b.nodes threads r distinct
          dead short in
      (schedule, rw at (rw (write_lines-eq-lines_on b.sink _) (rw pending refl)), complete)
