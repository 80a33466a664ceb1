-- ===== src/MainLoop/Tests.antt =====
-- A turn of the backend's loop (include/papper/detail/core.h) with a new sink and two threads.
use papper.Common.{ℕ, ◌≡◌, refl, true, false, none, some, List, [], ◌∷◌, ◌++◌, arith}
use papper.Common.Int.{ℤ, pos}
use papper.Text.{Text, codes}
use papper.Level.{debug, severity}
use papper.Double.{whole_numbers}
use papper.Pattern.{PatternData}
use papper.Sink.{
  std_out, opened, fclose, fwrite, fputc, close_file, queue_new_sink, poll_for_pending_sink_switch,
  SinkOp, queue_sink, sink_step, run_sink,
}
use papper.Formatters.{deleted, destroy_handler, queue_formatter, run_formatters}
use papper.Clock.{Tm, Resync, timestamp_to_local_system_time}
use papper.Backend.{event_lines}
use papper.Backend.Rounds.{survivors, Taken, from, events_at}
use papper.Backend.Represents.{Represents}
use papper.Backend.Samples.{
  sites, name_at, message_of, two_nodes, two_threads, two_nodes-Represents,
}
use papper.Backend.DrainAll.{all_taken, scheduled_lines}
use papper.MainLoop.{Backend, Turn, TurnResult, loop_turn, resync_in, stop_backend}
use papper.MainLoop.Poll.{lines_on, backend_after, loop_turn_lem}
use papper.MainLoop.Stop.{stop_drops_pending}

-- The formatter at an address puts the address in front of the message.
abbrev format_of : ℕ → PatternData → Text
format_of a d = a ∷ d.message

abbrev no_tm : Tm
no_tm = record { tm_year = 0; tm_yday = 0; tm_hour = 0; tm_min = 0; tm_sec = 0 }

abbrev turn : Turn
turn = record {
  tsc_a = 10;
  tsc_b = 20;
  reading = record { tsc1 = 30; system_now = pos 40; tsc2 = 32; local = no_tm; utc = no_tm };
}

abbrev resync : Resync ℤ
resync = record {
  clock = record {
    sync_point = record { ts = 0; system_time = pos 0 };
    utc_offset_ns = pos 0;
    ns_per_tick = pos 1;
  };
  last_utc_offset_resync = pos 0;
  last_system_clock_resync = pos 0;
}

abbrev sink_ops : List SinkOp
sink_ops = queue_sink (some (opened 1)) 0 4096 ∷ []

loop_turn_lem_example :
    let b =
      backend_after sink_ops 5 (queue_formatter (some 6) ∷ []) resync (two_nodes true) debug 8 in
    (result : TurnResult ℤ) × (loop_turn whole_numbers sites name_at message_of format_of b turn
      ≡ some result)
    × Represents sites result.after.nodes (survivors (two_threads true))
    × (result.files
        ≡ (poll_for_pending_sink_switch b.sink).1
          ++ fwrite (opened 1) (6 ∷ 1 ∷ codes "{}") ∷ fputc (opened 1) 10 ∷ [])
    × (result.pause ≡ none)
unfolding event_lines severity
loop_turn_lem_example =
    loop_turn_lem whole_numbers sites name_at message_of format_of sink_ops 5
      (queue_formatter (some 6) ∷ []) resync (two_nodes true) (two_threads true) debug 8 turn
      (two_nodes-Represents true) ((omega arith, tt), (tt, tt))

-- The sink that was queued last was not switched to yet.
abbrev stopped : Backend ℤ
stopped = backend_after sink_ops 5 [] resync (two_nodes false) debug 8

stop_drops_pending_example :
    (schedule : List (List Taken)) × (stop_backend whole_numbers sites name_at message_of format_of
        3
        (λ n. turn)
        stopped
      ≡ some (
        lines_on std_out (
              scheduled_lines sites name_at message_of
                (λ (n : ℕ).
                  timestamp_to_local_system_time whole_numbers
                    (resync_in whole_numbers sites name_at message_of format_of
                      (λ n. turn)
                      resync
                      n).clock)
                (format_of 5)
                debug
                0
                schedule)
            ++ (fclose (opened 1) ∷ []),
        deleted 5 ∷ [],
      ))
    × ((a : ℕ) → from a (all_taken schedule) ≡ events_at a (two_threads false))
unfolding run_sink sink_step queue_new_sink close_file destroy_handler run_formatters
stop_drops_pending_example =
    stop_drops_pending whole_numbers sites name_at message_of format_of 2 (λ n. turn) stopped
      (record { file = opened 1; buffering_mode = 0; buffer_size = 4096 }) (two_threads false)
      (two_nodes-Represents false) ((omega arith, tt), (tt, tt)) (refl, (refl, tt))
      (omega arith, (omega arith, tt)) refl
