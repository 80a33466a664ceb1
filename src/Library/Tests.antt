-- ===== src/Library/Tests.antt =====
-- A program that uses the library of include/papper/papper.h: one thread logs an event.
use papper.Common.{ℕ, ◌≡◌, refl, some, List, [], ◌∷◌, ◌++◌, arith}
use papper.Common.Int.{ℤ, pos}
use papper.Text.{Text, codes}
use papper.Level.{trace}
use papper.Double.{whole_numbers}
use papper.Pattern.{PatternData}
use papper.Event.Accept.{is_accepted}
use papper.Sink.{Effect, initial_sink}
use papper.Formatters.{initial_handler, FormatterEffect}
use papper.Clock.{Tm, Clock, Reading, sync_to_system_clock, set_utc_offset, init_clock}
use papper.Backend.{thread_name_of, kill, register_thread}
use papper.Backend.Rounds.{tagged, from}
use papper.Backend.Start.{start_thread}
use papper.Backend.Samples.{arguments, call, sites, name_at, message_of, empty_context}
use papper.MainLoop.{Backend, Turn, start_backend, stop_backend}
use papper.Program.{log_on, accepted}
use papper.Program.Batches.{Batch, taken_in, written_by}
use papper.Library.{
  Library, registry, with_registry, with_context, first_state, thread_starts, thread_logs,
  thread_ends, LibraryRun, constructed, further,
}
use papper.Library.Texts.{texts_of}
use papper.Library.Refines.{stop_backend_lem}

abbrev number : ℕ → Text
number n = n ∷ []

abbrev format_of : ℕ → PatternData → Text
format_of a d = a ∷ d.message

abbrev no_tm : Tm
no_tm = record { tm_year = 0; tm_yday = 0; tm_hour = 0; tm_min = 0; tm_sec = 0 }

abbrev turn_at : ℕ → Turn
turn_at n = record {
  tsc_a = n;
  tsc_b = n;
  reading = record { tsc1 = n; system_now = pos n; tsc2 = n; local = no_tm; utc = no_tm };
}

abbrev memory : Clock ℤ
memory = record {
  sync_point = record { ts = 0; system_time = pos 0 };
  utc_offset_ns = pos 0;
  ns_per_tick = pos 0;
}

abbrev reading : Reading
reading = (turn_at 0).reading

abbrev constructed_backend : Backend ℤ
constructed_backend = record {
  sink = initial_sink;
  pattern_formatter = initial_handler 5;
  resync = record {
    clock =
        sync_to_system_clock whole_numbers
          (set_utc_offset whole_numbers (record memory { ns_per_tick = pos 1 }) reading) reading;
    last_utc_offset_resync = pos 0;
    last_system_clock_resync = pos 0;
  };
  nodes = [];
  min_log_level = trace;
  backoff_us = 1;
}

abbrev before : Library ℤ
before = first_state constructed_backend

abbrev started : Library ℤ
started = with_registry before (start_thread number 7 (codes "t") 64 (registry before))

abbrev after_event : Library ℤ
after_event = record (with_context started 7 (log_on 1000 2000 3000 arguments empty_context)) {
  logged =
      started.logged
      ++ tagged 7 (accepted (is_accepted empty_context.queue arguments) 1000 2000 3000 arguments);
}

abbrev finished : Library ℤ
finished = with_context after_event 7 (kill (log_on 1000 2000 3000 arguments empty_context))

run : LibraryRun whole_numbers number sites name_at message_of format_of finished
unfolding start_backend init_clock start_thread register_thread thread_name_of
run =
    further
      (further
        (further (constructed memory 5 (some (pos 1)) reading constructed_backend refl)
          (thread_starts 7 64 (codes "t") tt (omega arith)))
        (thread_logs 7 1000 2000 3000 arguments empty_context refl refl call refl))
      (thread_ends 7 (log_on 1000 2000 3000 arguments empty_context) refl)

stop_backend_lem_example :
    (fuel : ℕ) × (files : List Effect) × (deletions : List FormatterEffect) × (batches : List Batch)
    × (stop_backend whole_numbers sites name_at message_of format_of fuel turn_at finished.backend
        ≡ some (files, deletions))
    × (texts_of (finished.files ++ files) ≡ written_by sites name_at message_of batches)
    × ((a : ℕ) → from a (taken_in batches) ≡ from a finished.logged)
unfolding start_thread register_thread thread_name_of
stop_backend_lem_example =
    stop_backend_lem whole_numbers number sites name_at message_of format_of turn_at run (refl, tt)
