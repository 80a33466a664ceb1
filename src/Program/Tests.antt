-- ===== src/Program/Tests.antt =====
-- A thread of include/papper/detail/core.h that starts, logs one event and ends.
use papper.Common.{ℕ, ◌≡◌, refl, [], ◌∷◌, ◌++◌, arith}
use papper.Text.{Text, codes}
use papper.Queue.{bit_ceil, create, reserve_write}
use papper.Codec.{encoded_size, encoded_size_all}
use papper.Event.Accept.{is_accepted}
use papper.Backend.{thread_name_of, kill, register_thread}
use papper.Backend.Rounds.{tagged}
use papper.Backend.Start.{start_thread}
use papper.Backend.Samples.{arguments, call, event, sites, name_at, message_of, empty_context}
use papper.Program.{
  Program, initial_program, change_context, log_on, accepted, starts, logs, ends, Run, begin, next,
}
use papper.Program.Accounts.{Accounted, Run-Accounted}

abbrev number : ℕ → Text
number n = n ∷ []

abbrev started : Program
started = record initial_program {
  threads = start_thread number 7 (codes "t") 64 initial_program.threads;
}

abbrev with_event : Program
with_event = record (change_context started 7 (log_on 1000 2000 3000 arguments empty_context)) {
  logged =
      started.logged
      ++ tagged 7 (accepted (is_accepted empty_context.queue arguments) 1000 2000 3000 arguments);
}

abbrev finished : Program
finished = change_context with_event 7 (kill (log_on 1000 2000 3000 arguments empty_context))

run : Run number sites name_at message_of finished
unfolding start_thread register_thread thread_name_of
run =
    next
      (next (next begin (starts 7 64 (codes "t") tt (omega arith)))
        (logs 7 1000 2000 3000 arguments empty_context refl refl call refl))
      (ends 7 (log_on 1000 2000 3000 arguments empty_context) refl)

event_logged : finished.logged ≡ (7, (event, arguments)) ∷ []
unfolding is_accepted reserve_write create bit_ceil encoded_size_all encoded_size
event_logged = refl

Run-Accounted_example : Accounted number sites name_at message_of finished
Run-Accounted_example = Run-Accounted number sites name_at message_of run
