-- ===== src/Backend/Tests.antt =====
-- The theorems on the backend thread (include/papper/detail/core.h) at a concrete event.
use papper.Common.{
  ℕ, ◌+◌, ◌≤◌, ◌<◌, ◌≡◌, refl, ◌⊎◌, true, false, none, some, List, [], ◌∷◌, arith, replicate,
}
use papper.Common.Int.{ℤ, pos}
use papper.Memory.{blit, Holds-blit}
use papper.Queue.{bit_ceil, create}
use papper.Queue.Sequential.{Pending}
use papper.Codec.{le_bytes}
use papper.Text.{codes}
use papper.Level.{debug, info, severity}
use papper.Event.Protocol.{published, Call-IsEvent}
use papper.Backend.{
  Node, VisitResult, settle, event_lines, read_and_process_single_event, visit, poll_threads,
  drain_loop,
}
use papper.Backend.Process.{read_and_process_lem}
use papper.Backend.Race.{log_and_end, visit-log_and_end}
use papper.Backend.Start.{Registry, get_or_create_thread_queue}
use papper.Backend.Rounds.{Taken, from, events_at}
use papper.Backend.Represents.{Represents}
use papper.Backend.Poll.{poll_threads_lem}
use papper.Backend.DrainAll.{all_taken, scheduled_lines, drain_threads_lem}
use papper.Backend.Samples.{
  arguments, call, event, sites, name_at, message_of, local_time, format_line, empty_context,
  empty-Contains, two_nodes, two_threads, two_nodes-Represents,
}

read_and_process_lem_example :
    let processed =
      read_and_process_single_event sites name_at message_of local_time format_line debug
        (blit (replicate 64 0) 5 (published call))
        5 in
    ((severity info < severity debug) × (processed ≡ some (36, [])))
    ⊎ ((severity debug ≤ severity info) × (processed ≡ some (36, (1 ∷ codes "{}") ∷ [])))
unfolding le_bytes
read_and_process_lem_example =
    read_and_process_lem sites name_at message_of local_time format_line debug
      (blit (replicate 64 0) 5 (published call)) 5 event arguments (Call-IsEvent call) refl
      (Holds-blit (replicate 64 0) 5 (published call) (omega arith))

-- The clock gains one with each resynchronisation.
abbrev local_time_at : ℕ → ℕ → ℤ
local_time_at n t = pos (t + n)

visit-log_and_end_example :
    (v : VisitResult) × (visit sites name_at message_of local_time format_line debug
        (log_and_end 1000 2000 3000 arguments)
        empty_context
      ≡ some v)
    × (v.dead ≡ true)
    × (v.lines ≡ [])
    × Pending v.context.queue (published call ∷ [])
    × (settle v 7 (record { address = 7; context = empty_context } ∷ []) ≡ [])
unfolding create bit_ceil le_bytes
visit-log_and_end_example =
    visit-log_and_end sites name_at message_of local_time format_line debug call 7 empty_context
      empty-Contains (omega arith)

abbrev no_threads : Registry
no_threads = record { nodes = []; unnamed = 0 }

abbrev first_call : ℕ × Registry
first_call = get_or_create_thread_queue (λ n. n ∷ []) 7 none [] 100 no_threads

poll_threads_lem_example :
    (after : List Node) × Represents sites after (
      record { address = 7; alive = false; events = [] }
      ∷ record { address = 8; alive = true; events = [] }
      ∷ [])
    × (poll_threads sites name_at message_of local_time format_line debug
          (two_nodes true)
          (two_nodes true)
        ≡ some (after, true, (1 ∷ codes "{}") ∷ []))
unfolding event_lines severity
poll_threads_lem_example =
    poll_threads_lem sites name_at message_of local_time format_line debug (two_nodes true)
      (two_threads true) (two_nodes-Represents true) ((omega arith, tt), (tt, tt))

drain_threads_lem_example :
    (schedule : List (List Taken)) × (drain_loop sites name_at message_of local_time_at format_line
        3 0 debug
        (two_nodes false)
      ≡ some (scheduled_lines sites name_at message_of local_time_at format_line debug 0 schedule))
    × ((a : ℕ) → from a (all_taken schedule) ≡ events_at a (two_threads false))
drain_threads_lem_example =
    drain_threads_lem sites name_at message_of local_time_at format_line debug 2 0 (two_nodes false)
      (two_threads false) (two_nodes-Represents false) ((omega arith, tt), (tt, tt))
      (refl, (refl, tt)) (omega arith, (omega arith, tt))
