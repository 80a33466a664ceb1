-- ===== src/Concurrent/Events/Tests.antt =====
-- A thread logs an event with an `int` and the backend finds it (include/papper/detail/core.h).
use papper.Common.{
  ◌≡◌, refl, inl, true, none, some, List, [], ◌∷◌, ◌++◌, arith, ◌==◌, if◌then◌else◌,
}
use papper.Memory.{Bytes, blit}
use papper.Codec.{Value, le_bytes}
use papper.Queue.{bit_ceil, create, reserve_write, commit_write, reserve_read}
use papper.Queue.Spsc.{writing, reading, System, reserve, write, commit, init}
use papper.Level.{info}
use papper.Event.{LogEventHeader}
use papper.Event.RoundTrip.{event_bytes}
use papper.Event.Protocol.{Call-IsEvent, event_size_at}
use papper.Backend.{event_lines, read_and_process_single_event}
use papper.Backend.Samples.{
  arguments, call, event, sites, name_at, message_of, local_time, format_line,
}
use papper.ThreadList.{ListNode, visiting, empty_list, publish, poll_begins, load_next}
use papper.Concurrent.{
  not_yet, found_event, Concurrent, update, nobody, starts, registers, pushes, walks, looks,
  ConcurrentReach, nothing, and_then,
}
use papper.Concurrent.Events.{IsTyped, typed_framing, processes_next}

abbrev message : Bytes
message = event_bytes event arguments

abbrev seven : ListNode
seven = record { context = 7; next = 0 }

abbrev visited_node : Concurrent
visited_node = record {
  list = record empty_list {
    head = 7;
    heap = λ a. if a == 7 then some seven else none;
    pc = visiting 7 0;
    listed = 7 ∷ [];
    snapshot = 7 ∷ [];
    visited = 7 ∷ [];
  };
  contexts =
      update (λ a. nobody (typed_framing sites)) 7
        (record { channel = init (typed_framing sites) 64; is_alive = true });
  phase = not_yet;
}

visited_node-Reach : ConcurrentReach (typed_framing sites) visited_node
visited_node-Reach =
    and_then
      (and_then
        (and_then (and_then nothing (starts 7 7 0 64 (omega arith) refl (omega arith)))
          (registers (publish 7 seven (inl refl) refl refl) refl))
        (walks (poll_begins refl) refl))
      (walks (load_next 7 seven refl (omega arith) refl) refl)

abbrev with_channel : Concurrent → System → Concurrent
with_channel s t = record s {
  contexts = update s.contexts 7 (record (s.contexts 7) { channel = t });
}

abbrev reserved : System
reserved = record (init (typed_framing sites) 64) { producer = writing 0 36 36 [] }

abbrev written : System
written = record reserved {
  queue = record (create 64) { buffer = blit (create 64).buffer 0 message };
  producer = writing 0 36 36 message;
}

abbrev committed : System
committed = record (init (typed_framing sites) 64) {
  queue = commit_write written.queue 36;
  w_log = 36 ∷ [];
  sent = message ∷ [];
}

abbrev holding : System
holding = record committed {
  queue = record committed.queue { cached_w = 36 };
  w_log = [];
  consumer = reading 0 0;
}

abbrev logged : Concurrent
logged = with_channel (with_channel (with_channel visited_node reserved) written) committed

abbrev found : Concurrent
found = record (with_channel logged holding) { phase = found_event }

is_typed : IsTyped sites event arguments
is_typed = record { event = Call-IsEvent call; kinds = refl }

logged-Reach : ConcurrentReach (typed_framing sites) logged
unfolding create bit_ceil reserve_write commit_write le_bytes
logged-Reach =
    and_then
      (and_then
        (and_then visited_node-Reach (pushes 7 {t = reserved} (reserve 36 [] [] refl refl) tt refl))
        (pushes 7 {t = written} (write 0 36 36 [] message refl (omega arith)) tt refl))
      (pushes 7 {t = committed}
        (commit 0 36 36 message refl refl (event, arguments, is_typed, refl)) tt refl)

found-Reach : ConcurrentReach (typed_framing sites) found
unfolding create bit_ceil commit_write reserve_read
found-Reach = and_then logged-Reach (looks 7 (36 ∷ []) [] refl refl refl refl)

processes_next_example :
    (h : LogEventHeader) × (args : List Value) × (rest : List Bytes) × (message ∷ []
      ≡ [] ++ event_bytes h args ∷ rest)
    × (read_and_process_single_event sites name_at message_of local_time format_line info
          holding.queue.buffer 0
        ≡ some (
          event_size_at holding.queue.buffer 0,
          event_lines sites name_at message_of local_time format_line info h args,
        ))
processes_next_example =
    processes_next sites name_at message_of local_time format_line info found-Reach 7 0 0 refl
