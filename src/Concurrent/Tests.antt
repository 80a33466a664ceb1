-- ===== src/Concurrent/Tests.antt =====
-- A thread registers and the backend visits it; behind the look of the backend at its queue the thread
-- logs and ends, and its node is removed (include/papper/detail/core.h).
use papper.Common.{
  ℕ, ◌≡◌, refl, sym, inl, true, false, none, some, List, [], ◌∷◌, ◌++◌, arith, ◌==◌, if◌then◌else◌,
  length,
}
use papper.Memory.{Bytes, blit, load}
use papper.Queue.{
  bit_ceil, create, reserve_write, commit_write, is_empty, reserve_read, commit_read,
}
use papper.Queue.Spsc.{Framing, writing, reading, waiting, System, reserve, write, commit, init}
use papper.ThreadList.{ListNode, ListState, visiting, empty_list, publish, poll_begins, load_next}
use papper.ThreadList.Safety.{IsNode}
use papper.Concurrent.{
  not_yet, found_event, found_nothing, done, dead, Concurrent, ConcurrentStep, update, nobody,
  starts, registers, pushes, ends, walks, looks, reads, finds_dead, ConcurrentReach, nothing,
  and_then,
}
use papper.Concurrent.Polls.{Turn, polls_end}
use mathlib.Core.WellFounded.{Acc}
use papper.Concurrent.Progress.{ByBackend, backend_goes_on}
use papper.Concurrent.Guarantees.{each_in_order, living_not_deleted, removal_loses_unseen}

-- Messages of one byte.
abbrev bytes_framing : Framing
bytes_framing = record {
  IsMessage = λ (m : Bytes). length m ≡ 1;
  frame = λ (memory : Bytes) (p : ℕ). 1;
  nonempty = λ (m : Bytes) h. (omega (arith, h));
  frame_lem = λ (memory : Bytes) (p : ℕ) (m : Bytes) h there. sym h;
}

abbrev seven : ListNode
seven = record { context = 7; next = 0 }

abbrev visited_list : ListState
visited_list = record empty_list {
  head = 7;
  heap = λ a. if a == 7 then some seven else none;
  registering = [];
  pc = visiting 7 0;
  listed = 7 ∷ [];
  snapshot = 7 ∷ [];
  visited = 7 ∷ [];
}

-- The node 7 is visited, and no one has logged.
abbrev visited_node : Concurrent
visited_node = record {
  list = visited_list;
  contexts =
      update (λ a. nobody bytes_framing) 7
        (record { channel = init bytes_framing 4; is_alive = true });
  phase = not_yet;
}

visited_node-Reach : ConcurrentReach bytes_framing visited_node
visited_node-Reach =
    and_then
      (and_then
        (and_then (and_then nothing (starts 7 7 0 4 (omega arith) refl (omega arith)))
          (registers (publish 7 seven (inl refl) refl refl) refl))
        (walks (poll_begins refl) refl))
      (walks (load_next 7 seven refl (omega arith) refl) refl)

living_not_deleted_example : IsNode visited_node.list.heap 7
living_not_deleted_example = living_not_deleted bytes_framing visited_node-Reach 7 refl

abbrev with_channel : Concurrent → System → Concurrent
with_channel s t = record s {
  contexts = update s.contexts 7 (record (s.contexts 7) { channel = t });
}

-- The backend has found nothing.
abbrev looked : Concurrent
looked = record (with_channel visited_node (init bytes_framing 4)) { phase = found_nothing }

looked-Reach : ConcurrentReach bytes_framing looked
unfolding create bit_ceil reserve_read is_empty
looked-Reach = and_then visited_node-Reach (looks 7 [] [] refl refl refl refl)

abbrev reserved : System
reserved = record (init bytes_framing 4) { producer = writing 0 1 1 [] }

abbrev written : System
written = record reserved {
  queue = record (create 4) { buffer = blit (create 4).buffer 0 (7 ∷ []) };
  producer = writing 0 1 1 (7 ∷ []);
}

abbrev committed : System
committed = record (init bytes_framing 4) {
  queue = commit_write written.queue 1;
  w_log = 1 ∷ [];
  sent = (7 ∷ []) ∷ [];
}

abbrev logged : Concurrent
logged = with_channel (with_channel (with_channel looked reserved) written) committed

logged-Reach : ConcurrentReach bytes_framing logged
unfolding create bit_ceil reserve_write commit_write
logged-Reach =
    and_then
      (and_then
        (and_then looked-Reach (pushes 7 {t = reserved} (reserve 1 [] [] refl refl) tt refl))
        (pushes 7 {t = written} (write 0 1 1 [] (7 ∷ []) refl (omega arith)) tt refl))
      (pushes 7 {t = committed} (commit 0 1 1 (7 ∷ []) refl refl refl) tt refl)

backend_goes_on_example :
    (t : Concurrent) × (st : ConcurrentStep bytes_framing logged t) × ByBackend st
backend_goes_on_example = backend_goes_on bytes_framing logged-Reach

polls_end_example : Acc (λ (t u : Concurrent). Turn bytes_framing u t) logged
polls_end_example = polls_end bytes_framing logged-Reach

-- The same before the look of the backend, which then finds and reads the byte.
abbrev holding : System
holding = record committed {
  queue = record committed.queue { cached_w = 1 };
  w_log = [];
  consumer = reading 0 0;
}

abbrev read_one : System
read_one = record holding {
  queue = commit_read holding.queue 1;
  r_log = 1 ∷ [];
  consumer = waiting;
  received = (7 ∷ []) ∷ [];
}

abbrev logged_first : Concurrent
logged_first = with_channel (with_channel (with_channel visited_node reserved) written) committed

logged_first-Reach : ConcurrentReach bytes_framing logged_first
unfolding create bit_ceil reserve_write commit_write
logged_first-Reach =
    and_then
      (and_then
        (and_then visited_node-Reach (pushes 7 {t = reserved} (reserve 1 [] [] refl refl) tt refl))
        (pushes 7 {t = written} (write 0 1 1 [] (7 ∷ []) refl (omega arith)) tt refl))
      (pushes 7 {t = committed} (commit 0 1 1 (7 ∷ []) refl refl refl) tt refl)

abbrev found_one : Concurrent
found_one = record (with_channel logged_first holding) { phase = found_event }

abbrev after_one : Concurrent
after_one = record (with_channel found_one read_one) { phase = done }

found_one-Reach : ConcurrentReach bytes_framing found_one
unfolding create bit_ceil commit_write reserve_read
found_one-Reach = and_then logged_first-Reach (looks 7 (1 ∷ []) [] refl refl refl refl)

after_one-Reach : ConcurrentReach bytes_framing after_one
unfolding create bit_ceil commit_write commit_read load blit
after_one-Reach = and_then found_one-Reach (reads 7 0 0 (7 ∷ []) refl refl refl refl)

each_in_order_example : (rest : List Bytes) × ((7 ∷ []) ∷ [] ≡ (7 ∷ []) ∷ [] ++ rest)
each_in_order_example = each_in_order bytes_framing after_one-Reach 7

-- The thread ends, and the backend finds it dead.
abbrev lost_message : Concurrent
lost_message = record logged {
  contexts = update logged.contexts 7 (record (logged.contexts 7) { is_alive = false });
  phase = dead;
}

lost_message-Reach : ConcurrentReach bytes_framing lost_message
unfolding create bit_ceil commit_write
lost_message-Reach = and_then (and_then logged-Reach (ends 7 refl)) (finds_dead 7 refl refl refl)

removal_loses_unseen_example :
    ((lost_message.contexts 7).is_alive ≡ false)
    × ((lost : List Bytes) × ((7 ∷ []) ∷ [] ≡ [] ++ lost) × (length lost ≡ 1))
removal_loses_unseen_example = removal_loses_unseen bytes_framing lost_message-Reach 7 refl refl
