-- ===== src/Queue/Tests.antt =====
-- Runs of the queue of include/papper/detail/queue.h, and its theorems at concrete inputs.
use papper.Common.{ℕ, ◌+◌, ◌≤◌, ◌≡◌, refl, sym, List, [], ◌∷◌, ◌++◌, arith, length}
use papper.Memory.{Bytes, blit, load}
use papper.Queue.{bit_ceil, create, reserve_write, commit_write, reserve_read, commit_read}
use papper.Queue.Spsc.{
  Framing, writing, waiting, reading, System, reserve, write, commit, look, receive, init, Reach,
  start, later,
}
use papper.Queue.Spsc.Fifo.{received-IsPrefix, reservation_in_bounds, drained}

-- Messages of one byte.
abbrev bytes_framing : Framing
bytes_framing = record {
  IsMessage = λ (m : Bytes). length m ≡ 1;
  frame = λ (memory : Bytes) (p : ℕ). 1;
  nonempty = λ (m : Bytes) h. (omega (arith, h));
  frame_lem = λ (memory : Bytes) (p : ℕ) (m : Bytes) h there. sym h;
}

-- A queue of four bytes, in which the byte 7 is reserved, written, committed and read.
abbrev reserved : System
reserved = record (init bytes_framing 4) { producer = writing 0 1 1 [] }

abbrev committed : System
committed = record (init bytes_framing 4) {
  queue = commit_write (record (create 4) { buffer = blit (create 4).buffer 0 (7 ∷ []) }) 1;
  w_log = 1 ∷ [];
  sent = (7 ∷ []) ∷ [];
}

abbrev holding : System
holding = record committed {
  queue = record committed.queue { cached_w = 1 };
  w_log = [];
  consumer = reading 0 0;
}

abbrev read_all : System
read_all = record holding {
  queue = commit_read holding.queue 1;
  r_log = 1 ∷ [];
  consumer = waiting;
  received = (7 ∷ []) ∷ [];
}

reserved-Reach : Reach bytes_framing 4 reserved
unfolding create bit_ceil reserve_write
reserved-Reach = later start (reserve 1 [] [] refl refl)

committed-Reach : Reach bytes_framing 4 committed
unfolding create bit_ceil commit_write
committed-Reach =
    later (later reserved-Reach (write 0 1 1 [] (7 ∷ []) refl (omega arith)))
      (commit 0 1 1 (7 ∷ []) refl refl refl)

holding-Reach : Reach bytes_framing 4 holding
unfolding create bit_ceil commit_write reserve_read
holding-Reach = later committed-Reach (look (1 ∷ []) [] refl refl)

read_all-Reach : Reach bytes_framing 4 read_all
unfolding create bit_ceil commit_write commit_read load blit
read_all-Reach = later holding-Reach (receive 0 0 (7 ∷ []) refl refl)

received-IsPrefix_example : (rest : List Bytes) × ((7 ∷ []) ∷ [] ≡ (7 ∷ []) ∷ [] ++ rest)
received-IsPrefix_example = received-IsPrefix bytes_framing (omega arith) read_all-Reach

reservation_in_bounds_example : 0 + 1 ≤ length (create 4).buffer
reservation_in_bounds_example =
    reservation_in_bounds bytes_framing 0 1 1 [] (omega arith) reserved-Reach refl

drained_example : read_all.sent ≡ read_all.received
unfolding create bit_ceil commit_write commit_read reserve_read
drained_example = drained bytes_framing (omega arith) read_all-Reach refl refl
