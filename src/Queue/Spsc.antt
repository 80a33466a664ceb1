-- ===== src/Queue/Spsc.antt =====
-- One producer and one consumer on a queue of include/papper/detail/queue.h, interleaved in any
-- order and with release/acquire visibility: an acquire load returns any value that the other
-- thread has stored, but none older than the one that it returned before.
pub mod Invariant
pub mod ProducerSteps
pub mod ConsumerSteps
pub mod Fifo
pub mod Unseen
pub mod Logs
use papper.Common.{
  ℕ, ◌+◌, ◌≤◌, ◌<◌, ◌≡◌, none, some, List, [], ◌∷◌, ◌++◌, ltb, leb, if◌then◌else◌, length, add64,
}
use papper.Memory.{Bytes, blit, load, Holds}
use papper.Queue.{
  Queue, create, WriteReservation, free_space, reserve_write, commit_write, ReadReservation,
  reserve_read, commit_read,
}

-- What the queue's clients agree on: which byte strings are messages, and how the consumer learns
-- the size of the one that it points at.
pub record Framing : Type 1 where
  pub IsMessage : Bytes → Type 0
  pub frame : Bytes → ℕ → ℕ
  pub nonempty : (m : Bytes) → IsMessage m → 0 < length m
  pub frame_lem :
      (buf : Bytes) (i : ℕ) (m : Bytes) → IsMessage m → Holds buf i m → frame buf i ≡ length m

-- Between `reserve_write` and `commit_write` the producer has a pointer, the position to commit, the
-- size that it asked for, and has written some bytes.
pub data Producer : Type 0 where
  idle : Producer
  writing : (index new_write_pos size : ℕ) (written : Bytes) → Producer

-- Between `reserve_read` and `commit_read` the consumer has a pointer and its position.
pub data Consumer : Type 0 where
  waiting : Consumer
  reading : (index current_read_pos : ℕ) → Consumer

-- `w_log` are the values stored in `_atomic_w` since the one that the consumer has loaded last,
-- oldest first; `r_log` those stored in `_atomic_r` since the one that the producer has loaded last.
pub record System : Type 0 where
  pub queue : Queue
  pub w_log : List ℕ
  pub r_log : List ℕ
  pub producer : Producer
  pub consumer : Consumer
  pub sent : List Bytes
  pub received : List Bytes

-- The value that a load returns when it passes over the stores `log`.
abbrev pub latest : ℕ → List ℕ → ℕ
latest x [] = x
latest x (y ∷ log) = latest y log

abbrev pub begin_write : WriteReservation → ℕ → Producer
begin_write res size = elim res.buffer [
  | none ↦ idle
  | some i ↦ writing i res.new_write_pos size []
]

abbrev pub begin_read : ReadReservation → Consumer
begin_read res = elim res.buffer [ none ↦ waiting | some i ↦ reading i res.current_read_pos ]

abbrev pub after_reserve_write : System → ℕ → List ℕ → List ℕ → System
after_reserve_write s size passed rest =
    let (q, res) = reserve_write (latest s.queue.cached_r passed) s.queue size in
    record s {
      queue = q;
      r_log = if ltb (free_space s.queue) size then rest else s.r_log;
      producer = begin_write res size;
    }

abbrev pub after_reserve_read : System → List ℕ → List ℕ → System
after_reserve_read s passed rest =
    let (q, res) = reserve_read (latest s.queue.cached_w passed) s.queue in
    record s {
      queue = q;
      w_log = if leb s.queue.cached_w s.queue.r then rest else s.w_log;
      consumer = begin_read res;
    }

module _ (F : Framing) where
  open F use {IsMessage, frame}

  pub data Step (s : System) : System → Type 0 where
    reserve :
        (size : ℕ) (passed rest : List ℕ)
        → s.producer ≡ idle
        → s.r_log ≡ passed ++ rest
        → Step s (after_reserve_write s size passed rest)
    write :
        (i pos size : ℕ) (done bs : Bytes)
        → s.producer ≡ writing i pos size done
        → length done + length bs ≤ size
        → Step s (record s {
          queue = record s.queue { buffer = blit s.queue.buffer (i + length done) bs };
          producer = writing i pos size (done ++ bs);
        })
    commit :
        (i pos size : ℕ) (m : Bytes)
        → s.producer ≡ writing i pos size m
        → length m ≡ size
        → IsMessage m
        → Step s (record s {
          queue = commit_write s.queue pos;
          w_log = s.w_log ++ pos ∷ [];
          producer = idle;
          sent = s.sent ++ m ∷ [];
        })
    look :
        (passed rest : List ℕ)
        → s.consumer ≡ waiting
        → s.w_log ≡ passed ++ rest
        → Step s (after_reserve_read s passed rest)
    receive :
        (i pos : ℕ) (m : Bytes)
        → s.consumer ≡ reading i pos
        → load s.queue.buffer i (frame s.queue.buffer i) ≡ some m
        → Step s (record s {
          queue = commit_read s.queue (add64 pos (frame s.queue.buffer i));
          r_log = s.r_log ++ add64 pos (frame s.queue.buffer i) ∷ [];
          consumer = waiting;
          received = s.received ++ m ∷ [];
        })

  abbrev pub init : ℕ → System
  init capacity = record {
    queue = create capacity;
    w_log = [];
    r_log = [];
    producer = idle;
    consumer = waiting;
    sent = [];
    received = [];
  }

  pub data Reach (capacity : ℕ) : System → Type 0 where
    start : Reach capacity (init capacity)
    later : {s t : System} → Reach capacity s → Step s t → Reach capacity t
