-- ===== src/Queue/Spsc/Fifo.antt =====
-- What the queue of include/papper/detail/queue.h promises to its two threads.
use papper.Common.{
  ℕ, ◌+◌, ◌^◌, ◌≤◌, ◌≡◌, sym, ap, ◌∙◌, subst, ◌⊎◌, inl, inr, some, List, [], ◌∷◌, ◌++◌, append-nil,
  arith, length, u64,
}
use papper.Memory.{Bytes, load, Holds}
use papper.Queue.{Queue, ReadReservation, reserve_read}
use papper.Queue.Ring.{total, total-append}
use papper.Queue.Invariant.{View, pending, end_pos, IsValid}
use papper.Queue.Consumer.{read_at, look_w, Nothing, Message, reserve_read_lem, nothing_pending}
use papper.Queue.Spsc.{
  Framing, Producer, writing, waiting, reading, System, latest, begin_read, after_reserve_read,
  Step, reserve, write, commit, look, receive, Reach, start, later,
}
use papper.Queue.Spsc.Logs.{ends-nil, Passed, ends-Passed}
use papper.Queue.Spsc.Invariant.{ProducerOk, Inv, Inv-init}
use papper.Queue.Spsc.ProducerSteps.{reserve-Inv, write-Inv, commit-Inv}
use papper.Queue.Spsc.ConsumerSteps.{look-Inv, first_held, read_first, receive-Inv}
use native.Mathlib.Nat.{mod-lt}

module _ (F : Framing) where
  open F use {frame, IsMessage}

  Step-Inv : {s t : System} → Step F s t → Inv F s → Inv F t
  Step-Inv (reserve size passed rest free split) i = reserve-Inv F size passed rest i free split
  Step-Inv (write j pos size done bs at fits) i = write-Inv F j pos size done bs i at fits
  Step-Inv (commit j pos size m at full ok) i = commit-Inv F j pos size m i at full ok
  Step-Inv (look passed rest free split) i = look-Inv F passed rest i free split
  Step-Inv (receive j pos m at loaded) i = receive-Inv F j pos m i at loaded

  pub Reach-Inv : {n : ℕ} {s : System} → n ≤ 2 ^ 62 → Reach F n s → Inv F s
  Reach-Inv {n} small start = Inv-init F n small
  Reach-Inv small (later r st) = Step-Inv st (Reach-Inv small r)

  -- In every reachable state of a queue of at most 2 ^ 62 bytes, under every interleaving and every
  -- admissible stale load, the messages read so far are the first of those committed, in order and
  -- byte for byte.
  pub received-IsPrefix :
      {n : ℕ} {s : System}
      → n ≤ 2 ^ 62
      → Reach F n s
      → (rest : List Bytes) × (s.sent ≡ s.received ++ rest)
  received-IsPrefix small r = let i = Reach-Inv small r in (pending i.view, i.fifo)

  -- In every reachable state of a queue of at most 2 ^ 62 bytes in which the consumer holds a
  -- pointer, the bytes there, of the length that the framing reads there, are inside the buffer and
  -- are the next committed message that has not been read.
  pub read-next :
      {n : ℕ} {s : System} (j pos : ℕ)
      → n ≤ 2 ^ 62
      → Reach F n s
      → s.consumer ≡ reading j pos
      → (m : Bytes) × (rest : List Bytes) × (load s.queue.buffer j (frame s.queue.buffer j)
          ≡ some m)
        × (s.sent ≡ s.received ++ m ∷ rest)
  read-next {s} j pos small r at =
      let i : Inv F s = Reach-Inv small r in
      let (m, ms, e, _, _, reads) = read_first F j pos i at in
      (
        m,
        ms ++ i.view.unseen,
        reads,
        i.fifo ∙ ap (λ (l : List Bytes). s.received ++ (l ++ i.view.unseen)) e,
      )

  -- The same with the message as it lies in the buffer.
  pub next_held :
      {n : ℕ} {s : System} (j pos : ℕ)
      → n ≤ 2 ^ 62
      → Reach F n s
      → s.consumer ≡ reading j pos
      → (m : Bytes) × (rest : List Bytes) × Holds s.queue.buffer j m
        × IsMessage m
        × (s.sent ≡ s.received ++ m ∷ rest)
  next_held {s} j pos small r at =
      let i : Inv F s = Reach-Inv small r in
      let (m, ms, e, _, there, message) = first_held F j pos i at in
      (
        m,
        ms ++ i.view.unseen,
        there,
        message,
        i.fifo ∙ ap (λ (l : List Bytes). s.received ++ (l ++ i.view.unseen)) e,
      )

  -- In every reachable state of a queue of at most 2 ^ 62 bytes, a reservation lies inside the
  -- buffer in one piece.
  pub reservation_in_bounds :
      {n : ℕ} {s : System} (j pos size : ℕ) (done : Bytes)
      → n ≤ 2 ^ 62
      → Reach F n s
      → s.producer ≡ writing j pos size done
      → j + size ≤ length s.queue.buffer
  reservation_in_bounds {s} j pos size done small r at = omega (
    arith,
    ok.0,
    ok.2,
    i.valid.storage,
    i.valid.cached_old,
    mod-lt (end_pos i.view) i.valid.capacity_pos,
  )
    where
      i : Inv F s
      i = Reach-Inv small r

      ok :
          ProducerOk s.queue.capacity s.queue.buffer
            (end_pos i.view)
            i.view.cached
            (writing j pos size done)
      ok =
          subst
            (λ (x : Producer).
              ProducerOk s.queue.capacity s.queue.buffer (end_pos i.view) i.view.cached x)
            at i.producing

  -- In every reachable state of a queue of at most 2 ^ 62 bytes whose consumer waits: if it asks for
  -- a message, its load shows the newest store, and it gets none, then it has read all that was
  -- committed.
  pub drained :
      {n : ℕ} {s : System}
      → n ≤ 2 ^ 62
      → Reach F n s
      → s.consumer ≡ waiting
      → (after_reserve_read s s.w_log []).consumer ≡ waiting
      → s.sent ≡ s.received
  drained {s} small r free none_left = elim lem.1 [
    | inl (_, none_seen) ↦
        i.fifo
        ∙ ap (λ (l : List Bytes). s.received ++ l)
            (nothing_pending p.more i.valid
              (p.split ∙ ap (λ (l : List Bytes). p.more ++ l) no_others)
              (subst (λ (l : List Bytes). (look_w s.queue i.view p.more l).seen ≡ []) no_others
                none_seen))
        ∙ append-nil s.received
    | inr (m, ms, e, at) ↦ absurd (still_reading at (rw loaded at none_left))
  ]
    where
      i : Inv F s
      i = Reach-Inv small r

      p : Passed (i.view.start + total i.view.seen) i.view.unseen s.w_log []
      p =
          ends-Passed (i.view.start + total i.view.seen) i.view.unseen s.w_log []
            (sym i.w_logged ∙ sym (append-nil s.w_log))

      no_others : p.others ≡ []
      no_others = ends-nil (i.view.start + total i.view.seen + total p.more) p.others p.left

      loaded : latest s.queue.cached_w s.w_log ≡ u64 (i.view.start + total (i.view.seen ++ p.more))
      loaded =
          ap (λ (x : ℕ). latest x s.w_log) i.valid.cached_w_pos
          ∙ p.shows
          ∙ ap u64 (omega (arith, total-append i.view.seen p.more))

      out : Queue × ReadReservation
      out = reserve_read (u64 (i.view.start + total (i.view.seen ++ p.more))) s.queue

      v : View
      v = look_w s.queue i.view p.more p.others

      lem : IsValid out.0 v × (Nothing v out ⊎ Message v out)
      lem = reserve_read_lem p.more p.others i.valid p.split

      still_reading : out.1 ≡ read_at out.0 v → begin_read out.1 ≡ waiting → ⊥
      still_reading at h = cc
