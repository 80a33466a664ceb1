-- ===== src/Queue/Spsc/Unseen.antt =====
-- What a consumer that found no message has not seen of the queue of include/papper/detail/queue.h.
use papper.Common.{
  ℕ, suc, ◌+◌, ◌^◌, ◌≤◌, ◌≡◌, refl, sym, ap, ◌∙◌, inl, inr, none, List, [], ◌∷◌, ◌++◌, arith,
  length,
}
use papper.Memory.{Bytes}
use papper.Queue.{Queue, reserve_write, commit_write, is_empty, reserve_read}
use papper.Queue.Ring.{total, total-append}
use papper.Queue.Invariant.{pending}
use papper.Queue.Consumer.{nonempty_total}
use papper.Queue.Spsc.{Framing, System, latest, Step, reserve, write, commit, look, receive, Reach}
use papper.Queue.Spsc.Logs.{ends}
use papper.Queue.Spsc.Invariant.{Inv}
use papper.Queue.Spsc.Fifo.{Reach-Inv}

-- The consumer knows of no message.
abbrev pub SeesNone : System → Type 0
SeesNone s = s.queue.cached_w ≡ s.queue.r

pub reserve_read-SeesNone :
    (loaded : ℕ) (q : Queue)
    → (reserve_read loaded q).1.buffer ≡ none
    → (reserve_read loaded q).0.cached_w ≡ (reserve_read loaded q).0.r
unfolding reserve_read is_empty
reserve_read-SeesNone loaded q h = ground arith

length-ends : (p : ℕ) (ms : List Bytes) → length (ends p ms) ≡ length ms
length-ends p [] = refl
length-ends p (m ∷ ms) = ap suc (length-ends (p + length m) ms)

-- The steps of the producer.
abbrev pub ByProducer : {F : Framing} {s t : System} → Step F s t → Type 0
ByProducer (reserve size passed rest free split) = Unit {0}
ByProducer (write j pos size done bs holds fits) = Unit {0}
ByProducer (commit j pos size m holds full ok) = Unit {0}
ByProducer (look passed rest free split) = ⊥
ByProducer (receive j pos m holds loaded) = ⊥

reserve_write-consumer :
    (loaded : ℕ) (q : Queue) (size : ℕ)
    → ((reserve_write loaded q size).0.cached_w ≡ q.cached_w)
      × ((reserve_write loaded q size).0.r ≡ q.r)
unfolding reserve_write
reserve_write-consumer loaded q size = (ground arith, ground arith)

pub ByProducer-SeesNone :
    {F : Framing} {s t : System} (st : Step F s t) → ByProducer st → SeesNone s → SeesNone t
unfolding commit_write
ByProducer-SeesNone {F} {s} (reserve size passed rest free split) by h =
    let (e, f) = reserve_write-consumer (latest s.queue.cached_r passed) s.queue size in
    e ∙ h ∙ sym f
ByProducer-SeesNone (write j pos size done bs holds fits) by h = h
ByProducer-SeesNone (commit j pos size m holds full ok) by h = h
ByProducer-SeesNone (look passed rest free split) by h = absurd by
ByProducer-SeesNone (receive j pos m holds loaded) by h = absurd by

module _ (F : Framing) where
  -- In every reachable state in which the consumer knows of no message, the messages it has not read
  -- are as many as the stores of the producer that its last load did not show.
  pub unread_unseen :
      {n : ℕ} {s : System}
      → n ≤ 2 ^ 62
      → Reach F n s
      → SeesNone s
      → (unread : List Bytes) × (s.sent ≡ s.received ++ unread) × (length unread ≡ length s.w_log)
  unread_unseen {n} {s} small r none_known = (
    pending i.view,
    i.fifo,
    ap length (ap (λ (l : List Bytes). l ++ i.view.unseen) nothing_seen)
        ∙ sym (length-ends (i.view.start + total i.view.seen) i.view.unseen)
        ∙ sym (ap length i.w_logged),
  )
    where
      i : Inv F s
      i = Reach-Inv F small r

      nothing_seen : i.view.seen ≡ []
      nothing_seen = elim (nonempty_total i.view.seen i.view.unseen i.valid.nonempty) [
        | inl e ↦ e
        | inr pos ↦ absurd (
            omega (
              arith,
              none_known,
              i.valid.cached_w_pos,
              i.valid.r_pos,
              i.valid.room,
              i.valid.cached_old,
              i.valid.capacity_small,
              total-append i.view.seen i.view.unseen,
              pos,
            ))
      ]
