-- ===== src/Event/Push.antt =====
-- `push_log_event` (include/papper/detail/core.h) on a queue whose state is known.
use papper.Common.{
  ℕ, ◌+◌, ◌%◌, ◌≤◌, ◌≡◌, sym, ap, ◌∙◌, subst, ◌⊎◌, inl, inr, some, List, [], ◌∷◌, ◌++◌,
  append_assoc, arith, length, u64,
}
use papper.Memory.{Bytes, blit, Holds-blit}
use papper.Queue.{Queue, WriteReservation, reserve_write, commit_write}
use papper.Queue.Ring.{total}
use papper.Queue.Invariant.{View, pending, end_pos, IsValid}
use papper.Queue.Producer.{
  Refused, Granted, look_r, reserve_write_lem, blit-IsValid, publish, commit_write-IsValid,
  reserve_write_queue,
}
use papper.Queue.Exact.{reserve_write_exact}
use papper.Codec.{Value}
use papper.Event.{fill_reservation, push_log_event}
use papper.Event.RoundTrip.{write_event_lem}
use papper.Event.Protocol.{length-event_bytes, Call, header, published, requested}
use native.Mathlib.Nat.{mod-lt}

module _ {static_data thread_name timestamp : ℕ} {args : List Value}
    (c : Call static_data thread_name timestamp args) where
  -- A queue that holds what `v` does and the event of the call.
  abbrev pub Appended : View → Queue → Type 0
  Appended v q = (v' : View) × IsValid q v' × (pending v' ≡ pending v ++ published c ∷ [])

  filled :
      {q : Queue} {v : View}
      → IsValid q v
      → end_pos v + length (published c) ≤ v.cached + q.capacity
      → Appended v (
          fill_reservation q
            (some (end_pos v % q.capacity))
            (u64 (end_pos v + length (published c)))
            (header c)
            args)
  filled {q} {v} i room =
      subst
        (λ (b : Bytes).
          Appended v
            (commit_write (record q { buffer = b }) (u64 (end_pos v + length (published c)))))
        (sym (write_event_lem q.buffer (end_pos v % q.capacity) (header c) args c.values))
        (publish v (published c), valid, sym (append_assoc v.seen v.unseen (published c ∷ [])))
    where
      at : ℕ
      at = end_pos v % q.capacity

      plus_zero : at + 0 ≡ at
      plus_zero = omega arith

      copied : IsValid (record q { buffer = blit q.buffer at (published c) }) v
      copied =
          subst (λ (k : ℕ). IsValid (record q { buffer = blit q.buffer k (published c) }) v)
            plus_zero (blit-IsValid 0 (published c) i (omega arith))

      valid :
          IsValid
            (commit_write
              (record q { buffer = blit q.buffer at (published c) })
              (u64 (end_pos v + length (published c))))
            (publish v (published c))
      valid =
          commit_write-IsValid (published c) copied
            (omega (arith, length-event_bytes (header c) args)) room
            (Holds-blit q.buffer at (published c)
              (omega (arith, i.storage, i.cached_old, mod-lt (end_pos v) i.capacity_pos)))

  -- On a valid queue, with a load that shows the newest store: an event that fits beside what is
  -- pending becomes the last pending message.
  pub push_log_event-Appended :
      {q : Queue} {v : View}
      → IsValid q v
      → total (pending v) + length (published c) ≤ q.capacity
      → Appended v (push_log_event q.atomic_r timestamp q static_data thread_name args)
  unfolding push_log_event
  push_log_event-Appended {q} {v} i room = rw (requested c) (go out.0 out.1 lem.0 lem.1)
    where
      size : ℕ
      size = length (published c)

      newest : q.atomic_r ≡ u64 v.start
      newest = i.r_published ∙ i.r_pos

      out : Queue × WriteReservation
      out = reserve_write q.atomic_r q size

      u : View
      u = look_r q v v.start size

      Answer : ℕ → Type 0
      Answer loaded =
          let o = reserve_write loaded q size in
          IsValid o.0 u × (Refused u size o ⊎ Granted u size o)

      same_capacity : out.0.capacity ≡ q.capacity
      same_capacity = ap (λ (x : Queue). x.capacity) (reserve_write_queue q.atomic_r q size)

      lem : IsValid out.0 u × (Granted u size out)
      lem =
          let l' : Answer q.atomic_r =
            subst Answer (sym newest)
              (reserve_write_lem v.start size i i.cached_old (omega arith)) in
          (
            l'.0,
            elim l'.1 [
              | inl refused ↦ absurd (
                  omega (
                    arith,
                    (reserve_write_exact size i).0
                        (ap (λ (r : WriteReservation). r.buffer) refused.0),
                  ))
              | inr granted ↦ granted
            ],
          )

      go :
          (q' : Queue) (res : WriteReservation)
          → IsValid q' u
          → Granted u size (q', res)
          → Appended v (fill_reservation q' res.buffer res.new_write_pos (header c) args)
      go q' res i' (e, le) = rw e (filled i' le)
