-- ===== src/Event/Accept.antt =====
-- Whether `push_log_event` (include/papper/detail/core.h) keeps its event or drops it.
use papper.Common.{
  ℕ, ◌+◌, ◌≤◌, ◌≡◌, refl, sym, ap, ◌∙◌, subst, ◌⊎◌, inl, inr, Bool, true, false, Option, none, some,
  List, arith, ltb, ltb→lt, leb_of_ltb, Bool-cases, Option-cases, length, add64,
}
use papper.Queue.{Queue, WriteReservation, reserve_write}
use papper.Queue.Ring.{total}
use papper.Queue.Invariant.{View, pending, IsValid}
use papper.Queue.Producer.{look_r, reserve_write_lem}
use papper.Queue.Exact.{reserve_write_exact}
use papper.Codec.{Value, encoded_size_all}
use papper.Event.{header_size, push_log_event}
use papper.Event.Protocol.{Call, published, requested}
use papper.Event.Push.{Appended, push_log_event-Appended}

abbrev is_granted : Option ℕ → Bool
is_granted none = false
is_granted (some i) = true

-- The test of the reservation in `push_log_event`, its load showing the newest store.
unfoldable pub is_accepted : Queue → List Value → Bool
is_accepted q args =
    is_granted (reserve_write q.atomic_r q (add64 (encoded_size_all args) header_size)).1.buffer

module _ {static_data thread_name timestamp : ℕ} {args : List Value}
    (c : Call static_data thread_name timestamp args) where
  -- A queue that holds what `v` does.
  abbrev Kept : View → Queue → Type 0
  Kept v q = (v' : View) × IsValid q v' × (pending v' ≡ pending v)

  abbrev call : Queue → Queue
  call q = push_log_event q.atomic_r timestamp q static_data thread_name args

  abbrev reservation : Queue → Queue × WriteReservation
  reservation q = reserve_write q.atomic_r q (add64 (encoded_size_all args) header_size)

  dropped : (q : Queue) (v : View) → IsValid q v → (reservation q).1.buffer ≡ none → Kept v (call q)
  unfolding push_log_event
  dropped q v i e = rw e (look_r q v v.start size, valid, refl)
    where
      size : ℕ
      size = add64 (encoded_size_all args) header_size

      valid : IsValid (reservation q).0 (look_r q v v.start size)
      valid =
          subst (λ (loaded : ℕ). IsValid (reserve_write loaded q size).0 (look_r q v v.start size))
            (sym (i.r_published ∙ i.r_pos))
            (reserve_write_lem v.start size i i.cached_old (omega arith)).0

  -- The event is accepted and becomes the last pending message, or it is not, and the queue holds what
  -- it did.
  pub push_log_event-cases :
      (q : Queue) (v : View)
      → IsValid q v
      → ((is_accepted q args ≡ true) × Appended c v (call q))
        ⊎ ((is_accepted q args ≡ false) × Kept v (call q))
  unfolding is_accepted
  push_log_event-cases q v i = elim (Option-cases (reservation q).1.buffer) [
    | inl e ↦ inr (ap is_granted e, dropped q v i e)
    | inr (j, e) ↦ inl (ap is_granted e, push_log_event-Appended c i (room j e))
  ]
    where
      room :
          (j : ℕ)
          → (reservation q).1.buffer ≡ some j
          → total (pending v) + length (published c) ≤ q.capacity
      room j e = elim (Bool-cases (ltb q.capacity (total (pending v) + length (published c)))) [
        | inl over ↦ absurd (
            some_ne_none j (
              sym e
              ∙ ap (λ (n : ℕ). (reserve_write q.atomic_r q n).1.buffer) (requested c)
              ∙ (reserve_write_exact (length (published c)) i).1 (ltb→lt _ _ over)))
        | inr fits ↦ leb_of_ltb _ _ fits
      ]
        where
          some_ne_none : (k : ℕ) → some k ≡ none → ⊥
          some_ne_none k x = cc
