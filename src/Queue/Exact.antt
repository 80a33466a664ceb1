-- ===== src/Queue/Exact.antt =====
-- The answers of include/papper/detail/queue.h when a load shows the newest store, as when one thread
-- does both ends.
use papper.Common.{
  ℕ, ◌+◌, ◌≤◌, ◌<◌, ◌≡◌, sym, ap, ◌∙◌, subst, ◌↔◌, ◌⊎◌, inl, inr, none, List, [], ◌∷◌, ◌++◌,
  append-nil, arith, ltb, leb_of_ltb, Bool-cases, u64,
}
use papper.Memory.{Bytes}
use papper.Queue.{Queue, WriteReservation, free_space, reserve_write, ReadReservation, reserve_read}
use papper.Queue.Ring.{total}
use papper.Queue.Invariant.{View, pending, IsValid}
use papper.Queue.Producer.{
  free_space_lem, reserved_at, Refused, Granted, look_r, reserve_write_lem, reserve_write_queue,
}
use papper.Queue.Consumer.{
  read_at, look_w, Nothing, Message, reserve_read_lem, pending-look_w, nothing_pending,
}

-- `reserve_read` whose load shows the newest store answers nullptr exactly if nothing is pending.
reserve_read_exact :
    {q : Queue} {v : View}
    → IsValid q v
    → ((reserve_read q.atomic_w q).1.buffer ≡ none) ↔ (pending v ≡ [])
reserve_read_exact {q} {v} i = (there, back)
  where
    newest : q.atomic_w ≡ u64 (v.start + total (v.seen ++ v.unseen))
    newest = i.w_published ∙ i.w_pos

    all : v.unseen ≡ v.unseen ++ []
    all = sym (append-nil v.unseen)

    out : Queue × ReadReservation
    out = reserve_read (u64 (v.start + total (v.seen ++ v.unseen))) q

    answer : Nothing (look_w q v v.unseen []) out ⊎ Message (look_w q v v.unseen []) out
    answer = (reserve_read_lem v.unseen [] i all).1

    Answer : ℕ → Type 0
    Answer loaded = (reserve_read loaded q).1.buffer ≡ none

    there : (reserve_read q.atomic_w q).1.buffer ≡ none → pending v ≡ []
    there h = elim answer [
      | inl (_, none_seen) ↦ nothing_pending v.unseen i all none_seen
      | inr (m, ms, e, at) ↦ absurd (some_not_none at (subst Answer newest h))
    ]
      where
        some_not_none : out.1 ≡ read_at out.0 (look_w q v v.unseen []) → out.1.buffer ≡ none → ⊥
        some_not_none at h' = cc

    back : pending v ≡ [] → (reserve_read q.atomic_w q).1.buffer ≡ none
    back h = subst Answer (sym newest) (elim answer [
      | inl (none_here, _) ↦ none_here
      | inr (m, ms, e, at) ↦ absurd (
          cons_not_nil m ms (look_w q v v.unseen []).unseen (
            ap (λ (l : List Bytes). l ++ (look_w q v v.unseen []).unseen) (sym e)
            ∙ pending-look_w v.unseen [] i all
            ∙ h))
    ])
      where
        cons_not_nil : (m : Bytes) (ms ns : List Bytes) → (m ∷ ms) ++ ns ≡ [] → ⊥
        cons_not_nil m ms ns e = cc

-- `reserve_write` whose load, if it makes one, shows the newest store answers nullptr exactly if the
-- message does not fit beside all that is pending.
pub reserve_write_exact :
    {q : Queue} {v : View} (size : ℕ)
    → IsValid q v
    → ((reserve_write q.atomic_r q size).1.buffer ≡ none) ↔ (q.capacity < total (pending v) + size)
reserve_write_exact {q} {v} size i = (there, back)
  where
    newest : q.atomic_r ≡ u64 v.start
    newest = i.r_published ∙ i.r_pos

    Answer : ℕ → Type 0
    Answer loaded = (reserve_write loaded q size).1.buffer ≡ none

    out : Queue × WriteReservation
    out = reserve_write (u64 v.start) q size

    u : View
    u = look_r q v v.start size

    lem : IsValid out.0 u × (Refused u size out ⊎ Granted u size out)
    lem = reserve_write_lem v.start size i i.cached_old (omega arith)

    same_capacity : out.0.capacity ≡ q.capacity
    same_capacity = ap (λ (x : Queue). x.capacity) (reserve_write_queue (u64 v.start) q size)

    -- Without a load the message fits even behind the older position.
    full : Refused u size out → q.capacity < total (pending v) + size
    full (e, less) = elim (Bool-cases (ltb (free_space q) size)) [
      | inl loads ↦ omega (arith, same_capacity, rw loads at less)
      | inr fits ↦
          omega
            (arith, leb_of_ltb _ _ fits, free_space_lem i, i.room, same_capacity, rw fits at less)
    ]

    enough : Granted u size out → total (pending v) + size ≤ q.capacity
    enough (e, le) = elim (Bool-cases (ltb (free_space q) size)) [
      | inl loads ↦ omega (arith, same_capacity, rw loads at le)
      | inr fits ↦ omega (arith, same_capacity, i.cached_old, rw fits at le)
    ]

    there :
        (reserve_write q.atomic_r q size).1.buffer ≡ none → q.capacity < total (pending v) + size
    there h = elim lem.1 [
      | inl refused ↦ full refused
      | inr granted ↦ absurd (some_not_none granted.0 (subst Answer newest h))
    ]
      where
        some_not_none : out.1 ≡ reserved_at out.0 u size → out.1.buffer ≡ none → ⊥
        some_not_none at h' = cc

    back : q.capacity < total (pending v) + size → (reserve_write q.atomic_r q size).1.buffer ≡ none
    back h = subst Answer (sym newest) (elim lem.1 [
      | inl refused ↦ ap (λ (r : WriteReservation). r.buffer) refused.0
      | inr granted ↦ absurd (omega (arith, enough granted))
    ])
