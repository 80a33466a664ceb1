-- ===== src/Queue/Sequential.antt =====
-- One read of the queue (include/papper/detail/queue.h) whose load shows the newest store.
use papper.Common.{
  ℕ, ◌+◌, ◌%◌, ◌≡◌, sym, ap, ◌∙◌, subst, ◌⊎◌, inl, inr, none, some, List, [], ◌∷◌, ◌++◌, append-nil,
  length, u64,
}
use papper.Memory.{Bytes, Holds}
use papper.Queue.{Queue, ReadReservation, reserve_read, commit_read}
use papper.Queue.Invariant.{View, pending, IsValid}
use papper.Queue.Consumer.{
  look_w, Nothing, Message, reserve_read_lem, consume, commit_read-IsValid, pending-look_w,
  nothing_pending,
}

-- A valid queue with these messages, oldest first.
abbrev pub Pending : Queue → List Bytes → Type 0
Pending q ms = (v : View) × IsValid q v × (pending v ≡ ms)

-- What a read finds when `m` is the first message: the place where it lies, and the queue behind it.
pub record FirstRead (m : Bytes) (ms : List Bytes) (q : Queue) (res : ReadReservation)
    : Type 0 where
  pub index : ℕ
  pub position : ℕ
  pub answer : res ≡ record { buffer = some index; current_read_pos = u64 position }
  pub there : Holds q.buffer index m
  pub committed : Pending (commit_read q (u64 (position + length m))) ms

module _ {q : Queue} {v : View} (i : IsValid q v) where
  abbrev Answer : ℕ → Type 0
  Answer loaded =
      let o = reserve_read loaded q in
      let u = look_w q v v.unseen [] in IsValid o.0 u × (Nothing u o ⊎ Message u o)

  all_seen : v.unseen ≡ v.unseen ++ []
  all_seen = sym (append-nil v.unseen)

  answer : Answer q.atomic_w
  answer = subst Answer (sym (i.w_published ∙ i.w_pos)) (reserve_read_lem v.unseen [] i all_seen)

  -- Nothing is pending: the call answers nullptr, and the queue stays empty.
  pub reserve_read-nothing :
      pending v ≡ []
      → Pending (reserve_read q.atomic_w q).0 [] × ((reserve_read q.atomic_w q).1.buffer ≡ none)
  reserve_read-nothing e = (
    (look_w q v v.unseen [], answer.0, pending-look_w v.unseen [] i all_seen ∙ e),
    elim answer.1 [
      | inl (none_here, _) ↦ none_here
      | inr (m, ms, seen, _) ↦ absurd (not_nil m ms seen)
    ],
  )
    where
      not_nil : (m : Bytes) (ms : List Bytes) → (look_w q v v.unseen []).seen ≡ m ∷ ms → ⊥
      not_nil m ms seen = cons_ne m (ms ++ (look_w q v v.unseen []).unseen) (
          ap (λ (l : List Bytes). l ++ (look_w q v v.unseen []).unseen) (sym seen)
          ∙ pending-look_w v.unseen [] i all_seen
          ∙ e)
        where
          cons_ne : (m : Bytes) (l : List Bytes) → m ∷ l ≡ [] → ⊥
          cons_ne m l x = cc

  -- A message is pending: the call points at it, and committing its size takes it out.
  pub reserve_read-first :
      (m : Bytes) (ms : List Bytes)
      → pending v ≡ m ∷ ms
      → FirstRead m ms (reserve_read q.atomic_w q).0 (reserve_read q.atomic_w q).1
  reserve_read-first m ms e =
      go (reserve_read q.atomic_w q) (look_w q v v.unseen []) answer.0 answer.1
        (pending-look_w v.unseen [] i all_seen ∙ e)
        (λ (none_seen : (look_w q v v.unseen []).seen ≡ []).
          not_nil (nothing_pending v.unseen i all_seen none_seen))
    where
      not_nil : pending v ≡ [] → ⊥
      not_nil x = cons_ne (sym e ∙ x)
        where
          cons_ne : m ∷ ms ≡ [] → ⊥
          cons_ne y = cc

      go :
          (o : Queue × ReadReservation) (u : View)
          → IsValid o.0 u
          → Nothing u o ⊎ Message u o
          → pending u ≡ m ∷ ms
          → (u.seen ≡ [] → ⊥)
          → FirstRead m ms o.0 o.1
      go o u j (inl (_, none_seen)) e' some_seen = absurd (some_seen none_seen)
      go o u j (inr (m', ms', seen, at)) e' some_seen = record {
        index = u.start % o.0.capacity;
        position = u.start;
        answer = at;
        there = (rw e' at j.held).0;
        committed = (
          consume u m ms',
          commit_read-IsValid m ms' (seen ∙ ap (λ (x : Bytes). x ∷ ms') same.0) j,
          same.1,
        );
      }
        where
          whole : m' ∷ (ms' ++ u.unseen) ≡ m ∷ ms
          whole = ap (λ (l : List Bytes). l ++ u.unseen) (sym seen) ∙ e'

          same : (m' ≡ m) × (ms' ++ u.unseen ≡ ms)
          same = (cc, cc)
