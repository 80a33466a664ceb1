-- ===== src/Queue/Consumer.antt =====
-- The consumer's operations of include/papper/detail/queue.h: `is_empty`, `reserve_read`,
-- `commit_read`.
use papper.Common.{
  ℕ, ◌+◌, ◌%◌, ◌≤◌, ◌<◌, bit_and, ◌≡◌, refl, sym, ap, ◌∙◌, ◌⊎◌, inl, inr, true, false, none, some,
  List, [], ◌∷◌, ◌++◌, append_assoc, arith, leb, ◌==◌, if◌then◌else◌, ltb_of_leb, ==_iff,
  Bool-cases, length, List-cases, u64,
}
use papper.Memory.{Bytes}
use papper.Queue.{Queue, ReadReservation, reserve_read, commit_read}
use papper.Queue.Ring.{total, total-append}
use papper.Queue.Invariant.{View, pending, end_pos, AllNonempty, IsValid, index_of}

-- A reload that shows `more` of the messages that were not seen yet, and leaves `rest` unseen.
abbrev pub reveal : View → List Bytes → List Bytes → View
reveal v more rest = record v { seen = v.seen ++ more; unseen = rest }

module _ {q : Queue} {v : View} (i : IsValid q v) (more rest : List Bytes)
    (split : v.unseen ≡ more ++ rest) where
  -- the position that the reload shows
  abbrev shown : ℕ
  shown = u64 (v.start + total (v.seen ++ more))

  pub same_pending : pending (reveal v more rest) ≡ pending v
  same_pending = append_assoc v.seen more rest ∙ ap (λ (x : List Bytes). v.seen ++ x) (sym split)

  reload_w-IsValid : IsValid (record q { cached_w = shown }) (reveal v more rest)
  reload_w-IsValid = record {
    layout = i.layout;
    r_pos = i.r_pos;
    w_pos = rw same_pending i.w_pos;
    r_published = i.r_published;
    w_published = i.w_published;
    cached_r_pos = i.cached_r_pos;
    cached_w_pos = refl;
    cached_old = i.cached_old;
    room = rw same_pending i.room;
    nonempty = rw same_pending i.nonempty;
    held = rw same_pending i.held;
  }

  shown_room : total (v.seen ++ more) ≤ q.capacity
  shown_room =
      omega (arith, ap total same_pending, total-append (v.seen ++ more) rest, i.room, i.cached_old)

-- Messages have bytes, so a list of messages is empty exactly if it has no bytes.
pub nonempty_total : (ms ns : List Bytes) → AllNonempty (ms ++ ns) → (ms ≡ []) ⊎ (0 < total ms)
nonempty_total [] ns h = inl refl
nonempty_total (m ∷ ms) ns h = inr (omega (arith, h.0))

abbrev pub read_at : Queue → View → ReadReservation
read_at q v = record { buffer = some (v.start % q.capacity); current_read_pos = u64 v.start }

-- The consumer's view after `reserve_read`, whose reload, if it makes one, shows `more`.
abbrev pub look_w : Queue → View → List Bytes → List Bytes → View
look_w q v more rest = if leb q.cached_w q.r then reveal v more rest else v

-- The answer of `reserve_read` when the consumer sees no message.
abbrev pub Nothing : View → Queue × ReadReservation → Type 0
Nothing v (q, res) = (res.buffer ≡ none) × (v.seen ≡ [])

-- The answer of `reserve_read` when `m` is the first message that the consumer sees.
abbrev pub Message : View → Queue × ReadReservation → Type 0
Message v (q, res) = (m : Bytes) × (ms : List Bytes) × (v.seen ≡ m ∷ ms) × (res ≡ read_at q v)

read_at_lem :
    {q : Queue} {v : View}
    → IsValid q v
    → ◌≡◌ {A = ReadReservation}
        (record { buffer = some (bit_and q.r q.wrap_mask); current_read_pos = q.r })
        (read_at q v)
read_at_lem {q} {v} i = λ k. record {
  buffer = some ((ap (λ (x : ℕ). bit_and x q.wrap_mask) i.r_pos ∙ index_of v.start i) k);
  current_read_pos = i.r_pos k;
}

Message-of :
    {q : Queue} (v : View)
    → IsValid q v
    → 0 < total v.seen
    → Message v (q, record { buffer = some (bit_and q.r q.wrap_mask); current_read_pos = q.r })
Message-of v i pos = elim (List-cases v.seen) [
  | inl e ↦ absurd (omega (arith, ap total e))
  | inr (m, ms, e) ↦ (m, ms, e, read_at_lem i)
]

-- `reserve_read` on a valid queue, if the reload may show `more` of the messages that were not seen:
-- the queue stays valid, and the call answers nullptr only if the consumer sees no message, and
-- otherwise points at the first one.
pub reserve_read_lem :
    {q : Queue} {v : View} (more rest : List Bytes)
    → IsValid q v
    → v.unseen ≡ more ++ rest
    → let out = reserve_read (u64 (v.start + total (v.seen ++ more))) q in
      IsValid out.0 (look_w q v more rest)
      × (Nothing (look_w q v more rest) out ⊎ Message (look_w q v more rest) out)
unfolding reserve_read
reserve_read_lem {q} {v} more rest i split = elim (Bool-cases (leb q.cached_w q.r)) [
  | inr ahead ↦ rw ahead (i, inr (Message-of v i (seen_pos ahead)))
  | inl behind ↦ rw behind (elim (Bool-cases (shown i more rest split == q.r)) [
    | inl same ↦ rw same (reload_w-IsValid i more rest split, inl (refl, none_shown same))
    | inr other ↦ rw other (
      reload_w-IsValid i more rest split,
      inr (Message-of _ (reload_w-IsValid i more rest split) (some_shown other)),
    )
  ])
]
  where
    seen_pos : leb q.cached_w q.r ≡ false → 0 < total v.seen
    seen_pos ahead = omega (arith, ltb_of_leb _ _ ahead, i.cached_w_pos, i.r_pos)

    none_shown : (shown i more rest split == q.r) ≡ true → v.seen ++ more ≡ []
    none_shown same =
        elim (nonempty_total (v.seen ++ more) rest
          (rw (same_pending i more rest split) i.nonempty)) [
            | inl e ↦ e
            | inr pos ↦ absurd (
                omega (
                  arith,
                  (==_iff _ _).0 same,
                  shown_room i more rest split,
                  i.capacity_small,
                  i.r_pos,
                ))
          ]

    some_shown : (shown i more rest split == q.r) ≡ false → 0 < total (v.seen ++ more)
    some_shown other = ground (arith, i.r_pos)

-- What is left to read once the first visible message has been read.
abbrev pub consume : View → Bytes → List Bytes → View
consume v m ms = record v { start = v.start + length m; seen = ms }

pub end_pos-consume :
    (v : View) (m : Bytes) (ms : List Bytes)
    → v.seen ≡ m ∷ ms
    → end_pos v ≡ end_pos (consume v m ms)
end_pos-consume v m ms e = omega (arith, ap total (ap (λ (x : List Bytes). x ++ v.unseen) e))

-- `commit_read` with the position behind the first message takes that message out.
pub commit_read-IsValid :
    {q : Queue} {v : View} (m : Bytes) (ms : List Bytes)
    → v.seen ≡ m ∷ ms
    → IsValid q v
    → IsValid (commit_read q (u64 (v.start + length m))) (consume v m ms)
unfolding commit_read
commit_read-IsValid {q} {v} m ms e i = record {
  layout = i.layout;
  r_pos = refl;
  w_pos = i.w_pos ∙ ap u64 same_end;
  r_published = refl;
  w_published = i.w_published;
  cached_r_pos = i.cached_r_pos;
  cached_w_pos = i.cached_w_pos ∙ ap u64 (omega (arith, ap total e));
  cached_old = omega (arith, i.cached_old);
  room = omega (arith, same_end, i.room);
  nonempty = (rw whole at i.nonempty).1;
  held = (rw whole at i.held).1;
}
  where
    whole : pending v ≡ m ∷ (ms ++ v.unseen)
    whole = ap (λ (x : List Bytes). x ++ v.unseen) e

    same_end : end_pos v ≡ end_pos (consume v m ms)
    same_end = end_pos-consume v m ms e

-- A look changes what the consumer sees, and not what is pending.
pub pending-look_w :
    {q : Queue} {v : View} (more rest : List Bytes)
    → IsValid q v
    → v.unseen ≡ more ++ rest
    → pending (look_w q v more rest) ≡ pending v
pending-look_w {q} more rest i split = elim (Bool-cases (leb q.cached_w q.r)) [
  | inl e ↦ rw e (same_pending i more rest split)
  | inr e ↦ rw e
]

-- If the look shows everything and nothing is seen, nothing is pending.
pub nothing_pending :
    {q : Queue} {v : View} (more : List Bytes)
    → IsValid q v
    → v.unseen ≡ more ++ []
    → (look_w q v more []).seen ≡ []
    → pending v ≡ []
nothing_pending {q} {v} more i split none_seen = elim (Bool-cases (leb q.cached_w q.r)) [
  | inl e ↦
      sym (same_pending i more [] split) ∙ ap (λ (l : List Bytes). l ++ []) (rw e at none_seen)
  | inr e ↦
      absurd
        (omega (arith, ltb_of_leb _ _ e, i.cached_w_pos, i.r_pos, ap total (rw e at none_seen)))
]

-- The call changes only what is cached of the other thread's position.
pub reserve_read_queue :
    (l : ℕ) (q : Queue)
    → (reserve_read l q).0 ≡ record q { cached_w = if leb q.cached_w q.r then l else q.cached_w }
unfolding reserve_read
reserve_read_queue l q = elim (Bool-cases (leb q.cached_w q.r)) [
  | inl e ↦ rw e (elim (Bool-cases (l == q.r)) [ inl f ↦ rw f | inr f ↦ rw f ])
  | inr e ↦ rw e
]
