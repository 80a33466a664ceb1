-- ===== src/Queue/Producer.antt =====
-- The producer's operations of include/papper/detail/queue.h: `reserve_write`, the copies into the
-- reservation, `commit_write`.
use papper.Common.{
  ℕ, ◌+◌, ◌-◌, ◌%◌, ◌≤◌, ◌<◌, bit_and, ◌≡◌, refl, sym, ap, ◌∙◌, subst, ◌⊎◌, inl, inr, false, some,
  [], ◌∷◌, ◌++◌, append_assoc, arith, ltb, if◌then◌else◌, ltb→lt, leb_of_ltb, Bool-cases, length,
  u64, add64,
}
use papper.Memory.{Bytes, blit, Holds, length-blit}
use papper.Queue.{
  Queue, WriteReservation, free_space, grant, refusal, retry_write, reserve_write, commit_write,
}
use papper.Queue.Ring.{total, total-append, HoldsAll-blit, HoldsAll-snoc}
use papper.Queue.Invariant.{View, pending, end_pos, AllNonempty-snoc, Layout, IsValid, index_of}

-- Counted without wrap-around, `free_space` is the room that is left.
pub free_space_lem :
    {q : Queue} {v : View} → IsValid q v → free_space q ≡ v.cached + q.capacity - end_pos v
free_space_lem i = omega arith

abbrev reload_r : Queue → ℕ → Queue
reload_r q c = record q { cached_r = u64 c }

reload_r-IsValid :
    {q : Queue} {v : View} (c : ℕ)
    → IsValid q v
    → v.cached ≤ c
    → c ≤ v.start
    → IsValid (reload_r q c) (record v { cached = c })
reload_r-IsValid c i newer old = record {
  layout = i.layout;
  r_pos = i.r_pos;
  w_pos = i.w_pos;
  r_published = i.r_published;
  w_published = i.w_published;
  cached_r_pos = refl;
  cached_w_pos = i.cached_w_pos;
  cached_old = old;
  room = omega (arith, i.room);
  nonempty = i.nonempty;
  held = i.held;
}

-- The index and the position that `reserve_write` hands out.
abbrev pub reserved_at : Queue → View → ℕ → WriteReservation
reserved_at q v size = record {
  buffer = some (end_pos v % q.capacity);
  new_write_pos = u64 (end_pos v + size);
}

grant_lem : {q : Queue} {v : View} (size : ℕ) → IsValid q v → grant q size ≡ reserved_at q v size
grant_lem {q} {v} size i = λ k. record {
  buffer = some ((ap (λ (x : ℕ). bit_and x q.wrap_mask) i.w_pos ∙ index_of (end_pos v) i) k);
  new_write_pos = next k;
}
  where
    next : add64 q.w size ≡ u64 (end_pos v + size)
    next = omega (arith, i.w_pos)

-- What `reserve_write` answers when the other thread's position was last seen at `v.cached`.
abbrev pub Refused : View → ℕ → Queue × WriteReservation → Type 0
Refused v size (q, res) = (res ≡ refusal) × (v.cached + q.capacity < end_pos v + size)

abbrev pub Granted : View → ℕ → Queue × WriteReservation → Type 0
Granted v size (q, res) = (res ≡ reserved_at q v size) × (end_pos v + size ≤ v.cached + q.capacity)

retry_write_lem :
    {q : Queue} {v : View} (size : ℕ)
    → IsValid q v
    → IsValid (retry_write q size).0 v
      × (Refused v size (retry_write q size) ⊎ Granted v size (retry_write q size))
retry_write_lem {q} {v} size i = elim (Bool-cases (ltb (free_space q) size)) [
  | inl full ↦ rw full (i, inl (refl, omega (arith, ltb→lt _ _ full, free_space_lem i, i.room)))
  | inr fits ↦ rw fits (i, inr (grant_lem size i, enough fits))
]
  where
    enough : ltb (free_space q) size ≡ false → end_pos v + size ≤ v.cached + q.capacity
    enough fits = omega (arith, leb_of_ltb _ _ fits, free_space_lem i, i.room)

-- The producer's view after `reserve_write`, whose reload, if it makes one, shows position `c`.
abbrev pub look_r : Queue → View → ℕ → ℕ → View
look_r q v c size = record v { cached = if ltb (free_space q) size then c else v.cached }

-- `reserve_write` on a valid queue, if the reload may show position `c`: the queue stays valid, and
-- either the call refuses, and then the message does not fit behind what was unread when last seen;
-- or it hands out the place behind the last message, with enough room.
pub reserve_write_lem :
    {q : Queue} {v : View} (c size : ℕ)
    → IsValid q v
    → v.cached ≤ c
    → c ≤ v.start
    → let out = reserve_write (u64 c) q size in
      IsValid out.0 (look_r q v c size)
      × (Refused (look_r q v c size) size out ⊎ Granted (look_r q v c size) size out)
unfolding reserve_write
reserve_write_lem {q} {v} c size i newer old = elim (Bool-cases (ltb (free_space q) size)) [
  | inl full ↦ rw full (retry_write_lem size (reload_r-IsValid c i newer old))
  | inr fits ↦ rw fits (i, inr (grant_lem size i, enough fits))
]
  where
    enough : ltb (free_space q) size ≡ false → end_pos v + size ≤ v.cached + q.capacity
    enough fits = omega (arith, leb_of_ltb _ _ fits, free_space_lem i, i.room)

-- A copy into the free part of the buffer, `k` bytes into the reservation, keeps the queue valid.
pub blit-IsValid :
    {q : Queue} {v : View} (k : ℕ) (bs : Bytes)
    → IsValid q v
    → end_pos v + k + length bs ≤ v.cached + q.capacity
    → IsValid (record q { buffer = blit q.buffer (end_pos v % q.capacity + k) bs }) v
blit-IsValid {q} {v} k bs i fits = record {
  layout =
      subst (λ (n : ℕ). Layout q.capacity q.wrap_mask n)
        (sym (length-blit q.buffer (end_pos v % q.capacity + k) bs)) i.layout;
  r_pos = i.r_pos;
  w_pos = i.w_pos;
  r_published = i.r_published;
  w_published = i.w_published;
  cached_r_pos = i.cached_r_pos;
  cached_w_pos = i.cached_w_pos;
  cached_old = i.cached_old;
  room = i.room;
  nonempty = i.nonempty;
  held =
      HoldsAll-blit q.capacity q.buffer v.start (pending v) k bs i.capacity_pos
        (omega (arith, i.cached_old)) i.held;
}

abbrev pub publish : View → Bytes → View
publish v m = record v { unseen = v.unseen ++ m ∷ [] }

-- `commit_write` with the position behind a complete message makes the message part of the queue.
pub commit_write-IsValid :
    {q : Queue} {v : View} (m : Bytes)
    → IsValid q v
    → 0 < length m
    → end_pos v + length m ≤ v.cached + q.capacity
    → Holds q.buffer (end_pos v % q.capacity) m
    → IsValid (commit_write q (u64 (end_pos v + length m))) (publish v m)
unfolding commit_write
commit_write-IsValid {q} {v} m i pos fits there = record {
  layout = i.layout;
  r_pos = i.r_pos;
  w_pos = ap u64 longer;
  r_published = i.r_published;
  w_published = refl;
  cached_r_pos = i.cached_r_pos;
  cached_w_pos = i.cached_w_pos;
  cached_old = i.cached_old;
  room = omega (arith, longer);
  nonempty = rw assoc (AllNonempty-snoc (pending v) m i.nonempty pos);
  held = rw assoc (HoldsAll-snoc q.capacity q.buffer v.start (pending v) m i.held there);
}
  where
    assoc : v.seen ++ (v.unseen ++ m ∷ []) ≡ pending v ++ m ∷ []
    assoc = sym (append_assoc v.seen v.unseen (m ∷ []))

    longer : end_pos v + length m ≡ end_pos (publish v m)
    longer = omega (arith, ap total assoc, total-append (pending v) (m ∷ []))

-- The call changes only what is cached of the other thread's position.
pub reserve_write_queue :
    (l : ℕ) (q : Queue) (size : ℕ)
    → (reserve_write l q size).0
      ≡ record q { cached_r = if ltb (free_space q) size then l else q.cached_r }
unfolding reserve_write
reserve_write_queue l q size = elim (Bool-cases (ltb (free_space q) size)) [
  | inl e ↦ rw e (elim (Bool-cases (ltb (free_space (record q { cached_r = l })) size)) [
    | inl f ↦ rw f
    | inr f ↦ rw f
  ])
  | inr e ↦ rw e
]
