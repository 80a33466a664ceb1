-- ===== src/Queue/Invariant.antt =====
-- The representation invariant of the queue (include/papper/detail/queue.h), against positions that
-- never wrap and the messages that are in the buffer.
use papper.Common.{
  ℕ, ◌+◌, ◌-◌, ◌*◌, ◌%◌, ◌^◌, ◌≤◌, ◌<◌, bit_and, ◌≡◌, refl, ap, ◌∙◌, inl, inr, false, List, [], ◌∷◌,
  ◌++◌, arith, leb, leb→le, Bool-cases, length, length-replicate, u64,
}
use papper.Memory.{Bytes}
use papper.Common.Bits.{pow-pos, pow-le, index_of_position}
use papper.Queue.{Queue, bit_ceil, create}
use papper.Queue.Capacity.{IsCeil, bit_ceil-IsCeil}
use papper.Queue.Ring.{total, HoldsAll}

-- What a queue stands for. `start` and `cached` are the positions `_r` and `_cached_r` counted
-- without wrap-around. The messages between `_r` and `_cached_w` are `seen`, those between
-- `_cached_w` and `_w` are `unseen`.
pub record View : Type 0 where
  pub start : ℕ
  pub cached : ℕ
  pub seen : List Bytes
  pub unseen : List Bytes

abbrev pub pending : View → List Bytes
pending v = v.seen ++ v.unseen

-- the position of the producer, counted without wrap-around
abbrev pub end_pos : View → ℕ
end_pos v = v.start + total (pending v)

abbrev pub AllNonempty : List Bytes → Type 0
AllNonempty [] = Unit {0}
AllNonempty (m ∷ ms) = (0 < length m) × AllNonempty ms

pub AllNonempty-snoc :
    (ms : List Bytes) (m : Bytes) → AllNonempty ms → 0 < length m → AllNonempty (ms ++ m ∷ [])
AllNonempty-snoc [] m h p = (p, tt)
AllNonempty-snoc (x ∷ ms) m h p = (h.0, AllNonempty-snoc ms m h.1 p)

-- A power of two that leaves room for twice itself in a `size_t`, its mask and the allocation.
pub record Layout (capacity wrap_mask allocated : ℕ) : Type 0 where
  pub exponent : ℕ
  pub exponent_small : exponent ≤ 62
  pub power : capacity ≡ 2 ^ exponent
  pub capacity_pos : 0 < capacity
  pub capacity_small : capacity ≤ 2 ^ 62
  pub mask : wrap_mask ≡ capacity - 1
  pub storage : allocated ≡ 2 * capacity

pub record IsValid (q : Queue) (v : View) : Type 0 where
  pub layout : Layout q.capacity q.wrap_mask (length q.buffer)
  pub open layout use *
  pub r_pos : q.r ≡ u64 v.start
  pub w_pos : q.w ≡ u64 (end_pos v)
  pub r_published : q.atomic_r ≡ q.r
  pub w_published : q.atomic_w ≡ q.w
  pub cached_r_pos : q.cached_r ≡ u64 v.cached
  pub cached_w_pos : q.cached_w ≡ u64 (v.start + total v.seen)
  pub cached_old : v.cached ≤ v.start
  pub room : end_pos v ≤ v.cached + q.capacity
  pub nonempty : AllNonempty (pending v)
  pub held : HoldsAll q.capacity q.buffer v.start (pending v)

abbrev pub fresh : View
fresh = record { start = 0; cached = 0; seen = []; unseen = [] }

-- The constructor makes an empty queue whose capacity is at least what was asked for, for requests
-- up to 2 ^ 62 bytes.
pub create-IsValid : (n : ℕ) → n ≤ 2 ^ 62 → IsValid (create n) fresh × (n ≤ (create n).capacity)
unfolding create
create-IsValid n h = (
  record {
    layout = record {
      exponent = e;
      exponent_small = small;
      power = c.power;
      capacity_pos = omega (arith, c.power, pow-pos e);
      capacity_small = le;
      mask = omega (arith, c.power, pow-pos e, le);
      storage = length-replicate (u64 (2 * bit_ceil n)) 0 ∙ (omega (arith, le));
    };
    r_pos = refl;
    w_pos = refl;
    r_published = refl;
    w_published = refl;
    cached_r_pos = refl;
    cached_w_pos = refl;
    cached_old = omega arith;
    room = omega arith;
    nonempty = tt;
    held = tt;
  },
  c.above,
)
  where
    c : IsCeil n (bit_ceil n)
    c = bit_ceil-IsCeil n (omega arith)

    e : ℕ
    e = c.exponent

    too_large : leb e 62 ≡ false → ⊥
    too_large out =
        let last : e ≡ 63 = ground (arith, c.small) in
        let top : 2 ^ e ≡ 2 ^ 63 = ap (λ (x : ℕ). 2 ^ x) last in ground (arith, c.power, c.least)

    small : e ≤ 62
    small = elim (Bool-cases (leb e 62)) [
      | inl in_range ↦ leb→le e 62 in_range
      | inr out ↦ absurd (too_large out)
    ]

    le : bit_ceil n ≤ 2 ^ 62
    le = omega (arith, c.power, pow-le e (62 - e) 62 (omega (arith, small)))

-- The index that a position is masked to.
pub index_of :
    {q : Queue} {v : View} (p : ℕ) → IsValid q v → bit_and (u64 p) q.wrap_mask ≡ p % q.capacity
index_of p i =
    rw (i.mask, i.power) (index_of_position i.exponent p (omega (arith, i.exponent_small)))
