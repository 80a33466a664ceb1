-- ===== src/Queue.antt =====
-- The single-producer single-consumer byte queue, include/papper/detail/queue.h.
-- A pointer into `_buffer` is an index, `none` for nullptr. The parameter `loaded` is what the
-- acquire load of the other thread's position returns, if the operation makes one: which of the
-- stored values that may be is said in `Spsc`.
pub mod Capacity
pub mod Ring
pub mod Invariant
pub mod Consumer
pub mod Producer
pub mod Exact
pub mod Sequential
pub mod Spsc
mod Tests
use papper.Common.{
  ℕ, zero, suc, ◌*◌, bit_and, Bool, false, Option, none, some, ltb, leb, ◌==◌, if◌then◌else◌,
  replicate, u64, add64, sub64,
}
use papper.Memory.{Bytes}

pub record Queue : Type 0 where
  pub capacity : ℕ
  pub wrap_mask : ℕ
  pub buffer : Bytes
  pub atomic_r : ℕ
  pub atomic_w : ℕ
  pub w : ℕ
  pub cached_r : ℕ
  pub r : ℕ
  pub cached_w : ℕ

-- `std::bit_ceil`: the least power of two that is not below its argument. It is defined up to
-- 2 ^ 63, which 63 doublings of 1 reach.
bit_ceil_from : ℕ → ℕ → ℕ → ℕ
bit_ceil_from zero p n = p
bit_ceil_from (suc rounds) p n = if leb n p then p else bit_ceil_from rounds (2 * p) n

unfoldable pub bit_ceil : ℕ → ℕ
unfolding bit_ceil_from
bit_ceil n = bit_ceil_from 63 1 n

-- `Queue(capacity)`. The size of the allocation is a `size_t` product.
unfoldable pub create : ℕ → Queue
create n = record {
  capacity = bit_ceil n;
  wrap_mask = sub64 (bit_ceil n) 1;
  buffer = replicate (u64 (2 * bit_ceil n)) 0;
  atomic_r = 0;
  atomic_w = 0;
  w = 0;
  cached_r = 0;
  r = 0;
  cached_w = 0;
}

pub record WriteReservation : Type 0 where
  pub buffer : Option ℕ
  pub new_write_pos : ℕ

-- `_cached_r + _capacity - _w`
abbrev pub free_space : Queue → ℕ
free_space q = sub64 (add64 q.cached_r q.capacity) q.w

abbrev pub grant : Queue → ℕ → WriteReservation
grant q size = record { buffer = some (bit_and q.w q.wrap_mask); new_write_pos = add64 q.w size }

abbrev pub refusal : WriteReservation
refusal = record { buffer = none; new_write_pos = 0 }

-- The second test of `reserve_write`, after the reload.
abbrev pub retry_write : Queue → ℕ → Queue × WriteReservation
retry_write q size = if ltb (free_space q) size then (q, refusal) else (q, grant q size)

unfoldable pub reserve_write : ℕ → Queue → ℕ → Queue × WriteReservation
reserve_write loaded q size =
    if ltb (free_space q) size
    then retry_write (record q { cached_r = loaded }) size
    else (q, grant q size)

unfoldable pub commit_write : Queue → ℕ → Queue
commit_write q new_write_pos = record q { w = new_write_pos; atomic_w = new_write_pos }

pub record ReadReservation : Type 0 where
  pub buffer : Option ℕ
  pub current_read_pos : ℕ

unfoldable pub is_empty : ℕ → Queue → Queue × Bool
is_empty loaded q =
    if leb q.cached_w q.r then (record q { cached_w = loaded }, loaded == q.r) else (q, false)

unfoldable pub reserve_read : ℕ → Queue → Queue × ReadReservation
unfolding is_empty
reserve_read loaded q =
    let (q', empty) = is_empty loaded q in
    if empty
    then (q', record { buffer = none; current_read_pos = 0 })
    else (q', record { buffer = some (bit_and q'.r q'.wrap_mask); current_read_pos = q'.r })

unfoldable pub commit_read : Queue → ℕ → Queue
commit_read q new_read_pos = record q { r = new_read_pos; atomic_r = new_read_pos }
