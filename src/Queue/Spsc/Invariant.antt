-- ===== src/Queue/Spsc/Invariant.antt =====
-- What holds of `Queue.Spsc` in every state.
use papper.Common.{ℕ, ◌+◌, ◌%◌, ◌^◌, ◌≤◌, ◌≡◌, refl, List, [], ◌∷◌, ◌++◌, arith, map, length, u64}
use papper.Memory.{Bytes, Holds}
use papper.Queue.Ring.{total}
use papper.Queue.Invariant.{View, pending, end_pos, IsValid, fresh, create-IsValid}
use papper.Queue.Spsc.{Framing, Producer, idle, writing, Consumer, waiting, reading, System, init}
use papper.Queue.Spsc.Logs.{ends, IsChain}

abbrev pub ProducerOk : ℕ → Bytes → ℕ → ℕ → Producer → Type 0
ProducerOk c buf end cached idle = Unit {0}
ProducerOk c buf end cached (writing i pos size done) =
    (i ≡ end % c)
    × (pos ≡ u64 (end + size))
    × (end + size ≤ cached + c)
    × (length done ≤ size)
    × Holds buf i done

abbrev pub ConsumerOk : ℕ → View → Consumer → Type 0
ConsumerOk c v waiting = Unit {0}
ConsumerOk c v (reading i pos) =
    (i ≡ v.start % c) × (pos ≡ u64 v.start) × ((m : Bytes) × (ms : List Bytes) × (v.seen ≡ m ∷ ms))

module _ (F : Framing) where
  open F use {IsMessage, frame, frame_lem, nonempty}

  abbrev AllMessages : List Bytes → Type 0
  AllMessages [] = Unit {0}
  AllMessages (m ∷ ms) = IsMessage m × AllMessages ms

  pub AllMessages-snoc :
      (ms : List Bytes) (m : Bytes) → AllMessages ms → IsMessage m → AllMessages (ms ++ m ∷ [])
  AllMessages-snoc [] m h p = (p, tt)
  AllMessages-snoc (x ∷ ms) m h p = (h.0, AllMessages-snoc ms m h.1 p)

  pub record Inv (s : System) : Type 0 where
    pub view : View
    pub reads : List ℕ
    pub valid : IsValid s.queue view
    pub w_logged : s.w_log ≡ ends (view.start + total view.seen) view.unseen
    pub r_logged : s.r_log ≡ map u64 reads
    pub chain : IsChain view.cached reads view.start
    pub messages : AllMessages (pending view)
    pub fifo : s.sent ≡ s.received ++ pending view
    pub producing : ProducerOk s.queue.capacity s.queue.buffer (end_pos view) view.cached s.producer
    pub consuming : ConsumerOk s.queue.capacity view s.consumer

  pub Inv-init : (n : ℕ) → n ≤ 2 ^ 62 → Inv (init F n)
  Inv-init n h = record {
    view = fresh;
    reads = [];
    valid = (create-IsValid n h).0;
    w_logged = refl;
    r_logged = refl;
    chain = omega arith;
    messages = tt;
    fifo = refl;
    producing = tt;
    consuming = tt;
  }
