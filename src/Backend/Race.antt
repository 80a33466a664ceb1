-- ===== src/Backend/Race.antt =====
-- A thread that logs and ends between two steps of `poll_threads` (include/papper/detail/core.h).
use papper.Common.{ℕ, ◌+◌, ◌≤◌, ◌≡◌, refl, true, some, List, [], ◌∷◌, arith, ◌==◌, ==_iff, length}
use papper.Common.Int.{ℤ}
use papper.Queue.{Queue}
use papper.Queue.Ring.{total}
use papper.Queue.Invariant.{View, pending}
use papper.Queue.Sequential.{Pending}
use papper.Codec.{Value}
use papper.Text.{Text}
use papper.Level.{LogLevel}
use papper.Pattern.{PatternData}
use papper.Event.{CallSiteStaticData, push_log_event}
use papper.Event.Protocol.{Call, published}
use papper.Event.Push.{push_log_event-Appended}
use papper.Backend.{ThreadContext, kill, remove_and_delete_node, VisitResult, visit, settle}
use papper.Backend.Visit.{Contains, visit-nothing}

-- What the thread does: it logs one event, its load showing the newest store, and ends.
abbrev pub log_and_end : ℕ → ℕ → ℕ → List Value → ThreadContext → ThreadContext
log_and_end static_data thread_name timestamp args c = kill (record c {
  queue = push_log_event c.queue.atomic_r timestamp c.queue static_data thread_name args;
})

module _ (sites : ℕ → CallSiteStaticData) (name_at : ℕ → Text)
    (message_of : Text → List Value → Text) (local_time : ℕ → ℤ) (format_line : PatternData → Text)
    (min_log_level : LogLevel) where
  -- A thread with an empty queue logs an event that fits in the queue, and ends, just behind the
  -- backend's `reserve_read`: the visit then finds the thread dead and writes no line, the event is
  -- still in its queue, and the thread's node, if it is the only one, is removed.
  pub visit-log_and_end :
      {static_data thread_name timestamp : ℕ} {args : List Value}
      (call : Call static_data thread_name timestamp args) (a : ℕ) (c : ThreadContext)
      → Contains sites c.queue []
      → length (published call) ≤ c.queue.capacity
      → (v : VisitResult) × (visit sites name_at message_of local_time format_line min_log_level
            (log_and_end static_data thread_name timestamp args)
            c
          ≡ some v)
        × (v.dead ≡ true)
        × (v.lines ≡ [])
        × Pending v.context.queue (published call ∷ [])
        × (settle v a (record { address = a; context = c } ∷ []) ≡ [])
  unfolding remove_and_delete_node
  visit-log_and_end {static_data} {thread_name} {timestamp} {args} call a c holds fits =
      let (q, (left, _), at, same) =
        visit-nothing sites name_at message_of local_time format_line min_log_level
          (log_and_end static_data thread_name timestamp args) c holds in
      let (v, i, e) = left in
      let (v', i', e') = push_log_event-Appended call i (room q v e same) in
      (_, at, refl, refl, (v', i', rw e' (rw e refl)), rw (same_address a) refl)
    where
      room :
          (q : Queue) (v : View)
          → pending v ≡ []
          → q.capacity ≡ c.queue.capacity
          → total (pending v) + length (published call) ≤ q.capacity
      room q v e same = rw e (omega (arith, fits, same))

      same_address : (x : ℕ) → (x == x) ≡ true
      same_address x = (==_iff x x).1 refl
