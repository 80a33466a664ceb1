-- ===== src/Backend/Drain.antt =====
-- How the backend thread ends (include/papper/detail/core.h): it polls until no thread is left.
use papper.Common.{
  ℕ, suc, ◌≡◌, refl, Bool, true, false, Option, some, List, [], ◌∷◌, ◌++◌, append-nil, ◌==◌, ==_iff,
  length,
}
use papper.Common.Int.{ℤ}
use papper.Queue.{Queue}
use papper.Codec.{Value}
use papper.Text.{Text}
use papper.Level.{LogLevel}
use papper.Pattern.{PatternData}
use papper.Event.{CallSiteStaticData, LogEventHeader}
use papper.Backend.{
  ThreadContext, Node, remove_and_delete_node, event_lines, poll_threads, drain_loop,
}
use papper.Backend.Visit.{LogEvent, Contains, visit-nothing, visit-event}

module _ (sites : ℕ → CallSiteStaticData) (name_at : ℕ → Text)
    (message_of : Text → List Value → Text) (local_time_at : ℕ → ℕ → ℤ)
    (format_line : PatternData → Text) (min_log_level : LogLevel) where
  -- The lines of some events, each in a round of its own from the n-th on.
  abbrev lines_by_round : ℕ → List LogEvent → List Text
  lines_by_round n [] = []
  lines_by_round n ((h, args) ∷ es) =
      event_lines sites name_at message_of (local_time_at n) format_line min_log_level h args
      ++ lines_by_round (suc n) es

  abbrev polled : ℕ → List Node → Option (List Node × Bool × List Text)
  polled n nodes =
      poll_threads sites name_at message_of (local_time_at n) format_line min_log_level nodes nodes

  abbrev one : ℕ → ThreadContext → List Node
  one a c = record { address = a; context = c } ∷ []

  same_address : (a : ℕ) → (a == a) ≡ true
  same_address a = (==_iff a a).1 refl

  -- A poll of one dead thread that has an event.
  poll-event :
      (n a : ℕ) (c : ThreadContext) (h : LogEventHeader) (args : List Value) (es : List LogEvent)
      → Contains sites c.queue ((h, args) ∷ es)
      → (q : Queue) × Contains sites q es
        × (polled n (one a c)
            ≡ some (
              one a (record c { queue = q }),
              true,
              event_lines sites name_at message_of
                  (local_time_at n)
                  format_line
                  min_log_level
                  h
                  args,
            ))
  unfolding poll_threads
  poll-event n a c h args es holds =
      let (q, left, at) =
        visit-event sites name_at message_of (local_time_at n) format_line min_log_level (λ x. x) c
          h args es holds in
      (
        q,
        left,
        rw at (
            rw (same_address a) (
              rw
                (append-nil (
                  event_lines sites name_at message_of (local_time_at n) format_line min_log_level h
                    args))
                refl)),
      )

  -- A poll of one dead thread that has none.
  poll-nothing :
      (n a : ℕ) (c : ThreadContext)
      → Contains sites c.queue []
      → c.is_alive ≡ false
      → polled n (one a c) ≡ some ([], false, [])
  unfolding poll_threads remove_and_delete_node
  poll-nothing n a c holds gone =
      let (q, left, at, _) =
        visit-nothing sites name_at message_of (local_time_at n) format_line min_log_level (λ x. x)
          c holds in
      rw at (rw gone (rw (same_address a) refl))

  -- If the only thread left is dead and its queue holds some events, the last loop of the backend,
  -- from its n-th round on, ends after as many polls as there are events and one more, and writes the
  -- lines of all the events, in order, each with the clock as it is in its round.
  drain_loop_lem :
      (n a : ℕ) (es : List LogEvent) (c : ThreadContext)
      → Contains sites c.queue es
      → c.is_alive ≡ false
      → drain_loop sites name_at message_of local_time_at format_line
          (suc (suc (length es)))
          n
          min_log_level
          (record { address = a; context = c } ∷ [])
        ≡ some (lines_by_round n es)
  unfolding drain_loop
  drain_loop_lem n a [] c holds gone = rw (poll-nothing n a c holds gone) refl
  drain_loop_lem n a ((h, args) ∷ es) c holds gone =
      let (q, left, at) = poll-event n a c h args es holds in
      rw at (rw (drain_loop_lem (suc n) a es (record c { queue = q }) left gone) refl)
