-- ===== src/Backend/Visit.antt =====
-- What one visit of a thread's queue by `poll_threads` does (include/papper/detail/core.h).
use papper.Common.{
  ℕ, ◌+◌, ◌≡◌, ap, true, false, not, Option, some, List, [], ◌∷◌, ◌++◌, arith, map, length, u64,
  add64,
}
use papper.Common.Int.{ℤ}
use papper.Memory.{Bytes}
use papper.Queue.{Queue, ReadReservation, reserve_read, commit_read}
use papper.Queue.Consumer.{reserve_read_queue}
use papper.Queue.Sequential.{Pending, FirstRead, reserve_read-nothing, reserve_read-first}
use papper.Codec.{Value, kind_of}
use papper.Text.{Text}
use papper.Level.{LogLevel}
use papper.Pattern.{PatternData}
use papper.Event.{CallSiteStaticData, LogEventHeader}
use papper.Event.RoundTrip.{event_bytes}
use papper.Event.Protocol.{IsEvent}
use papper.Backend.{ThreadContext, VisitResult, event_lines, read_and_process_single_event, visit}
use papper.Backend.Process.{reads_and_processes}

abbrev pub LogEvent : Type 0
LogEvent = LogEventHeader × List Value

abbrev pub messages_of : List LogEvent → List Bytes
messages_of [] = []
messages_of ((h, args) ∷ es) = event_bytes h args ∷ messages_of es

-- Events whose static data names the types of their arguments.
abbrev pub AllEvents : (ℕ → CallSiteStaticData) → List LogEvent → Type 0
AllEvents sites [] = Unit {0}
AllEvents sites ((h, args) ∷ es) =
    IsEvent h args × ((sites h.static_data).arg_kinds ≡ map kind_of args) × AllEvents sites es

-- The queue holds exactly these events.
abbrev pub Contains : (ℕ → CallSiteStaticData) → Queue → List LogEvent → Type 0
Contains sites q es = Pending q (messages_of es) × AllEvents sites es

module _ (sites : ℕ → CallSiteStaticData) (name_at : ℕ → Text)
    (message_of : Text → List Value → Text) (local_time : ℕ → ℤ) (format_line : PatternData → Text)
    (min_log_level : LogLevel) where
  -- The lines of some events, in order.
  abbrev pub lines_of : List LogEvent → List Text
  lines_of [] = []
  lines_of ((h, args) ∷ es) =
      event_lines sites name_at message_of local_time format_line min_log_level h args
      ++ lines_of es

  abbrev visited : (ThreadContext → ThreadContext) → ThreadContext → Option VisitResult
  visited = visit sites name_at message_of local_time format_line min_log_level

  -- A visit of a queue with no event: whatever the thread does next, its being dead then decides
  -- whether the node goes.
  pub visit-nothing :
      (between : ThreadContext → ThreadContext) (c : ThreadContext)
      → Contains sites c.queue []
      → (q : Queue) × Contains sites q []
        × (visited between c
            ≡ some (record {
              context = between (record c { queue = q });
              processed = false;
              dead = not (between (record c { queue = q })).is_alive;
              lines = [];
            }))
        × (q.capacity ≡ c.queue.capacity)
  unfolding visit
  visit-nothing between c ((v, i, e), _) =
      let (left, none_here) = reserve_read-nothing i e in
      (
        (reserve_read c.queue.atomic_w c.queue).0,
        (left, tt),
        rw none_here,
        ap (λ (x : Queue). x.capacity) (reserve_read_queue c.queue.atomic_w c.queue),
      )

  -- A visit of a queue that has events: the first one is processed, and the others are left.
  pub visit-event :
      (between : ThreadContext → ThreadContext) (c : ThreadContext) (h : LogEventHeader)
      (args : List Value) (es : List LogEvent)
      → Contains sites c.queue ((h, args) ∷ es)
      → (q : Queue) × Contains sites q es
        × (visited between c
            ≡ some (record {
              context = record c { queue = q };
              processed = true;
              dead = false;
              lines =
                  event_lines sites name_at message_of local_time format_line min_log_level h args;
            }))
  unfolding visit
  visit-event between c h args es ((v, i, e), (ok, kinds, all)) = (
    commit_read out.0 (u64 (first.position + length m)),
    (first.committed, all),
    rw first.answer (rw processed (ap result position)),
  )
    where
      m : Bytes
      m = event_bytes h args

      out : Queue × ReadReservation
      out = reserve_read c.queue.atomic_w c.queue

      first : FirstRead m (messages_of es) out.0 out.1
      first = reserve_read-first i m (messages_of es) e

      processed :
          read_and_process_single_event sites name_at message_of local_time format_line
            min_log_level out.0.buffer first.index
          ≡ some (
            length m,
            event_lines sites name_at message_of local_time format_line min_log_level h args,
          )
      processed =
          reads_and_processes sites name_at message_of local_time format_line min_log_level
            out.0.buffer first.index h args ok kinds first.there

      result : ℕ → Option VisitResult
      result k = some (record {
        context = record c { queue = commit_read out.0 k };
        processed = true;
        dead = false;
        lines = event_lines sites name_at message_of local_time format_line min_log_level h args;
      })

      position : add64 (u64 first.position) (length m) ≡ u64 (first.position + length m)
      position = omega arith
