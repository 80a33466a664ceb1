-- ===== src/Concurrent/Events.antt =====
-- The backend of include/papper/detail/core.h processes the events of its threads in every interleaving.
mod Tests
use papper.Common.{ℕ, ◌≡◌, refl, ap, ◌∙◌, subst, some, List, ◌∷◌, ◌++◌, map}
use papper.Common.Int.{ℤ}
use papper.Memory.{Bytes, Holds}
use papper.Codec.{Value, kind_of}
use papper.Text.{Text}
use papper.Level.{LogLevel}
use papper.Pattern.{PatternData}
use papper.Queue.Spsc.{Framing, reading}
use papper.Queue.Spsc.Fifo.{next_held}
use papper.Event.{CallSiteStaticData, LogEventHeader}
use papper.Event.RoundTrip.{event_bytes}
use papper.Event.Protocol.{IsEvent, event_size_at, event_size_at_lem, event_nonempty}
use papper.Backend.{event_lines, read_and_process_single_event}
use papper.Backend.Process.{reads_and_processes}
use papper.Concurrent.{Concurrent, ConcurrentReach}
use papper.Concurrent.Guarantees.{ConcurrentReach-ConcurrentInv}

module _ (sites : ℕ → CallSiteStaticData) where
  -- An event whose static data names the types of its arguments.
  pub record IsTyped (h : LogEventHeader) (args : List Value) : Type 0 where
    pub event : IsEvent h args
    pub kinds : (sites h.static_data).arg_kinds ≡ map kind_of args

  abbrev IsTypedMessage : Bytes → Type 0
  IsTypedMessage m =
      (h : LogEventHeader) × (args : List Value) × IsTyped h args × (m ≡ event_bytes h args)

  -- The messages of a program whose log statements all come from the macros.
  abbrev pub typed_framing : Framing
  typed_framing = record {
    IsMessage = IsTypedMessage;
    frame = event_size_at;
    nonempty = λ m (h, args, ok, e). event_nonempty m (h, args, ok.event, e);
    frame_lem = λ memory p m (h, args, ok, e). event_size_at_lem memory p m (h, args, ok.event, e);
  }

  module _ (name_at : ℕ → Text) (message_of : Text → List Value → Text) (local_time : ℕ → ℤ)
      (format_line : PatternData → Text) where
    -- In every interleaving, when the backend has got a pointer into the queue of a thread: processing
    -- what is there succeeds, and gives the size that is committed then and the lines of the next event
    -- that the thread has committed and the backend has not read.
    pub processes_next :
        (min_log_level : LogLevel) {s : Concurrent}
        → ConcurrentReach typed_framing s
        → (a i pos : ℕ) → (s.contexts a).channel.consumer ≡ reading i pos
        → (h : LogEventHeader) × (args : List Value) × (rest : List Bytes) × ((s.contexts
              a).channel.sent
            ≡ (s.contexts a).channel.received ++ event_bytes h args ∷ rest)
          × (read_and_process_single_event sites name_at message_of local_time format_line
                min_log_level
                (s.contexts a).channel.queue.buffer
                i
              ≡ some (
                event_size_at (s.contexts a).channel.queue.buffer i,
                event_lines sites name_at message_of local_time format_line min_log_level h args,
              ))
    processes_next min_log_level {s} r a i pos busy =
        let (n, small, c) = (ConcurrentReach-ConcurrentInv typed_framing r).channels a in
        let (m, rest, there, message, order) = next_held typed_framing i pos small c busy in
        of_message m rest there message order
      where
        buffer : Bytes
        buffer = (s.contexts a).channel.queue.buffer

        of_message :
            (m : Bytes) (rest : List Bytes)
            → Holds buffer i m
            → IsTypedMessage m
            → (s.contexts a).channel.sent ≡ (s.contexts a).channel.received ++ m ∷ rest
            → (h : LogEventHeader) × (args : List Value) × (rest : List Bytes) × ((s.contexts
                  a).channel.sent
                ≡ (s.contexts a).channel.received ++ event_bytes h args ∷ rest)
              × (read_and_process_single_event sites name_at message_of local_time format_line
                    min_log_level buffer i
                  ≡ some (
                    event_size_at buffer i,
                    event_lines sites name_at message_of local_time format_line min_log_level h
                        args,
                  ))
        of_message m rest there (h, args, ok, e) order =
            let here : Holds buffer i (event_bytes h args) = subst (Holds buffer i) e there in
            (
              h,
              args,
              rest,
              order ∙ ap (λ (b : Bytes). (s.contexts a).channel.received ++ b ∷ rest) e,
              rw (event_size_at_lem buffer i (event_bytes h args) (h, args, ok.event, refl) here) (
                  reads_and_processes sites name_at message_of local_time format_line min_log_level
                    buffer i h args ok.event ok.kinds here),
            )
