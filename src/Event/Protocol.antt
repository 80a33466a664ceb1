-- ===== src/Event/Protocol.antt =====
-- `push_log_event` (include/papper/detail/core.h) keeps the protocol of the queue's two threads, so
-- what the queue promises holds of log events.
use papper.Common.{
  ℕ, ◌+◌, ◌^◌, ◌<◌, ◌≡◌, refl, sym, ap, ◌∙◌, ◌⊎◌, inl, inr, Option, none, some, List, [], ◌∷◌, ◌++◌,
  arith, ltb, if◌then◌else◌, Option-cases, length, length-append, add64, sub64,
}
use papper.Memory.{Bytes, blit, Holds, Holds-append}
use papper.Queue.{Queue, WriteReservation, free_space, reserve_write, commit_write}
use papper.Queue.Spsc.{
  Framing, Producer, idle, System, Step, latest, begin_write, reserve, write, commit,
}
use papper.Queue.Spsc.Unseen.{ByProducer}
use papper.Codec.{Value, encoded_size_all}
use papper.Codec.RoundTrip.{AllValues, bytes_of_all, encoded_size_all_lem}
use papper.Event.{
  LogEventHeader, header_size, header_for, fill_reservation, push_log_event, decode_header,
  total_event_size,
}
use papper.Event.RoundTrip.{
  HeaderFits, header_bytes, event_bytes, length-header_bytes, write_event_lem, decode_header_lem,
}

-- A header with the arguments that follow it.
pub record IsEvent (h : LogEventHeader) (args : List Value) : Type 0 where
  pub header_fits : HeaderFits h
  pub values : AllValues args
  pub payload : h.payload_size ≡ length (bytes_of_all args)
  pub small : 32 + length (bytes_of_all args) < 2 ^ 64

pub length-event_bytes :
    (h : LogEventHeader) (args : List Value)
    → length (event_bytes h args) ≡ 32 + length (bytes_of_all args)
length-event_bytes h args =
    omega (arith, length-append (header_bytes h) (bytes_of_all args), length-header_bytes h)

abbrev size_of : Option (LogEventHeader × ℕ) → ℕ
size_of none = 0
size_of (some (h, p1)) = total_event_size h

-- The size that the backend reads off the header that it points at.
unfoldable pub event_size_at : Bytes → ℕ → ℕ
event_size_at memory p = size_of (decode_header memory p)

abbrev IsEventMessage : Bytes → Type 0
IsEventMessage m =
    (h : LogEventHeader) × (args : List Value) × IsEvent h args × (m ≡ event_bytes h args)

pub event_size_at_lem :
    (memory : Bytes) (p : ℕ) (m : Bytes)
    → IsEventMessage m
    → Holds memory p m
    → event_size_at memory p ≡ length m
unfolding event_size_at total_event_size
event_size_at_lem memory p m (h, args, ok, e) there =
    rw
      (decode_header_lem memory p h ok.header_fits
        (Holds-append memory p (header_bytes h) (bytes_of_all args) (rw e at there)).0)
      (omega (arith, ok.payload, ok.small, ap length e, length-event_bytes h args))

pub event_nonempty : (m : Bytes) → IsEventMessage m → 0 < length m
event_nonempty m (h, args, ok, e) = omega (arith, ap length e, length-event_bytes h args)

-- Log events as the messages of a queue.
abbrev pub log_framing : Framing
log_framing = record {
  IsMessage = IsEventMessage;
  frame = event_size_at;
  nonempty = event_nonempty;
  frame_lem = event_size_at_lem;
}

-- Steps of the producer of a queue of log events.
pub data ProducerRun (s : System) : System → Type 0 where
  no_step : ProducerRun s s
  and_step :
      {t u : System}
      → ProducerRun s t
      → (st : Step log_framing t u) → ByProducer st
      → ProducerRun s u

-- A reservation is refused only if there is no room by the position that was loaded.
reserve_write-refused :
    (loaded : ℕ) (q : Queue) (size : ℕ)
    → (reserve_write loaded q size).1.buffer ≡ none
    → sub64 (add64 loaded q.capacity) q.w < size
unfolding reserve_write
reserve_write-refused loaded q size h = ground arith

-- A call of `push_log_event` that has a value for each part.
pub record Call (static_data thread_name timestamp : ℕ) (args : List Value) : Type 0 where
  pub static_data_fits : static_data < 2 ^ 64
  pub thread_name_fits : thread_name < 2 ^ 64
  pub timestamp_fits : timestamp < 2 ^ 64
  pub values : AllValues args
  pub small : 32 + length (bytes_of_all args) < 2 ^ 64

module _ {static_data thread_name timestamp : ℕ} {args : List Value}
    (c : Call static_data thread_name timestamp args) where
  abbrev pub header : LogEventHeader
  header = header_for static_data thread_name timestamp args

  -- the bytes that the call publishes
  abbrev pub published : Bytes
  published = event_bytes header args

  payload_lem : encoded_size_all args ≡ length (bytes_of_all args)
  payload_lem = encoded_size_all_lem args c.values (omega (arith, c.small))

  pub Call-IsEvent : IsEvent header args
  Call-IsEvent = record {
    header_fits = record {
      static_data_fits = c.static_data_fits;
      thread_name_fits = c.thread_name_fits;
      timestamp_fits = c.timestamp_fits;
      payload_size_fits = omega (arith, payload_lem, c.small);
    };
    values = c.values;
    payload = payload_lem;
    small = c.small;
  }

  pub requested : add64 (encoded_size_all args) header_size ≡ length published
  requested = omega (arith, payload_lem, c.small, length-event_bytes header args)

  -- What the call does to a system of threads that is in the state `s`, its load of the position of
  -- the consumer returning `loaded`: steps of the producer lead to a state with the queue that the call
  -- leaves. The event is then the last one sent; or the sizes of the unread messages, by that position,
  -- and of the event exceed the capacity, and nothing is sent.
  pub record Pushed (s : System) (loaded : ℕ) (q : Queue) : Type 0 where
    pub after : System
    pub steps : ProducerRun s after
    pub queue : after.queue ≡ q
    pub idle_again : after.producer ≡ idle
    pub outcome :
        (after.sent ≡ s.sent ++ published ∷ [])
        ⊎ ((after.sent ≡ s.sent)
            × (sub64 (add64 loaded s.queue.capacity) s.queue.w < length published))

  -- In every state in which the producer is idle, for every admissible load: a call of
  -- `push_log_event` is a sequence of steps of the producer, at whose end the event is committed; or it
  -- is dropped, and then the space that is free by the position that the load returns is less than the
  -- size of the event.
  pub push_log_event-Pushed :
      {s : System} (passed rest : List ℕ)
      → s.producer ≡ idle
      → s.r_log ≡ passed ++ rest
      → Pushed s (latest s.queue.cached_r passed) (
          push_log_event
            (latest s.queue.cached_r passed)
            timestamp
            s.queue
            static_data
            thread_name
            args)
  unfolding push_log_event
  push_log_event-Pushed {s} passed rest free split =
      rw requested (go out.0 out.1 (Option-cases out.1.buffer) reserved refused)
    where
      size : ℕ
      size = length published

      loaded : ℕ
      loaded = latest s.queue.cached_r passed

      out : Queue × WriteReservation
      out = reserve_write loaded s.queue size

      log : List ℕ
      log = if ltb (free_space s.queue) size then rest else s.r_log

      state : Queue → Producer → System
      state q p = record s { queue = q; r_log = log; producer = p }

      reserved : ProducerRun s (state out.0 (begin_write out.1 size))
      reserved = and_step no_step (reserve size passed rest free split) tt

      refused : out.1.buffer ≡ none → sub64 (add64 loaded s.queue.capacity) s.queue.w < size
      refused = reserve_write-refused loaded s.queue size

      go :
          (q : Queue) (res : WriteReservation)
          → (res.buffer ≡ none) ⊎ ((i : ℕ) × (res.buffer ≡ some i))
          → ProducerRun s (state q (begin_write res size))
          → (res.buffer ≡ none → sub64 (add64 loaded s.queue.capacity) s.queue.w < size)
          → Pushed s loaded (fill_reservation q res.buffer res.new_write_pos header args)
      go q res (inl e) r' small = rw e (record {
        after = state q idle;
        steps = rw e at r';
        queue = refl;
        idle_again = refl;
        outcome = inr (refl, small e);
      })
      go q res (inr (i, e)) r' small = rw e (record {
        after = record s {
          queue =
              commit_write (record q { buffer = blit q.buffer (i + 0) published })
                res.new_write_pos;
          w_log = s.w_log ++ res.new_write_pos ∷ [];
          r_log = log;
          producer = idle;
          sent = s.sent ++ published ∷ [];
        };
        steps =
            and_step
              (and_step (rw e at r')
                (write i res.new_write_pos size [] published refl (omega arith)) tt)
              (commit i res.new_write_pos size published refl refl
                (header, args, Call-IsEvent, refl))
              tt;
        queue =
            ap (λ (b : Bytes). commit_write (record q { buffer = b }) res.new_write_pos)
              (ap (λ (k : ℕ). blit q.buffer k published) (omega arith)
                ∙ sym (write_event_lem q.buffer i header args c.values));
        idle_again = refl;
        outcome = inl refl;
      })
