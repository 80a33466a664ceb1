-- ===== src/Event.antt =====
-- A log event on its way through a queue, include/papper/detail/core.h: how `push_log_event` writes
-- it and how the backend reads it. A pointer to static data or to a name is its address.
pub mod RoundTrip
pub mod Protocol
pub mod Push
pub mod Accept
mod Tests
use papper.Common.{ℕ, ◌+◌, Option, none, some, List, [], ◌∷◌, map, take, drop, ◌>>=◌, add64}
use papper.Memory.{Bytes, load}
use papper.Queue.{Queue, reserve_write, commit_write}
use papper.Codec.{Kind, Value, object, kind_of, le_bytes, of_le, encoded_size_all, encode_all}
use papper.Text.{Text}
use papper.Level.{LogLevel, trace, debug, info, warn, error}

-- `CallSiteStaticData`. The decoding function is known by the types it decodes.
pub record CallSiteStaticData : Type 0 where
  pub level : LogLevel
  pub fmt_str : Text
  pub arg_kinds : List Kind
  pub file_name : Text
  pub function_name : Text
  pub line : ℕ

-- The static data that `PAPPER_LOG_IMPL` makes at a call site, with the types of its arguments, and the
-- macro of each level.
abbrev call_site : LogLevel → Text → List Value → Text → Text → ℕ → CallSiteStaticData
call_site level fmt_str args file_name function_name line = record {
  level = level;
  fmt_str = fmt_str;
  arg_kinds = map kind_of args;
  file_name = file_name;
  function_name = function_name;
  line = line;
}

abbrev papper_trace : Text → List Value → Text → Text → ℕ → CallSiteStaticData
papper_trace = call_site trace

abbrev pub papper_info : Text → List Value → Text → Text → ℕ → CallSiteStaticData
papper_info = call_site info

abbrev papper_debug : Text → List Value → Text → Text → ℕ → CallSiteStaticData
papper_debug = call_site debug

abbrev papper_warn : Text → List Value → Text → Text → ℕ → CallSiteStaticData
papper_warn = call_site warn

abbrev papper_error : Text → List Value → Text → Text → ℕ → CallSiteStaticData
papper_error = call_site error

pub record LogEventHeader : Type 0 where
  pub static_data : ℕ
  pub thread_name : ℕ
  pub timestamp : ℕ
  pub payload_size : ℕ

-- `sizeof(LogEventHeader)`: four fields of eight bytes, with no padding.
abbrev pub header_size : ℕ
header_size = 32

-- A 64-bit integer or an address as a trivially copyable object.
abbrev word_value : ℕ → Value
word_value x = object 8 (le_bytes 8 x)

-- The fields of a header as `push_log_event` encodes them.
abbrev pub header_values : LogEventHeader → List Value
header_values h =
    word_value h.static_data
    ∷ word_value h.thread_name
    ∷ word_value h.timestamp
    ∷ word_value h.payload_size
    ∷ []

abbrev pub header_for : ℕ → ℕ → ℕ → List Value → LogEventHeader
header_for static_data thread_name timestamp args = record {
  static_data = static_data;
  thread_name = thread_name;
  timestamp = timestamp;
  payload_size = encoded_size_all args;
}

-- The copies of an event into the reservation at index `i`.
unfoldable pub write_event : Bytes → ℕ → LogEventHeader → List Value → Bytes
write_event memory i h args =
    (encode_all (encode_all (record { memory = memory; at = i }) (header_values h)) args).memory

-- What `push_log_event` does with its reservation: an event that does not fit is dropped.
abbrev pub fill_reservation : Queue → Option ℕ → ℕ → LogEventHeader → List Value → Queue
fill_reservation q none new_write_pos h args = q
fill_reservation q (some i) new_write_pos h args =
    commit_write (record q { buffer = write_event q.buffer i h args }) new_write_pos

-- `push_log_event`, with the queue and the name of its thread; `loaded` is what the load in
-- `reserve_write` returns and `timestamp` what `read_tsc` does.
unfoldable pub push_log_event : ℕ → ℕ → Queue → ℕ → ℕ → List Value → Queue
push_log_event loaded timestamp q static_data thread_name args =
    let h = header_for static_data thread_name timestamp args in
    let (q', write) = reserve_write loaded q (add64 h.payload_size header_size) in
    fill_reservation q' write.buffer write.new_write_pos h args

-- The fields of the header that was copied as one object.
abbrev pub header_of : Bytes → LogEventHeader
header_of bs = record {
  static_data = of_le (take 8 bs);
  thread_name = of_le (take 8 (drop 8 bs));
  timestamp = of_le (take 8 (drop 16 bs));
  payload_size = of_le (take 8 (drop 24 bs));
}

unfoldable pub decode_header : Bytes → ℕ → Option (LogEventHeader × ℕ)
decode_header memory p = load memory p header_size >>= λ bs. some (header_of bs, p + header_size)

-- `total_event_size` of `read_and_process_single_event`.
unfoldable pub total_event_size : LogEventHeader → ℕ
total_event_size h = add64 header_size h.payload_size
