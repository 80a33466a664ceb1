-- ===== src/Event/RoundTrip.antt =====
-- The bytes of an event (include/papper/detail/core.h): what `push_log_event` writes is what the
-- backend reads.
use papper.Common.{ℕ, ◌+◌, ◌^◌, ◌<◌, ◌≡◌, refl, sym, ap, ◌∙◌, some, List, ◌++◌, length}
use papper.Memory.{Bytes, blit, load, Holds, load-Holds, blit-append}
use papper.Codec.{Value, le_bytes, Cursor, encode_all}
use papper.Codec.Endian.{length-le_bytes, of_le-le_bytes_8}
use papper.Codec.RoundTrip.{AllValues, bytes_of_all, encode_all_lem}
use papper.Event.{LogEventHeader, header_values, write_event, header_of, decode_header}

-- The fields of a header fit their 64 bits.
pub record HeaderFits (h : LogEventHeader) : Type 0 where
  pub static_data_fits : h.static_data < 2 ^ 64
  pub thread_name_fits : h.thread_name < 2 ^ 64
  pub timestamp_fits : h.timestamp < 2 ^ 64
  pub payload_size_fits : h.payload_size < 2 ^ 64

-- The bytes of a header and of a whole event.
abbrev pub header_bytes : LogEventHeader → Bytes
header_bytes h = bytes_of_all (header_values h)

abbrev pub event_bytes : LogEventHeader → List Value → Bytes
event_bytes h args = header_bytes h ++ bytes_of_all args

header_values-AllValues : (h : LogEventHeader) → AllValues (header_values h)
header_values-AllValues h = (
  length-le_bytes 8 h.static_data,
  (
    length-le_bytes 8 h.thread_name,
    (length-le_bytes 8 h.timestamp, (length-le_bytes 8 h.payload_size, tt)),
  ),
)

pub length-header_bytes : (h : LogEventHeader) → length (header_bytes h) ≡ 32
length-header_bytes h = unfold le_bytes in refl

-- Reading a header's fields off its bytes.
header_of-header_bytes : (h : LogEventHeader) → HeaderFits h → header_of (header_bytes h) ≡ h
header_of-header_bytes h fits =
    unfold le_bytes in
    λ i. record {
      static_data = of_le-le_bytes_8 h.static_data fits.static_data_fits i;
      thread_name = of_le-le_bytes_8 h.thread_name fits.thread_name_fits i;
      timestamp = of_le-le_bytes_8 h.timestamp fits.timestamp_fits i;
      payload_size = of_le-le_bytes_8 h.payload_size fits.payload_size_fits i;
    }

-- `write_event` copies exactly the bytes of the event.
pub write_event_lem :
    (memory : Bytes) (i : ℕ) (h : LogEventHeader) (args : List Value)
    → AllValues args
    → write_event memory i h args ≡ blit memory i (event_bytes h args)
unfolding write_event
write_event_lem memory i h args ok =
    ap (λ (c : Cursor). (encode_all c args).memory)
      (encode_all_lem memory i (header_values h) (header_values-AllValues h))
    ∙ ap (λ (c : Cursor). c.memory)
        (encode_all_lem (blit memory i (header_bytes h)) (i + length (header_bytes h)) args ok)
    ∙ sym (blit-append memory i (header_bytes h) (bytes_of_all args))

-- The header of an event that lies in the memory is read back.
pub decode_header_lem :
    (memory : Bytes) (p : ℕ) (h : LogEventHeader)
    → HeaderFits h
    → Holds memory p (header_bytes h)
    → decode_header memory p ≡ some (h, p + 32)
unfolding decode_header
decode_header_lem memory p h fits there =
    rw loaded (ap (λ (x : LogEventHeader). some (x, p + 32)) (header_of-header_bytes h fits))
  where
    loaded : load memory p 32 ≡ some (header_bytes h)
    loaded =
        ap (load memory p) (sym (length-header_bytes h))
        ∙ load-Holds memory p (header_bytes h) there
