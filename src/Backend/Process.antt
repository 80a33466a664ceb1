-- ===== src/Backend/Process.antt =====
-- The backend (include/papper/detail/core.h) writes the line of the event that was logged.
use papper.Common.{
  ℕ, ◌+◌, ◌≤◌, ◌<◌, ◌≡◌, refl, ap, ◌∙◌, subst, ◌⊎◌, inl, inr, Option, some, List, [], ◌∷◌, arith,
  map, ltb, ltb→lt, leb_of_ltb, Bool-cases, length,
}
use papper.Common.Int.{ℤ}
use papper.Memory.{Bytes, Holds, Holds-append}
use papper.Codec.{Value, kind_of}
use papper.Codec.RoundTrip.{bytes_of_all, decode_all_lem}
use papper.Text.{Text}
use papper.Level.{LogLevel, severity}
use papper.Pattern.{PatternData}
use papper.Event.{CallSiteStaticData, LogEventHeader, total_event_size}
use papper.Event.RoundTrip.{header_bytes, event_bytes, length-header_bytes, decode_header_lem}
use papper.Event.Protocol.{IsEvent, length-event_bytes}
use papper.Backend.{event_lines, read_and_process_single_event}

module _ (sites : ℕ → CallSiteStaticData) (name_at : ℕ → Text)
    (message_of : Text → List Value → Text) (local_time : ℕ → ℤ)
    (format_line : PatternData → Text) where
  -- For an event that lies in the memory, its static data naming the types of its arguments: the
  -- backend reads the event's whole size and makes its lines of the header and the arguments.
  pub reads_and_processes :
      (min_log_level : LogLevel) (memory : Bytes) (p : ℕ) (h : LogEventHeader) (args : List Value)
      → IsEvent h args
      → (sites h.static_data).arg_kinds ≡ map kind_of args
      → Holds memory p (event_bytes h args)
      → read_and_process_single_event sites name_at message_of local_time format_line min_log_level
          memory p
        ≡ some (
          length (event_bytes h args),
          event_lines sites name_at message_of local_time format_line min_log_level h args,
        )
  unfolding read_and_process_single_event total_event_size
  reads_and_processes min_log_level memory p h args ok kinds there =
      rw (decode_header_lem memory p h ok.header_fits parts.0) (
        rw kinds (
          rw (decode_all_lem memory (p + 32) args ok.values rest) (
            ap {B = Option (ℕ × List Text)}
              (λ (n : ℕ). some (
                n,
                event_lines sites name_at message_of local_time format_line min_log_level h args,
              ))
              (omega (arith, ok.payload, ok.small, length-event_bytes h args)))))
    where
      parts :
          Holds memory p (header_bytes h)
          × Holds memory (p + length (header_bytes h)) (bytes_of_all args)
      parts = Holds-append memory p (header_bytes h) (bytes_of_all args) there

      rest : Holds memory (p + 32) (bytes_of_all args)
      rest =
          subst (λ (n : ℕ). Holds memory (p + n) (bytes_of_all args)) (length-header_bytes h)
            parts.1

  -- For an event that lies in the memory, its static data naming the types of its arguments: the
  -- backend reads the event's whole size. It writes nothing if the level of the call site is below the
  -- minimum; and otherwise one line, with the level, the file, the function and the line of the call
  -- site, the name and the local time that the header stands for, and the message that fmt makes of the
  -- call site's text and the arguments as they were logged.
  pub read_and_process_lem :
      (min_log_level : LogLevel) (memory : Bytes) (p : ℕ) (h : LogEventHeader) (args : List Value)
      → IsEvent h args
      → (sites h.static_data).arg_kinds ≡ map kind_of args
      → Holds memory p (event_bytes h args)
      → let processed =
          read_and_process_single_event sites name_at message_of local_time format_line
            min_log_level memory p in
        let site = sites h.static_data in
        ((severity site.level < severity min_log_level)
          × (processed ≡ some (length (event_bytes h args), [])))
        ⊎ ((severity min_log_level ≤ severity site.level)
            × (processed
                ≡ some (
                  length (event_bytes h args),
                  format_line (record {
                    level = site.level;
                    thread_name = name_at h.thread_name;
                    timestamp = local_time h.timestamp;
                    filename = site.file_name;
                    functionname = site.function_name;
                    linenumber = site.line;
                    message = message_of site.fmt_str args;
                  })
                      ∷ [],
                )))
  unfolding event_lines
  read_and_process_lem min_log_level memory p h args ok kinds there =
      elim (Bool-cases (ltb (severity (sites h.static_data).level) (severity min_log_level))) [
        | inl low ↦ inl (
          ltb→lt _ _ low,
          reads_and_processes min_log_level memory p h args ok kinds there ∙ rw low refl,
        )
        | inr high ↦ inr (
          leb_of_ltb _ _ high,
          reads_and_processes min_log_level memory p h args ok kinds there ∙ rw high refl,
        )
      ]
