-- ===== src/Settings/Files.antt =====
-- What `set_sink` with a file name (include/papper/papper.h) means for the lines that follow.
use papper.Common.{ℕ, Bool, true, false, ◌≡◌, refl, Option, none, some, List, [], ◌∷◌}
use papper.Level.{LogLevel}
use papper.Text.{Text, codes}
use papper.Sink.{
  File, std_out, fwrite, fputc, initial_sink, queue_new_sink, write_str_and_endl,
  poll_for_pending_sink_switch, SinkOp, run_sink,
}
use papper.Sink.Switch.{last_queued, poll_uses_last_queued}
use papper.Settings.{FlushOn, Settings, set_sink, set_opened, set_sink_file}

abbrev chosen_file : Option File → File → File
chosen_file none before = before
chosen_file (some f) before = f

abbrev reported : Option File → ℕ → ℕ
reported none errno = errno
reported (some f) errno = 0

-- The settings behind some calls of the sink.
abbrev settings_after : List SinkOp → LogLevel → ℕ → Settings
settings_after ops level size = record {
  sink = (run_sink initial_sink ops).0;
  min_log_level = level;
  queue_size = size;
}

abbrev pub mode_of : Bool → Text
mode_of true = codes "w"
mode_of false = codes "a"

opened_lem :
    (iolbf iofbf : ℕ) (ops : List SinkOp) (level : LogLevel) (size : ℕ) (answer : Option File)
    (errno : ℕ) (flush_on : FlushOn) (buffer_size : ℕ) (line : Text)
    → let (s', effects, code) =
        set_opened iolbf iofbf (settings_after ops level size) answer errno flush_on buffer_size in
      (write_str_and_endl (poll_for_pending_sink_switch s'.sink).0 line
        ≡ (let f = chosen_file answer (last_queued std_out ops) in fwrite f line ∷ fputc f 10 ∷ []))
      × (code ≡ reported answer errno)
      × (s'.min_log_level ≡ level)
      × (s'.queue_size ≡ size)
unfolding set_sink queue_new_sink poll_for_pending_sink_switch write_str_and_endl
opened_lem iolbf iofbf ops level size none errno flush_on buffer_size line =
    (poll_uses_last_queued ops line, refl, refl, refl)
opened_lem iolbf iofbf ops level size (some f) errno flush_on buffer_size line =
    (refl, refl, refl, refl)

-- Behind any calls of the sink: the file of that name is opened anew if the call truncates, and else at
-- its end. The lines after the next poll go to it, if it could be opened, and otherwise where they would
-- have gone without the call; and the call returns 0 in the first case and the error number in the
-- second. The minimum level and the queue size stay as they are.
pub set_sink_file_lem :
    (iolbf iofbf : ℕ) (ops : List SinkOp) (level : LogLevel) (size : ℕ)
    (fopen : Text → Text → Option File) (filename : Text) (truncate : Bool) (errno : ℕ)
    (flush_on : FlushOn) (buffer_size : ℕ) (line : Text)
    → let (s', effects, code) =
        set_sink_file iolbf iofbf
          (settings_after ops level size)
          fopen
          filename
          truncate
          errno
          flush_on
          buffer_size in
      let answer = fopen filename (mode_of truncate) in
      (write_str_and_endl (poll_for_pending_sink_switch s'.sink).0 line
        ≡ (let f = chosen_file answer (last_queued std_out ops) in fwrite f line ∷ fputc f 10 ∷ []))
      × (code ≡ reported answer errno)
      × (s'.min_log_level ≡ level)
      × (s'.queue_size ≡ size)
unfolding set_sink_file
set_sink_file_lem iolbf iofbf ops level size fopen filename true errno flush_on buffer_size line =
    opened_lem iolbf iofbf ops level size (fopen filename (codes "w")) errno flush_on buffer_size
      line
set_sink_file_lem iolbf iofbf ops level size fopen filename false errno flush_on buffer_size line =
    opened_lem iolbf iofbf ops level size (fopen filename (codes "a")) errno flush_on buffer_size
      line
