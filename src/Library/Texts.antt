-- ===== src/Library/Texts.antt =====
-- What the effects of the sink (include/papper/detail/sink.h) write.
-- The texts that were written, to whatever file, but for the line feeds.
use papper.Common.{ℕ, ◌≡◌, refl, ap, ap₂, ◌∙◌, Option, none, some, List, [], ◌∷◌, ◌++◌}
use papper.Text.{Text}
use papper.Sink.{
  File, std_out, std_err, opened, SinkDescriptor, SinkHandler, Effect, fclose, fflush, setvbuf,
  fwrite, fputc, close_file, drop_pending, queue_new_sink, write_str_and_endl, switch_to,
  poll_for_pending_sink_switch, destroy,
}
use papper.MainLoop.{write_lines}

abbrev pub texts_of : List Effect → List Text
texts_of [] = []
texts_of (fwrite f text ∷ es) = text ∷ texts_of es
texts_of (fputc f c ∷ es) = texts_of es
texts_of (fclose f ∷ es) = texts_of es
texts_of (fflush f ∷ es) = texts_of es
texts_of (setvbuf f mode size ∷ es) = texts_of es

pub texts_of-append : (es fs : List Effect) → texts_of (es ++ fs) ≡ texts_of es ++ texts_of fs
texts_of-append [] fs = refl
texts_of-append (fwrite f text ∷ es) fs = ap (λ (l : List Text). text ∷ l) (texts_of-append es fs)
texts_of-append (fputc f c ∷ es) fs = texts_of-append es fs
texts_of-append (fclose f ∷ es) fs = texts_of-append es fs
texts_of-append (fflush f ∷ es) fs = texts_of-append es fs
texts_of-append (setvbuf f mode size ∷ es) fs = texts_of-append es fs

-- Closing a file, dropping a sink and switching to one write nothing.
texts_of-close_file : (f : File) → texts_of (close_file f) ≡ []
unfolding close_file
texts_of-close_file std_out = refl
texts_of-close_file std_err = refl
texts_of-close_file (opened n) = refl

texts_of-drop_pending : (p : Option SinkDescriptor) → texts_of (drop_pending p) ≡ []
texts_of-drop_pending none = refl
texts_of-drop_pending (some d) = texts_of-close_file d.file

pub texts_of-queue_new_sink :
    (s : SinkHandler) (file : Option File) (mode size : ℕ)
    → texts_of (queue_new_sink s file mode size).1 ≡ []
unfolding queue_new_sink
texts_of-queue_new_sink s none mode size = refl
texts_of-queue_new_sink s (some f) mode size = texts_of-drop_pending s.pending_new_sink

texts_of-switch_to : (s : SinkHandler) (p : Option SinkDescriptor) → texts_of (switch_to s p).1 ≡ []
texts_of-switch_to s none = refl
texts_of-switch_to s (some d) =
    texts_of-append (close_file s.file) (setvbuf d.file d.buffering_mode d.buffer_size ∷ [])
    ∙ ap (λ (l : List Text). l ++ []) (texts_of-close_file s.file)

pub texts_of-poll : (s : SinkHandler) → texts_of (poll_for_pending_sink_switch s).1 ≡ []
unfolding poll_for_pending_sink_switch
texts_of-poll s = texts_of-switch_to s s.pending_new_sink

pub texts_of-destroy : (s : SinkHandler) → texts_of (destroy s) ≡ []
unfolding destroy
texts_of-destroy s =
    texts_of-append (drop_pending s.pending_new_sink) (close_file s.file)
    ∙ ap₂ ◌++◌ (texts_of-drop_pending s.pending_new_sink) (texts_of-close_file s.file)

pub texts_of-write_lines :
    (s : SinkHandler) (lines : List Text) → texts_of (write_lines s lines) ≡ lines
unfolding write_lines write_str_and_endl
texts_of-write_lines s [] = refl
texts_of-write_lines s (line ∷ lines) =
    ap (λ (l : List Text). line ∷ l) (texts_of-write_lines s lines)

-- Effects that write nothing, and then lines.
pub texts_of-lines :
    (es fs : List Effect) (s : SinkHandler) (lines : List Text)
    → texts_of fs ≡ []
    → texts_of (es ++ (fs ++ write_lines s lines)) ≡ texts_of es ++ lines
texts_of-lines es fs s lines silent =
    texts_of-append es (fs ++ write_lines s lines)
    ∙ ap (λ (l : List Text). texts_of es ++ l)
        (texts_of-append fs (write_lines s lines) ∙ ap₂ ◌++◌ silent (texts_of-write_lines s lines))
