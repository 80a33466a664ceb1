-- ===== src/Library/Refines.antt =====
-- The library of include/papper/detail/core.h, with calls and turns that do not overlap, does what Program
-- says of the threads and the polls.
use papper.Common.{
  ℕ, ◌≡◌, refl, sym, ap, ap₂, ◌∙◌, subst, ◌⊎◌, inl, inr, some, List, [], ◌++◌, append-nil,
  >>=-eq-some,
}
use papper.Text.{Text}
use papper.Double.{Double}
use papper.Codec.{Value}
use papper.Pattern.{PatternData}
use papper.Event.{CallSiteStaticData}
use papper.Sink.{Effect, queue_new_sink, poll_for_pending_sink_switch, destroy}
use papper.Formatters.{FormatterEffect, destroy_handler}
use papper.Clock.{init_clock, timestamp_to_local_system_time}
use papper.Backend.{Node}
use papper.Backend.Rounds.{from}
use papper.MainLoop.{
  Backend, write_lines, Turn, TurnResult, loop_turn, start_backend, resync_in, stop_backend,
}
use papper.Program.{Program, ProgramStep, starts, logs, ends, polls, Run, begin, next}
use papper.Program.Batches.{Batch, taken_in, written_by}
use papper.Program.Complete.{AllEnded, all_written}
use papper.Library.{
  Library, registry, LibraryStep, thread_starts, thread_logs, thread_ends, sets_sink,
  sets_formatter, sets_level, turns, LibraryRun, constructed, further,
}
use papper.Library.Texts.{
  texts_of, texts_of-append, texts_of-queue_new_sink, texts_of-poll, texts_of-destroy,
  texts_of-write_lines, texts_of-lines,
}

-- What the library's state is as one of Program.
abbrev pub view : {D : Type 0} → Library D → Program
view l = record { threads = registry l; logged = l.logged; written = texts_of l.files }

module _ {D : Type 0} (double : Double D) (to_string : ℕ → Text) (sites : ℕ → CallSiteStaticData)
    (name_at : ℕ → Text) (message_of : Text → List Value → Text)
    (format_of : ℕ → PatternData → Text) where
  -- A turn polls, and writes the lines of the poll.
  turn-polls :
      (l : Library D) (t : Turn) (result : TurnResult D)
      → loop_turn double sites name_at message_of format_of l.backend t ≡ some result
      → ProgramStep to_string sites name_at message_of (view l) (
          view (record l {
            backend = result.after;
            files = l.files ++ result.files;
            formatters = l.formatters ++ result.formatters;
          }))
  unfolding loop_turn
  turn-polls l t result h =
      let ((nodes, were, lines), at, e) = >>=-eq-some _ _ h in
      subst
        (λ (r : TurnResult D). ProgramStep to_string sites name_at message_of (view l) (behind r))
        (same e)
        (subst
          (λ (w : List Text). ProgramStep to_string sites name_at message_of (view l) (record {
            threads = record { nodes = nodes; unnamed = l.unnamed };
            logged = l.logged;
            written = w;
          }))
          (sym (
            texts_of-lines l.files (poll_for_pending_sink_switch l.backend.sink).1
              (poll_for_pending_sink_switch l.backend.sink).0 lines (texts_of-poll l.backend.sink)))
          (polls _ _ _ nodes were lines at))
    where
      behind : TurnResult D → Program
      behind r = view (record l {
        backend = r.after;
        files = l.files ++ r.files;
        formatters = l.formatters ++ r.formatters;
      })

      same : {r : TurnResult D} → some r ≡ some result → r ≡ result
      same e = cc

  -- Each step is one of Program or changes nothing there.
  step-refines :
      {l l' : Library D}
      → LibraryStep double to_string sites name_at message_of format_of l l'
      → ProgramStep to_string sites name_at message_of (view l) (view l') ⊎ (view l ≡ view l')
  step-refines {l} (thread_starts address queue_size thread_name absent small) =
      inl (starts address queue_size thread_name absent small)
  step-refines {l}
        (thread_logs address static_data thread_name timestamp args c there alive call typed) =
      inl (logs address static_data thread_name timestamp args c there alive call typed)
  step-refines {l} (thread_ends address c there) = inl (ends address c there)
  step-refines {l} (sets_sink file mode size) = inr (
      ap (λ (w : List Text). record { threads = registry l; logged = l.logged; written = w })
        (sym (
          texts_of-append l.files (queue_new_sink l.backend.sink file mode size).1
          ∙ ap (λ (w : List Text). texts_of l.files ++ w)
              (texts_of-queue_new_sink l.backend.sink file mode size)
          ∙ append-nil (texts_of l.files))))
  step-refines {l} (sets_formatter formatter) = inr refl
  step-refines {l} (sets_level level) = inr refl
  step-refines {l} (turns t result h) = inl (turn-polls l t result h)

  -- Every run of the library, seen as one of Program.
  LibraryRun-Run :
      {l : Library D}
      → LibraryRun double to_string sites name_at message_of format_of l
      → Run to_string sites name_at message_of (view l)
  unfolding start_backend
  LibraryRun-Run (constructed memory default_formatter tick r b at) =
      let (clock, found, e) = >>=-eq-some (init_clock double memory tick r) _ at in
      subst
        (λ (ns : List Node).
          Run to_string sites name_at message_of
            (record { threads = record { nodes = ns; unnamed = 0 }; logged = []; written = [] }))
        (no_nodes e) begin
    where
      no_nodes : {b' : Backend D} → some b' ≡ some b → b'.nodes ≡ b.nodes
      no_nodes {b'} e = ap (λ (x : Backend D). x.nodes) (same e)
        where
          same : some b' ≡ some b → b' ≡ b
          same x = cc
  LibraryRun-Run (further run step) = elim (step-refines step) [
    | inl s ↦ next (LibraryRun-Run run) s
    | inr e ↦ subst (Run to_string sites name_at message_of) e (LibraryRun-Run run)
  ]

  -- In a run in which the calls of the program and of its threads and the turns of the backend do not
  -- overlap, each of them one uninterrupted step whose loads show the newest stores: if all threads have
  -- ended, the destructor of the backend ends. All texts written to files by then are the lines of a
  -- sequence of polls, which took, of each thread, the events that its queue accepted, each once, in their
  -- order, and no others.
  pub stop_backend_lem :
      {l : Library D} (turn_at : ℕ → Turn)
      → LibraryRun double to_string sites name_at message_of format_of l
      → AllEnded l.backend.nodes
      → (fuel : ℕ) × (files : List Effect) × (deletions : List FormatterEffect) × (batches : List
          Batch)
        × (stop_backend double sites name_at message_of format_of fuel turn_at l.backend
            ≡ some (files, deletions))
        × (texts_of (l.files ++ files) ≡ written_by sites name_at message_of batches)
        × ((a : ℕ) → from a (taken_in batches) ≡ from a l.logged)
  unfolding stop_backend
  stop_backend_lem {l} turn_at run ended =
      let (fuel, lines, batches, at, written, complete) =
        all_written to_string sites name_at message_of
          (λ (n : ℕ).
            timestamp_to_local_system_time double
              (resync_in double sites name_at message_of format_of turn_at l.backend.resync
                n).clock)
          (format_of l.backend.pattern_formatter.formatter) l.backend.min_log_level
          (LibraryRun-Run run) ended in
      (
        fuel,
        write_lines l.backend.sink lines ++ destroy l.backend.sink,
        destroy_handler l.backend.pattern_formatter,
        batches,
        rw at refl,
        texts_of-append l.files (write_lines l.backend.sink lines ++ destroy l.backend.sink)
            ∙ ap (λ (w : List Text). texts_of l.files ++ w)
                (texts_of-append (write_lines l.backend.sink lines) (destroy l.backend.sink)
                  ∙ ap₂ ◌++◌ (texts_of-write_lines l.backend.sink lines)
                      (texts_of-destroy l.backend.sink)
                  ∙ append-nil lines)
            ∙ written,
        complete,
      )
