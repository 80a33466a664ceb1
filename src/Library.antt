-- ===== src/Library.antt =====
-- All of the library at work: the threads and the backend of include/papper/detail/core.h with what the
-- program calls in include/papper/papper.h, when they do not overlap: each call and each turn of the
-- backend is one uninterrupted step, whose loads show the newest stores. What may happen within a turn
-- is in Concurrent.
pub mod Texts
pub mod Refines
mod Tests
use papper.Common.{ℕ, ◌^◌, ◌≤◌, ◌≡◌, true, Option, some, List, [], ◌++◌, map}
use papper.Text.{Text}
use papper.Level.{LogLevel}
use papper.Double.{Double}
use papper.Codec.{Value, kind_of}
use papper.Pattern.{PatternData}
use papper.Event.{CallSiteStaticData}
use papper.Event.Protocol.{Call}
use papper.Event.Accept.{is_accepted}
use papper.Sink.{File, Effect, queue_new_sink}
use papper.Formatters.{FormatterEffect, queue_new_formatter}
use papper.Backend.{ThreadContext, kill, put_context}
use papper.Backend.Nodes.{Absent}
use papper.Backend.Rounds.{Taken, tagged}
use papper.Backend.Start.{Registry, start_thread}
use papper.Clock.{Clock, Reading}
use papper.MainLoop.{Backend, Turn, TurnResult, loop_turn, start_backend}
use papper.Program.{context_at, log_on, accepted}

-- The backend, the counter of threads with no name, the events accepted so far, and the effects on files
-- and on formatters.
pub record Library (D : Type 0) : Type 0 where
  pub backend : Backend D
  pub unnamed : ℕ
  pub logged : List Taken
  pub files : List Effect
  pub formatters : List FormatterEffect

module _ {D : Type 0} where
  abbrev pub registry : Library D → Registry
  registry l = record { nodes = l.backend.nodes; unnamed = l.unnamed }

  abbrev pub with_registry : Library D → Registry → Library D
  with_registry l r = record l {
    backend = record l.backend { nodes = r.nodes };
    unnamed = r.unnamed;
  }

  abbrev pub with_context : Library D → ℕ → ThreadContext → Library D
  with_context l address c = record l {
    backend = record l.backend { nodes = put_context address c l.backend.nodes };
  }

  abbrev pub first_state : Backend D → Library D
  first_state b = record { backend = b; unnamed = 0; logged = []; files = []; formatters = [] }

module _ {D : Type 0} (double : Double D) (to_string : ℕ → Text) (sites : ℕ → CallSiteStaticData)
    (name_at : ℕ → Text) (message_of : Text → List Value → Text)
    (format_of : ℕ → PatternData → Text) where
  -- The steps of threads, those of the program that sets the sink, the pattern and the level, and the
  -- turns of the backend.
  pub data LibraryStep (l : Library D) : Library D → Type 0 where
    thread_starts :
        (address queue_size : ℕ) (thread_name : Text)
        → Absent address l.backend.nodes
        → queue_size ≤ 2 ^ 62
        → LibraryStep l
            (with_registry l (start_thread to_string address thread_name queue_size (registry l)))
    thread_logs :
        (address static_data thread_name timestamp : ℕ) (args : List Value) (c : ThreadContext)
        → context_at address l.backend.nodes ≡ some c
        → c.is_alive ≡ true
        → Call static_data thread_name timestamp args
        → (sites static_data).arg_kinds ≡ map kind_of args
        → LibraryStep l
            (record (with_context l address (log_on static_data thread_name timestamp args c)) {
              logged =
                  l.logged
                  ++ tagged address
                      (accepted (is_accepted c.queue args) static_data thread_name timestamp args);
            })
    thread_ends :
        (address : ℕ) (c : ThreadContext)
        → context_at address l.backend.nodes ≡ some c
        → LibraryStep l (with_context l address (kill c))
    sets_sink :
        (file : Option File) (buffering_mode buffer_size : ℕ)
        → LibraryStep l (record l {
          backend = record l.backend {
            sink = (queue_new_sink l.backend.sink file buffering_mode buffer_size).0;
          };
          files = l.files ++ (queue_new_sink l.backend.sink file buffering_mode buffer_size).1;
        })
    sets_formatter :
        (formatter : Option ℕ)
        → LibraryStep l (record l {
          backend = record l.backend {
            pattern_formatter = (queue_new_formatter l.backend.pattern_formatter formatter).0;
          };
          formatters =
              l.formatters ++ (queue_new_formatter l.backend.pattern_formatter formatter).1;
        })
    sets_level :
        (level : LogLevel)
        → LibraryStep l (record l { backend = record l.backend { min_log_level = level } })
    turns :
        (t : Turn) (result : TurnResult D)
        → loop_turn double sites name_at message_of format_of l.backend t ≡ some result
        → LibraryStep l (record l {
          backend = result.after;
          files = l.files ++ result.files;
          formatters = l.formatters ++ result.formatters;
        })

  -- From the construction of the backend on.
  pub data LibraryRun : Library D → Type 0 where
    constructed :
        (memory : Clock D) (default_formatter : ℕ) (tick : Option D) (r : Reading) (b : Backend D)
        → start_backend double sites name_at message_of format_of memory default_formatter tick r
          ≡ some b
        → LibraryRun (first_state b)
    further : {l l' : Library D} → LibraryRun l → LibraryStep l l' → LibraryRun l'
