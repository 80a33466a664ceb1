-- ===== src/Program.antt =====
-- The library at work: threads that register, log and end, and the polls of the backend thread, of
-- include/papper/detail/core.h, when they do not overlap: a call of `push_log_event` and a poll are one
-- uninterrupted step each, whose loads show the newest stores. What the threads may do within a poll is
-- in Concurrent, and what is lost then.
pub mod Threads
pub mod Batches
pub mod Accounts
pub mod Complete
mod Tests
use papper.Common.{
  ℕ, ◌^◌, ◌≤◌, ◌≡◌, Bool, true, false, Option, none, some, List, [], ◌∷◌, ◌++◌, map, ◌==◌,
  if◌then◌else◌,
}
use papper.Common.Int.{ℤ}
use papper.Text.{Text}
use papper.Level.{LogLevel}
use papper.Codec.{Value, kind_of}
use papper.Pattern.{PatternData}
use papper.Event.{CallSiteStaticData, push_log_event, header_for}
use papper.Event.Protocol.{Call}
use papper.Event.Accept.{is_accepted}
use papper.Backend.{ThreadContext, kill, Node, put_context, poll_threads}
use papper.Backend.Nodes.{Absent}
use papper.Backend.Visit.{LogEvent}
use papper.Backend.Rounds.{Taken, tagged}
use papper.Backend.Start.{Registry, start_thread}

-- The threads of the backend, the events that their queues have accepted so far, each with the address
-- of its thread, and the lines written so far.
pub record Program : Type 0 where
  pub threads : Registry
  pub logged : List Taken
  pub written : List Text

abbrev pub initial_program : Program
initial_program = record { threads = record { nodes = []; unnamed = 0 }; logged = []; written = [] }

-- The context that a thread-local handler points to, by the address of its node.
abbrev pub context_at : ℕ → List Node → Option ThreadContext
context_at address [] = none
context_at address (n ∷ nodes) =
    if n.address == address then some n.context else context_at address nodes

-- What a thread does in its context.
abbrev pub change_context : Program → ℕ → ThreadContext → Program
change_context p address c = record p {
  threads = record p.threads { nodes = put_context address c p.threads.nodes };
}

abbrev pub log_on : ℕ → ℕ → ℕ → List Value → ThreadContext → ThreadContext
log_on static_data thread_name timestamp args c = record c {
  queue = push_log_event c.queue.atomic_r timestamp c.queue static_data thread_name args;
}

-- The event of a call, if the queue accepted it.
abbrev pub accepted : Bool → ℕ → ℕ → ℕ → List Value → List LogEvent
accepted false static_data thread_name timestamp args = []
accepted true static_data thread_name timestamp args =
    (header_for static_data thread_name timestamp args, args) ∷ []

module _ (to_string : ℕ → Text) (sites : ℕ → CallSiteStaticData) (name_at : ℕ → Text)
    (message_of : Text → List Value → Text) where
  -- What can happen, one after the other: a thread starts, its node getting an address that no other has; a living thread
  -- logs, from a call site whose static data names the types of the arguments; a thread ends; the
  -- backend polls, with its level, clock and formatter as they are then.
  pub data ProgramStep (p : Program) : Program → Type 0 where
    starts :
        (address queue_size : ℕ) (thread_name : Text)
        → Absent address p.threads.nodes
        → queue_size ≤ 2 ^ 62
        → ProgramStep p
            (record p { threads = start_thread to_string address thread_name queue_size p.threads })
    logs :
        (address static_data thread_name timestamp : ℕ) (args : List Value) (c : ThreadContext)
        → context_at address p.threads.nodes ≡ some c
        → c.is_alive ≡ true
        → Call static_data thread_name timestamp args
        → (sites static_data).arg_kinds ≡ map kind_of args
        → ProgramStep p
            (record (change_context p address (log_on static_data thread_name timestamp args c)) {
              logged =
                  p.logged
                  ++ tagged address
                      (accepted (is_accepted c.queue args) static_data thread_name timestamp args);
            })
    ends :
        (address : ℕ) (c : ThreadContext)
        → context_at address p.threads.nodes ≡ some c
        → ProgramStep p (change_context p address (kill c))
    polls :
        (min_log_level : LogLevel) (local_time : ℕ → ℤ) (format_line : PatternData → Text)
        (nodes : List Node) (were : Bool) (lines : List Text)
        → poll_threads sites name_at message_of local_time format_line min_log_level p.threads.nodes
            p.threads.nodes
          ≡ some (nodes, were, lines)
        → ProgramStep p (record p {
          threads = record p.threads { nodes = nodes };
          written = p.written ++ lines;
        })

  pub data Run : Program → Type 0 where
    begin : Run initial_program
    next : {p q : Program} → Run p → ProgramStep p q → Run q
