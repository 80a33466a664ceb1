-- ===== src/Backend.antt =====
-- The backend thread, include/papper/detail/core.h: how it reads the events of the threads that have
-- registered, and drops a thread that is dead and has nothing left.
pub mod Process
pub mod Visit
pub mod Drain
pub mod Race
pub mod Start
pub mod Nodes
pub mod Rounds
pub mod Represents
pub mod Poll
pub mod Order
pub mod DrainAll
pub mod Backoff
pub mod Samples
mod Tests
use papper.Common.{
  ℕ, zero, suc, ◌+◌, ◌*◌, ◌%◌, ◌^◌, min, Bool, true, false, not, ◌||◌, Option, none, some, List, [],
  ◌∷◌, ◌++◌, ltb, ◌==◌, if◌then◌else◌, ◌>>=◌, add64,
}
use papper.Common.Int.{ℤ}
use papper.Memory.{Bytes}
use papper.Queue.{Queue, reserve_read, commit_read}
use papper.Codec.{Value, decode_all}
use papper.Text.{Text, codes}
use papper.Level.{LogLevel, severity}
use papper.Pattern.{PatternData}
use papper.Event.{CallSiteStaticData, LogEventHeader, decode_header, total_event_size}

-- `ThreadContext`: what a thread shares with the backend.
pub record ThreadContext : Type 0 where
  pub name : Text
  pub queue : Queue
  pub is_alive : Bool

-- The name that `ThreadContext` takes if it is given none: from a counter of such threads, counted
-- before. `to_string` is that of the standard library.
unfoldable pub thread_name_of : (ℕ → Text) → ℕ → Text → Text × ℕ
thread_name_of to_string unnamed [] = (codes "thread_" ++ to_string (unnamed + 1), unnamed + 1)
thread_name_of to_string unnamed (c ∷ cs) = (c ∷ cs, unnamed)

abbrev pub kill : ThreadContext → ThreadContext
kill c = record c { is_alive = false }

-- `ThreadContextNode`, by its address; the list from `_head` on, newest first.
pub record Node : Type 0 where
  pub address : ℕ
  pub context : ThreadContext

-- `register_thread`, at its compare-exchange that succeeds.
unfoldable pub register_thread : List Node → Node → List Node
register_thread nodes node = node ∷ nodes

-- The search of `remove_and_delete_node` behind the head.
unfoldable pub unlink : ℕ → List Node → List Node
unlink address [] = []
unlink address (n ∷ nodes) = if n.address == address then nodes else n ∷ unlink address nodes

-- `remove_and_delete_node`: the head by compare-exchange, another node by the search; a node that is
-- not in the list is left alone.
unfoldable pub remove_and_delete_node : ℕ → List Node → List Node
remove_and_delete_node address [] = []
remove_and_delete_node address (n ∷ nodes) =
    if n.address == address then nodes else n ∷ unlink address nodes

-- What the visit of a thread's queue comes to.
pub record VisitResult : Type 0 where
  pub context : ThreadContext
  pub processed : Bool
  pub dead : Bool
  pub lines : List Text

abbrev pub put_context : ℕ → ThreadContext → List Node → List Node
put_context address c [] = []
put_context address c (n ∷ nodes) =
    if n.address == address
    then record n { context = c } ∷ nodes
    else n ∷ put_context address c nodes

-- What a visit does to the list.
abbrev pub settle : VisitResult → ℕ → List Node → List Node
settle v address nodes =
    if v.dead then remove_and_delete_node address nodes else put_context address v.context nodes

-- `sites` and `name_at` read static data and names at their address; `message_of` is fmt::vformat on
-- the decoded arguments; `local_time` is the clock's conversion; `format_line` the current formatter.
module _ (sites : ℕ → CallSiteStaticData) (name_at : ℕ → Text)
    (message_of : Text → List Value → Text) (local_time : ℕ → ℤ)
    (format_line : PatternData → Text) where
  abbrev pattern_data : LogEventHeader → List Value → PatternData
  pattern_data h args = record {
    level = (sites h.static_data).level;
    thread_name = name_at h.thread_name;
    timestamp = local_time h.timestamp;
    filename = (sites h.static_data).file_name;
    functionname = (sites h.static_data).function_name;
    linenumber = (sites h.static_data).line;
    message = message_of (sites h.static_data).fmt_str args;
  }

  -- The line of an event, unless its level is below the minimum.
  unfoldable pub event_lines : LogLevel → LogEventHeader → List Value → List Text
  event_lines min_log_level h args =
      if ltb (severity (sites h.static_data).level) (severity min_log_level)
      then []
      else format_line (pattern_data h args) ∷ []

  -- `read_and_process_single_event`: the bytes read and the lines written; `none` is a read past the
  -- end of the memory.
  unfoldable pub read_and_process_single_event : LogLevel → Bytes → ℕ → Option (ℕ × List Text)
  read_and_process_single_event min_log_level memory p = decode_header memory p >>= λ (h, p1).
      decode_all (sites h.static_data).arg_kinds memory p1 >>= λ (args, p2).
      some (total_event_size h, event_lines min_log_level h args)

  -- The body of the loop of `poll_threads` behind `reserve_read`. `between` is what the thread itself
  -- does after that call and before `thread_is_alive`.
  abbrev visit_read :
      LogLevel → (ThreadContext → ThreadContext) → ThreadContext → Option ℕ → ℕ → Option VisitResult
  visit_read min_log_level between c none read_pos = some (record {
    context = between c;
    processed = false;
    dead = not (between c).is_alive;
    lines = [];
  })
  visit_read min_log_level between c (some i) read_pos =
      read_and_process_single_event min_log_level c.queue.buffer i >>= λ (size, lines).
      some (record {
        context = record c { queue = commit_read c.queue (add64 read_pos size) };
        processed = true;
        dead = false;
        lines = lines;
      })

  -- The body of the loop of `poll_threads`, on the context of a node; its load shows the newest store.
  unfoldable pub visit :
      LogLevel → (ThreadContext → ThreadContext) → ThreadContext → Option VisitResult
  visit min_log_level between c =
      let (q, read) = reserve_read c.queue.atomic_w c.queue in
      visit_read min_log_level between (record c { queue = q }) read.buffer read.current_read_pos

  -- `poll_threads`: the walk over the nodes that were in the list when it began, `all` being the list
  -- as it is. It returns the list, whether there were events, and the lines.
  unfoldable pub poll_threads :
      LogLevel → List Node → List Node → Option (List Node × Bool × List Text)
  poll_threads min_log_level [] all = some (all, false, [])
  poll_threads min_log_level (n ∷ walk) all = visit min_log_level (λ c. c) n.context >>= λ v.
      poll_threads min_log_level walk (settle v n.address all) >>= λ (all', were, lines).
      some (all', v.processed || were, v.lines ++ lines)

-- The pause of the backend thread in microseconds after a poll.
abbrev max_backoff_us : ℕ
max_backoff_us = 200

unfoldable pub next_backoff : Bool → ℕ → ℕ
next_backoff true backoff_us = 1
next_backoff false backoff_us = min ((backoff_us * 2) % 2 ^ 32) max_backoff_us

-- `local_time_at` is the conversion of time stamps behind the n-th resynchronisation of the clock.
module _ (sites : ℕ → CallSiteStaticData) (name_at : ℕ → Text)
    (message_of : Text → List Value → Text) (local_time_at : ℕ → ℕ → ℤ)
    (format_line : PatternData → Text) where
  -- The last loop of the backend thread, from its n-th round on: it resynchronises the clock and polls
  -- until no thread is left. `none` is a fault, or that the fuel ran out.
  unfoldable pub drain_loop : ℕ → ℕ → LogLevel → List Node → Option (List Text)
  drain_loop zero n min_log_level nodes = none
  drain_loop (suc fuel) n min_log_level [] = some []
  drain_loop (suc fuel) n min_log_level (node ∷ nodes) =
      poll_threads sites name_at message_of (local_time_at n) format_line min_log_level
        (node ∷ nodes) (node ∷ nodes)
      >>= λ (nodes', were, lines).
          drain_loop fuel (suc n) min_log_level nodes' >>= λ more. some (lines ++ more)
