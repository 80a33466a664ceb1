-- ===== src/Concurrent.antt =====
-- The threads and the backend of include/papper/detail/core.h, interleaved at each access to what they
-- share: the list of threads, their queues, and whether they are alive.
pub mod ListFacts
pub mod Invariant
pub mod Guarantees
pub mod Events
pub mod Places
pub mod Ready
pub mod Progress
pub mod Work
pub mod Polls
mod Tests
use papper.Common.{
  ℕ, ◌^◌, ◌≤◌, ◌≡◌, ◌≢◌, Bool, true, false, Option, none, some, List, [], ◌∷◌, ◌++◌, ◌==◌,
  if◌then◌else◌, add64,
}
use papper.Memory.{Bytes, load}
use papper.Queue.{commit_read}
use papper.Queue.Spsc.{
  Framing, Consumer, waiting, reading, idle, System, Step, init, after_reserve_read,
}
use papper.Queue.Spsc.Unseen.{ByProducer}
use papper.ThreadList.{
  write, Pc, resting, at, visiting, searching, ListState, empty_list, ListStep, allocate, retry,
  publish, poll_begins, poll_ends, load_next, keep, remove_head, not_head, advance, not_found,
  unlink_node,
}

-- `ThreadContext`, with its queue as it is seen from both ends.
pub record SharedContext : Type 0 where
  pub channel : System
  pub is_alive : Bool

-- Where the backend is in the visit of a node: in front of `reserve_read`; it has got a pointer; it has
-- got none; it is done; and it is going to remove the node.
pub data Phase : Type 0 where
  not_yet : Phase
  found_event : Phase
  found_nothing : Phase
  done : Phase
  dead : Phase

-- The contexts are found by the address of their node.
pub record Concurrent : Type 0 where
  pub list : ListState
  pub contexts : ℕ → SharedContext
  pub phase : Phase

abbrev pub update : (ℕ → SharedContext) → ℕ → SharedContext → ℕ → SharedContext
update f a c b = if b == a then c else f b

-- The node that the backend works on.
abbrev pub node_of : Pc → Option ℕ
node_of resting = none
node_of (at node) = none
node_of (visiting node next) = some node
node_of (searching node next previous current) = some node

abbrev pub phase_of : Consumer → Phase
phase_of waiting = found_nothing
phase_of (reading index current_read_pos) = found_event

abbrev pub after_look : Concurrent → ℕ → List ℕ → List ℕ → Concurrent
after_look s node passed rest =
    let t = after_reserve_read (s.contexts node).channel passed rest in
    record s {
      contexts = update s.contexts node (record (s.contexts node) { channel = t });
      phase = phase_of t.consumer;
    }

abbrev pub after_read : Concurrent → ℕ → ℕ → Bytes → Concurrent
after_read s node position m =
    let c = (s.contexts node).channel in
    record s {
      contexts = update s.contexts node (record (s.contexts node) {
        channel = record c {
          queue = commit_read c.queue position;
          r_log = c.r_log ++ position ∷ [];
          consumer = waiting;
          received = c.received ++ m ∷ [];
        };
      });
      phase = done;
    }

-- The kinds of steps on the list.
pub data StepKind : Type 0 where
  allocation registration walk visit removal : StepKind

abbrev pub kind : {s t : ListState} → ListStep s t → StepKind
kind (allocate a context loaded ne free) = allocation
kind (retry a loaded n new holds) = registration
kind (publish a n new holds to_head) = registration
kind (poll_begins e) = walk
kind (poll_ends e) = walk
kind (load_next node n e ne holds) = walk
kind (keep node next e) = visit
kind (remove_head node next n e is_head holds) = removal
kind (not_head node next e ne) = removal
kind (advance node next previous current c e nz ne holds) = removal
kind (not_found node next previous e) = removal
kind (unlink_node node next previous p n e at_previous at_node) = removal

module _ (F : Framing) where
  abbrev pub nobody : SharedContext
  nobody = record { channel = init F 0; is_alive = false }

  abbrev nothing_yet : Concurrent
  nothing_yet = record { list = empty_list; contexts = λ a. nobody; phase = not_yet }

  pub data ConcurrentStep (s : Concurrent) : Concurrent → Type 0 where
    -- `ThreadContextHandler()`, up to the first load of the head.
    starts :
        (a context loaded capacity : ℕ)
        → a ≢ 0
        → s.list.heap a ≡ none
        → capacity ≤ 2 ^ 62
        → ConcurrentStep s (record s {
          list = record s.list {
            heap = write s.list.heap a (some (record { context = context; next = loaded }));
            registering = a ∷ s.list.registering;
          };
          contexts = update s.contexts a (record { channel = init F capacity; is_alive = true });
        })
    registers :
        {l : ListState} (st : ListStep s.list l)
        → kind st ≡ registration
        → ConcurrentStep s (record s { list = l })
    -- A part of `push_log_event` of a living thread.
    pushes :
        (a : ℕ) {t : System} (st : Step F (s.contexts a).channel t)
        → ByProducer st
        → (s.contexts a).is_alive ≡ true
        → ConcurrentStep s
            (record s { contexts = update s.contexts a (record (s.contexts a) { channel = t }) })
    -- `kill`
    ends :
        (a : ℕ)
        → (s.contexts a).channel.producer ≡ idle
        → ConcurrentStep s (record s {
          contexts = update s.contexts a (record (s.contexts a) { is_alive = false });
        })
    -- The loop of `poll_threads`.
    walks :
        {l : ListState} (st : ListStep s.list l)
        → kind st ≡ walk
        → ConcurrentStep s (record s { list = l; phase = not_yet })
    -- `reserve_read`
    looks :
        (node : ℕ) (passed rest : List ℕ)
        → node_of s.list.pc ≡ some node
        → s.phase ≡ not_yet
        → (s.contexts node).channel.consumer ≡ waiting
        → (s.contexts node).channel.w_log ≡ passed ++ rest
        → ConcurrentStep s (after_look s node passed rest)
    -- The event is processed and `commit_read` called.
    reads :
        (node i pos : ℕ) (m : Bytes)
        → node_of s.list.pc ≡ some node
        → s.phase ≡ found_event
        → (s.contexts node).channel.consumer ≡ reading i pos
        → load
            (s.contexts node).channel.queue.buffer
            i
            (F.frame (s.contexts node).channel.queue.buffer i)
          ≡ some m
        → ConcurrentStep s
            (after_read s node (add64 pos (F.frame (s.contexts node).channel.queue.buffer i)) m)
    -- `thread_is_alive`
    finds_alive :
        (node : ℕ)
        → node_of s.list.pc ≡ some node
        → s.phase ≡ found_nothing
        → (s.contexts node).is_alive ≡ true
        → ConcurrentStep s (record s { phase = done })
    finds_dead :
        (node : ℕ)
        → node_of s.list.pc ≡ some node
        → s.phase ≡ found_nothing
        → (s.contexts node).is_alive ≡ false
        → ConcurrentStep s (record s { phase = dead })
    goes_on :
        (node next : ℕ)
        → s.list.pc ≡ visiting node next
        → s.phase ≡ done
        → ConcurrentStep s (record s { list = record s.list { pc = at next } })
    -- A step of `remove_and_delete_node`.
    removes :
        {l : ListState} (st : ListStep s.list l)
        → kind st ≡ removal
        → s.phase ≡ dead
        → ConcurrentStep s (record s { list = l })

  pub data ConcurrentReach : Concurrent → Type 0 where
    nothing : ConcurrentReach nothing_yet
    and_then : {s t : Concurrent} → ConcurrentReach s → ConcurrentStep s t → ConcurrentReach t
