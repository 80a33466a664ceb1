-- ===== src/ThreadList.antt =====
-- The list of threads as it lies in memory, include/papper/detail/core.h: any threads register at its
-- head while the backend walks it and takes out nodes. Each access to shared memory is one step. A
-- pointer is an address, nullptr is 0, and at an address that holds no node there is `none`.
pub mod Chain
pub mod Invariant
pub mod ThreadSteps
pub mod BackendSteps
pub mod RemovalSteps
pub mod Safety
pub mod Distance
pub mod Refines
mod Tests
use papper.Common.{ℕ, ◌≡◌, ◌≢◌, Option, none, some, List, [], ◌∷◌, ◌++◌, ◌==◌, if◌then◌else◌}
use papper.Common.Distinct.{In, erase}

-- `ThreadContextNode`
pub record ListNode : Type 0 where
  pub context : ℕ
  pub next : ℕ

abbrev pub Heap : Type 0
Heap = ℕ → Option ListNode

abbrev pub write : Heap → ℕ → Option ListNode → Heap
write h p c a = if a == p then c else h a

-- Where the backend is: not in `poll_threads`; at the test of its loop; behind the load of the next
-- node; and in the loop of `remove_and_delete_node`.
pub data Pc : Type 0 where
  resting : Pc
  at : (node : ℕ) → Pc
  visiting : (node next : ℕ) → Pc
  searching : (node next previous current : ℕ) → Pc

-- The memory, the nodes that are not published yet and the place of the backend; and for the theorems
-- the nodes in the list, those that were in it when the poll began, and those visited since.
pub record ListState : Type 0 where
  pub head : ℕ
  pub heap : Heap
  pub registering : List ℕ
  pub pc : Pc
  pub listed : List ℕ
  pub snapshot : List ℕ
  pub visited : List ℕ

abbrev pub empty_list : ListState
empty_list = record {
  head = 0;
  heap = λ a. none;
  registering = [];
  pc = resting;
  listed = [];
  snapshot = [];
  visited = [];
}

pub data ListStep (s : ListState) : ListState → Type 0 where
  -- `register_thread`: a new node, with what a relaxed load of the head returns, which may be any
  -- value.
  allocate :
      (a context loaded : ℕ)
      → a ≢ 0
      → s.heap a ≡ none
      → ListStep s (record s {
        heap = write s.heap a (some (record { context = context; next = loaded }));
        registering = a ∷ s.registering;
      })
  -- The compare-exchange fails, for another head or for no reason, and loads some value.
  retry :
      (a loaded : ℕ) (n : ListNode)
      → In a s.registering
      → s.heap a ≡ some n
      → ListStep s (record s { heap = write s.heap a (some (record n { next = loaded })) })
  -- The compare-exchange succeeds.
  publish :
      (a : ℕ) (n : ListNode)
      → In a s.registering
      → s.heap a ≡ some n
      → n.next ≡ s.head
      → ListStep s
          (record s { head = a; registering = erase a s.registering; listed = a ∷ s.listed })
  -- `poll_threads`, from its load of the head on.
  poll_begins :
      s.pc ≡ resting → ListStep s (record s { pc = at s.head; snapshot = s.listed; visited = [] })
  poll_ends : s.pc ≡ at 0 → ListStep s (record s { pc = resting })
  load_next :
      (node : ℕ) (n : ListNode)
      → s.pc ≡ at node
      → node ≢ 0
      → s.heap node ≡ some n
      → ListStep s (record s { pc = visiting node n.next; visited = s.visited ++ node ∷ [] })
  -- The thread had an event, or it is alive.
  keep : (node next : ℕ) → s.pc ≡ visiting node next → ListStep s (record s { pc = at next })
  -- `remove_and_delete_node`: the compare-exchange succeeds.
  remove_head :
      (node next : ℕ) (n : ListNode)
      → s.pc ≡ visiting node next
      → s.head ≡ node
      → s.heap node ≡ some n
      → ListStep s (record s {
        head = n.next;
        heap = write s.heap node none;
        pc = at next;
        listed = erase node s.listed;
      })
  -- It fails, and leaves the head in `expected`.
  not_head :
      (node next : ℕ)
      → s.pc ≡ visiting node next
      → s.head ≢ node
      → ListStep s (record s { pc = searching node next 0 s.head })
  advance :
      (node next previous current : ℕ) (c : ListNode)
      → s.pc ≡ searching node next previous current
      → current ≢ 0
      → current ≢ node
      → s.heap current ≡ some c
      → ListStep s (record s { pc = searching node next current c.next })
  not_found :
      (node next previous : ℕ)
      → s.pc ≡ searching node next previous 0
      → ListStep s (record s { pc = at next })
  unlink_node :
      (node next previous : ℕ) (p n : ListNode)
      → s.pc ≡ searching node next previous node
      → s.heap previous ≡ some p
      → s.heap node ≡ some n
      → ListStep s (record s {
        heap = write (write s.heap previous (some (record p { next = n.next }))) node none;
        pc = at next;
        listed = erase node s.listed;
      })

pub data ListReach : ListState → Type 0 where
  begin : ListReach empty_list
  extend : {s t : ListState} → ListReach s → ListStep s t → ListReach t
