-- ===== src/Concurrent/ListFacts.antt =====
-- What the steps on the list of threads (include/papper/detail/core.h) do to its nodes and to the place of
-- the backend.
use papper.Common.{
  ℕ, ◌≡◌, refl, sym, ap, ◌∙◌, subst, ◌≢◌, inl, inr, Option, none, some, arith, ◌==◌, ==_iff,
  ==_false, Bool-cases,
}
use papper.ThreadList.{
  ListNode, Heap, write, Pc, resting, at, visiting, searching, ListState, ListStep, allocate, retry,
  publish, poll_begins, poll_ends, load_next, keep, remove_head, not_head, advance, not_found,
  unlink_node,
}
use papper.ThreadList.Safety.{IsNode, ReadsNodes}
use papper.Concurrent.{SharedContext, update, node_of, registration, removal, kind}

pub by_update :
    (P : SharedContext → Type 0) (f : ℕ → SharedContext) (a : ℕ) (c : SharedContext) (b : ℕ)
    → ((b ≡ a) → P c)
    → ((b ≢ a) → P (f b))
    → P (update f a c b)
by_update P f a c b same other = elim (Bool-cases (b == a)) [
  | inl e ↦ rw e (same ((==_iff b a).0 e))
  | inr e ↦ rw e (other (ground arith))
]

pub node_of-IsNode :
    (h : Heap) (pc : Pc) (node : ℕ) → ReadsNodes h pc → node_of pc ≡ some node → IsNode h node
node_of-IsNode h resting node r e = absurd (none_ne_some e)
  where
    none_ne_some : none ≡ some node → ⊥
    none_ne_some x = cc
node_of-IsNode h (at p) node r e = absurd (none_ne_some e)
  where
    none_ne_some : none ≡ some node → ⊥
    none_ne_some x = cc
node_of-IsNode h (visiting p q) node r e = subst (IsNode h) (cc) r
node_of-IsNode h (searching p q x y) node r e = subst (IsNode h) (cc) r.1

pub some-injective : {a b : ℕ} → some a ≡ some b → a ≡ b
some-injective e = cc

pub pc-registration : {s t : ListState} (st : ListStep s t) → kind st ≡ registration → t.pc ≡ s.pc
pc-registration (allocate a context loaded ne free) by = refl
pc-registration (retry a loaded n new holds) by = refl
pc-registration (publish a n new holds to_head) by = refl
pc-registration (poll_begins e) by = cc
pc-registration (poll_ends e) by = cc
pc-registration (load_next node n e ne holds) by = cc
pc-registration (keep node next e) by = cc
pc-registration (remove_head node next n e is_head holds) by = cc
pc-registration (not_head node next e ne) by = cc
pc-registration (advance node next previous current c e nz ne holds) by = cc
pc-registration (not_found node next previous e) by = cc
pc-registration (unlink_node node next previous p n e at_previous at_node) by = cc

pub IsNode-write :
    (h : Heap) (a : ℕ) (n : ListNode) (b : ℕ) → IsNode h b → IsNode (write h a (some n)) b
IsNode-write h a n b (m, holds) = elim (Bool-cases (b == a)) [
  | inl same ↦ (n, rw same refl)
  | inr other ↦ (m, rw other holds)
]

IsNode-delete : (h : Heap) (a b : ℕ) → b ≢ a → IsNode h b → IsNode (write h a none) b
IsNode-delete h a b ne (m, holds) = (m, rw (==_false b a ne) holds)

-- Nodes that the backend does not work on stay.
pub ListStep-IsNode :
    {s t : ListState} (st : ListStep s t) (b : ℕ)
    → ((node_of s.pc ≡ some b) → kind st ≡ removal → ⊥)
    → IsNode s.heap b
    → IsNode t.heap b
ListStep-IsNode {s} (allocate a context loaded ne free) b away h =
    IsNode-write s.heap a (record { context = context; next = loaded }) b h
ListStep-IsNode {s} (retry a loaded n new holds) b away h =
    IsNode-write s.heap a (record n { next = loaded }) b h
ListStep-IsNode (publish a n new holds to_head) b away h = h
ListStep-IsNode (poll_begins e) b away h = h
ListStep-IsNode (poll_ends e) b away h = h
ListStep-IsNode (load_next node n e ne holds) b away h = h
ListStep-IsNode (keep node next e) b away h = h
ListStep-IsNode {s} (remove_head node next n e is_head holds) b away h =
    IsNode-delete s.heap node b
      (λ (q : b ≡ node). away (ap node_of e ∙ ap {B = Option ℕ} some (sym q)) refl) h
ListStep-IsNode (not_head node next e ne) b away h = h
ListStep-IsNode (advance node next previous current c e nz ne holds) b away h = h
ListStep-IsNode (not_found node next previous e) b away h = h
ListStep-IsNode {s} (unlink_node node next previous p n e at_previous at_node) b away h =
    IsNode-delete (write s.heap previous (some (record p { next = n.next }))) node b
      (λ (q : b ≡ node). away (ap node_of e ∙ ap {B = Option ℕ} some (sym q)) refl)
      (IsNode-write s.heap previous (record p { next = n.next }) b h)

-- A removal stays with its node until it is done.
pub node_of-removal :
    {s t : ListState} (st : ListStep s t) (node : ℕ)
    → kind st ≡ removal
    → node_of t.pc ≡ some node
    → node_of s.pc ≡ some node
node_of-removal (allocate a context loaded ne free) b by h = cc
node_of-removal (retry a loaded n new holds) b by h = cc
node_of-removal (publish a n new holds to_head) b by h = cc
node_of-removal (poll_begins e) b by h = cc
node_of-removal (poll_ends e) b by h = cc
node_of-removal (load_next node n e ne holds) b by h = cc
node_of-removal (keep node next e) b by h = cc
node_of-removal (remove_head node next n e is_head holds) b by h = cc
node_of-removal (not_head node next e ne) b by h = ap node_of e ∙ h
node_of-removal (advance node next previous current c e nz ne holds) b by h = ap node_of e ∙ h
node_of-removal (not_found node next previous e) b by h = cc
node_of-removal (unlink_node node next previous p n e at_previous at_node) b by h = cc
