-- ===== src/ThreadList/Refines.antt =====
-- The steps on the list in memory (include/papper/detail/core.h) are the operations on the list of nodes.
use papper.Common.{ℕ, ◌≡◌, refl, sym, ap, ◌∙◌, subst, inl, inr, List, [], ◌∷◌, ◌==◌, Bool-cases}
use papper.Common.Distinct.{erase}
use papper.Backend.{ThreadContext, Node, register_thread, unlink, remove_and_delete_node}
use papper.ThreadList.{
  ListState, ListStep, allocate, retry, publish, poll_begins, poll_ends, load_next, keep,
  remove_head, not_head, advance, not_found, unlink_node, ListReach,
}
use papper.ThreadList.Chain.{Chain}
use papper.ThreadList.Safety.{ListStep-ListInv, ListReach-ListInv}

abbrev pub addresses : List Node → List ℕ
addresses [] = []
addresses (n ∷ nodes) = n.address ∷ addresses nodes

addresses-unlink :
    (a : ℕ) (nodes : List Node) → addresses (unlink a nodes) ≡ erase a (addresses nodes)
unfolding unlink
addresses-unlink a [] = refl
addresses-unlink a (n ∷ nodes) = elim (Bool-cases (n.address == a)) [
  | inl same ↦ rw same refl
  | inr other ↦ rw other (ap (λ (l : List ℕ). n.address ∷ l) (addresses-unlink a nodes))
]

addresses-remove :
    (a : ℕ) (nodes : List Node)
    → addresses (remove_and_delete_node a nodes) ≡ erase a (addresses nodes)
unfolding remove_and_delete_node
addresses-remove a [] = refl
addresses-remove a (n ∷ nodes) = elim (Bool-cases (n.address == a)) [
  | inl same ↦ rw same refl
  | inr other ↦ rw other (ap (λ (l : List ℕ). n.address ∷ l) (addresses-unlink a nodes))
]

-- What happens to the list of nodes.
pub data NodesStep (nodes : List Node) : List Node → Type 0 where
  unchanged : NodesStep nodes nodes
  registered : (node : Node) → NodesStep nodes (register_thread nodes node)
  removed : (address : ℕ) → NodesStep nodes (remove_and_delete_node address nodes)

-- Each step is one on the nodes whose addresses are in the list: nothing, a registration with whatever
-- context, or the removal of a node.
ListStep-NodesStep :
    {s t : ListState} (nodes : List Node) (c : ThreadContext)
    → addresses nodes ≡ s.listed
    → ListStep s t
    → (after : List Node) × NodesStep nodes after × (addresses after ≡ t.listed)
unfolding register_thread
ListStep-NodesStep nodes c e (allocate a context loaded ne free) = (nodes, unchanged, e)
ListStep-NodesStep nodes c e (retry a loaded n new holds) = (nodes, unchanged, e)
ListStep-NodesStep nodes c e (publish a n new holds to_head) = (
  register_thread nodes (record { address = a; context = c }),
  registered (record { address = a; context = c }),
  ap (λ (l : List ℕ). a ∷ l) e,
)
ListStep-NodesStep nodes c e (poll_begins h) = (nodes, unchanged, e)
ListStep-NodesStep nodes c e (poll_ends h) = (nodes, unchanged, e)
ListStep-NodesStep nodes c e (load_next node n h ne holds) = (nodes, unchanged, e)
ListStep-NodesStep nodes c e (keep node next h) = (nodes, unchanged, e)
ListStep-NodesStep nodes c e (remove_head node next n h is_head holds) = (
  remove_and_delete_node node nodes,
  removed node,
  addresses-remove node nodes ∙ ap (erase node) e,
)
ListStep-NodesStep nodes c e (not_head node next h ne) = (nodes, unchanged, e)
ListStep-NodesStep nodes c e (advance node next previous current k h nz ne holds) =
    (nodes, unchanged, e)
ListStep-NodesStep nodes c e (not_found node next previous h) = (nodes, unchanged, e)
ListStep-NodesStep nodes c e (unlink_node node next previous p n h at_previous at_node) = (
  remove_and_delete_node node nodes,
  removed node,
  addresses-remove node nodes ∙ ap (erase node) e,
)

-- In every reachable state, and for any nodes whose addresses are those that the pointers in memory lead
-- through from the head on: behind each step they lead through the addresses of these nodes, or of the
-- nodes with one registered at the head, or with one removed.
pub list_refines :
    {s t : ListState} (nodes : List Node) (c : ThreadContext)
    → ListReach s
    → addresses nodes ≡ s.listed
    → ListStep s t
    → Chain s.heap s.head (addresses nodes)
      × ((after : List Node) × NodesStep nodes after
          × Chain t.heap t.head (addresses after)
          × (addresses after ≡ t.listed))
list_refines {s} {t} nodes c r e step =
    let (after, how, e') = ListStep-NodesStep nodes c e step in
    (
      subst (Chain s.heap s.head) (sym e) (ListReach-ListInv r).chain,
      (
        after,
        how,
        subst (Chain t.heap t.head) (sym e') (ListStep-ListInv step (ListReach-ListInv r)).chain,
        e',
      ),
    )
