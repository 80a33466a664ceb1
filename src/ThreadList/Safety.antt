-- ===== src/ThreadList/Safety.antt =====
-- What the list of threads (include/papper/detail/core.h) guarantees under every interleaving of threads
-- that register with the backend that polls and removes.
use papper.Common.{
  ℕ, ◌≡◌, refl, sym, ap, ◌∙◌, subst, ◌≢◌, ◌⊎◌, inl, inr, some, List, [], ◌∷◌, ◌++◌, append-nil,
  append_assoc,
}
use papper.Common.Distinct.{Out, Distinct, Out-append}
use papper.ThreadList.{
  ListNode, Heap, Pc, resting, at, visiting, searching, ListState, ListStep, allocate, retry,
  publish, poll_begins, poll_ends, load_next, keep, remove_head, not_head, advance, not_found,
  unlink_node, ListReach, begin, extend,
}
use papper.ThreadList.Chain.{Chain, First, Chain-node}
use papper.ThreadList.Invariant.{At, Visiting, Place, PcOk, ListInv}
use papper.ThreadList.ThreadSteps.{allocate-ListInv, retry-ListInv, publish-ListInv}
use papper.ThreadList.BackendSteps.{
  there, poll_begins-ListInv, poll_ends-ListInv, load_next-ListInv, keep-ListInv, not_found-ListInv,
  middle, not_head-ListInv,
}
use papper.ThreadList.RemovalSteps.{remove_head-ListInv, advance-ListInv, unlink_node-ListInv}

pub ListStep-ListInv : {s t : ListState} → ListStep s t → ListInv s → ListInv t
ListStep-ListInv {s} (allocate a context loaded ne free) i =
    allocate-ListInv s i a context loaded ne free
ListStep-ListInv {s} (retry a loaded n new holds) i = retry-ListInv s i a loaded n new
ListStep-ListInv {s} (publish a n new holds to_head) i = publish-ListInv s i a n new holds to_head
ListStep-ListInv {s} (poll_begins e) i = poll_begins-ListInv s i
ListStep-ListInv {s} (poll_ends e) i = poll_ends-ListInv s i
ListStep-ListInv {s} (load_next node n e ne holds) i = load_next-ListInv s i node n e ne holds
ListStep-ListInv {s} (keep node next e) i = keep-ListInv s i node next e
ListStep-ListInv {s} (remove_head node next n e is_head holds) i =
    remove_head-ListInv s i node next n e is_head holds
ListStep-ListInv {s} (not_head node next e ne) i = not_head-ListInv s i node next e ne
ListStep-ListInv {s} (advance node next previous current c e nz ne holds) i =
    advance-ListInv s i node next previous current c e ne holds
ListStep-ListInv {s} (not_found node next previous e) i = not_found-ListInv s i node next previous e
ListStep-ListInv {s} (unlink_node node next previous p n e at_previous at_node) i =
    unlink_node-ListInv s i node next previous p n e at_previous at_node

pub ListReach-ListInv : {s : ListState} → ListReach s → ListInv s
ListReach-ListInv begin = record {
  chain = refl;
  distinct = tt;
  unpublished = tt;
  once = tt;
  distinct_new = tt;
  place = tt;
}
ListReach-ListInv (extend r st) = ListStep-ListInv st (ListReach-ListInv r)

abbrev pub IsNode : Heap → ℕ → Type 0
IsNode h a = (n : ListNode) × (h a ≡ some n)

-- The pointers that the backend reads through next are those of nodes; and the search does not run
-- off the end of the list.
abbrev pub ReadsNodes : Heap → Pc → Type 0
ReadsNodes h resting = Unit {0}
ReadsNodes h (at node) = (node ≡ 0) ⊎ IsNode h node
ReadsNodes h (visiting node next) = IsNode h node
ReadsNodes h (searching node next previous current) =
    (current ≢ 0) × IsNode h node × IsNode h current × ((current ≡ node) → IsNode h previous)

module _ (s : ListState) (i : ListInv s) where
  listed-IsNode :
      (before : List ℕ) (node : ℕ) (after : List ℕ)
      → s.listed ≡ before ++ node ∷ after
      → (node ≢ 0) × IsNode s.heap node
  listed-IsNode before node after e =
      let (ne, (n, holds, _)) =
        Chain-node s.heap s.head before node after (subst (Chain s.heap s.head) e i.chain) in
      (ne, (n, holds))

  lead-IsNode :
      (before after : List ℕ) (node : ℕ)
      → s.listed ≡ before ++ after
      → First node after
      → (node ≡ 0) ⊎ IsNode s.heap node
  lead-IsNode before [] node e f = inl f
  lead-IsNode before (x ∷ after) node e f =
      inr (subst (IsNode s.heap) (sym f) (listed-IsNode before x after e).1)

  search-IsNode :
      (node next previous current : ℕ) (v : Visiting s.listed s.visited s.snapshot node next)
      → Place v.before node previous current
      → (current ≢ 0) × IsNode s.heap current × ((current ≡ node) → IsNode s.heap previous)
  search-IsNode node next previous current v (inl (outer, tail, e)) =
      let split =
        v.split
        ∙ ap (λ (l : List ℕ). l ++ node ∷ v.after) e
        ∙ append_assoc outer (current ∷ tail) (node ∷ v.after) in
      let (nz, here) = listed-IsNode outer current (tail ++ node ∷ v.after) split in
      (
        nz,
        here,
        λ (same : current ≡ node). absurd (
            (Out-append node outer (current ∷ tail) (subst (Out node) e (middle s i v).0)).1.0
              same),
      )
  search-IsNode node next previous current v (inr (outer, tail, e, first)) =
      let split =
        v.split
        ∙ ap (λ (l : List ℕ). l ++ node ∷ v.after) e
        ∙ append_assoc outer (previous ∷ tail) (node ∷ v.after) in
      let (nz, here) = current_node tail e first in
      (
        nz,
        here,
        λ (same : current ≡ node). (listed-IsNode outer previous (tail ++ node ∷ v.after) split).1,
      )
    where
      current_node :
          (rest : List ℕ)
          → v.before ≡ outer ++ previous ∷ rest
          → First current (rest ++ node ∷ [])
          → (current ≢ 0) × IsNode s.heap current
      current_node [] e' f =
          subst (λ (a : ℕ). (a ≢ 0) × IsNode s.heap a) (sym f)
            (listed-IsNode v.before node v.after v.split)
      current_node (y ∷ rest) e' f =
          subst (λ (a : ℕ). (a ≢ 0) × IsNode s.heap a) (sym f)
            (listed-IsNode (outer ++ previous ∷ []) y (rest ++ node ∷ v.after) (
              v.split
              ∙ ap (λ (l : List ℕ). l ++ node ∷ v.after)
                  (e' ∙ sym (append_assoc outer (previous ∷ []) (y ∷ rest)))
              ∙ append_assoc (outer ++ previous ∷ []) (y ∷ rest) (node ∷ v.after)))

  reads_nodes : (pc : Pc) → PcOk s.listed s.visited s.snapshot pc → ReadsNodes s.heap pc
  reads_nodes resting p = tt
  reads_nodes (at node) p = lead-IsNode p.before p.after node p.split p.first
  reads_nodes (visiting node next) p = (listed-IsNode p.before node p.after p.split).1
  reads_nodes (searching node next previous current) (v, place) =
      let (nz, here, back) = search-IsNode node next previous current v place in
      (nz, (listed-IsNode v.before node v.after v.split).1, here, back)

-- Under every interleaving, the backend reads through pointers to nodes only, which have not been
-- deleted, and the search of `remove_and_delete_node` finds its node.
pub no_dangling : {s : ListState} → ListReach s → ReadsNodes s.heap s.pc
no_dangling {s} r = reads_nodes s (ListReach-ListInv r) s.pc (ListReach-ListInv r).place

-- Under every interleaving, a poll that is at its end has visited exactly the nodes that were in the
-- list when it began, each once and in their order, whatever was registered or removed meanwhile.
pub poll_visits_snapshot :
    {s : ListState} → ListReach s → s.pc ≡ at 0 → (s.visited ≡ s.snapshot) × Distinct s.visited
poll_visits_snapshot {s} r e =
    (visits_all p.after refl, subst Distinct (sym (visits_all p.after refl)) i.once)
  where
    i : ListInv s
    i = ListReach-ListInv r

    p : At s.listed s.visited s.snapshot 0
    p = there s i e

    visits_all : (after : List ℕ) → p.after ≡ after → s.visited ≡ s.snapshot
    visits_all [] is =
        sym (append-nil s.visited) ∙ ap (λ (l : List ℕ). s.visited ++ l) (sym is) ∙ p.rest
    visits_all (x ∷ after) is = absurd (
        (listed-IsNode s i p.before x after (p.split ∙ ap (λ (l : List ℕ). p.before ++ l) is)).0
          (sym (subst (First 0) is p.first)))
