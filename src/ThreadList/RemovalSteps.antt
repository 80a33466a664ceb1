-- ===== src/ThreadList/RemovalSteps.antt =====
-- `remove_and_delete_node` of include/papper/detail/core.h keeps the invariant of the list, with threads
-- that push on its head between its steps.
use papper.Common.{
  ℕ, ◌≡◌, refl, sym, ap, ◌∙◌, subst, ◌≢◌, inl, inr, none, some, List, [], ◌∷◌, ◌++◌, append_assoc,
}
use papper.Common.Distinct.{Out, Distinct, erase, Out-append}
use papper.ThreadList.{ListNode, Heap, write, at, visiting, searching, ListState}
use papper.ThreadList.Chain.{Chain, First, Chain-First, Chain-write, Chain-unlink}
use papper.ThreadList.Invariant.{
  Unpublished, Visiting, Place, ListInv, Unpublished-write, Unpublished-removed,
}
use papper.ThreadList.BackendSteps.{there, leads_to, middle, erased, head_leads}

-- A node that is in a list.
not_in :
    (outer : List ℕ) (y : ℕ) (tail : List ℕ) (before : List ℕ)
    → before ≡ outer ++ y ∷ tail
    → Out y before
    → ⊥
not_in outer y tail before e o = (Out-append y outer (y ∷ tail) (subst (Out y) e o)).1.0 refl

module _ (s : ListState) (i : ListInv s) where
  pub remove_head-ListInv :
      (node next : ℕ) (n : ListNode)
      → s.pc ≡ visiting node next
      → s.head ≡ node
      → s.heap node ≡ some n
      → ListInv (record s {
        head = n.next;
        heap = write s.heap node none;
        pc = at next;
        listed = erase node s.listed;
      })
  remove_head-ListInv node next n e is_head holds = record {
    chain = subst (Chain (write s.heap node none) n.next) (sym listed) (
        Chain-write s.heap node none n.next v.after mid.1
          (leads_to s i v.before node v.after n v.split holds));
    distinct = subst Distinct (sym (erased s i v)) mid.2;
    unpublished =
        subst (λ (l : List ℕ). Unpublished (write s.heap node none) l s.registering)
          (sym (erased s i v))
          (Unpublished-removed s.heap v.before node v.after s.registering
            (subst (λ (l : List ℕ). Unpublished s.heap l s.registering) v.split i.unpublished));
    once = i.once;
    distinct_new = i.distinct_new;
    place = record {
      before = v.before;
      after = v.after;
      split = erased s i v;
      first = v.first;
      rest = v.rest;
    };
  }
    where
      v : Visiting s.listed s.visited s.snapshot node next
      v = there s i e

      mid : Out node v.before × Out node v.after × Distinct (v.before ++ v.after)
      mid = middle s i v

      nothing_before : (before : List ℕ) → v.before ≡ before → before ≡ []
      nothing_before [] is = refl
      nothing_before (b ∷ before) is = absurd (
          (subst (Out node) is mid.0).0 (
            sym (
              head_leads s i (b ∷ before) node v.after
                (v.split ∙ ap (λ (l : List ℕ). l ++ node ∷ v.after) is))
            ∙ is_head))

      listed : erase node s.listed ≡ v.after
      listed = erased s i v ∙ ap (λ (l : List ℕ). l ++ v.after) (nothing_before v.before refl)

  prefix_leads :
      (p node : ℕ) (tail after : List ℕ)
      → First p (tail ++ node ∷ after)
      → First p (tail ++ node ∷ [])
  prefix_leads p node [] after f = f
  prefix_leads p node (y ∷ tail) after f = f

  -- The search moves on from a node in front of the one it looks for.
  onward :
      (node next current : ℕ) (c : ListNode) (v : Visiting s.listed s.visited s.snapshot node next)
      (outer tail : List ℕ)
      → s.heap current ≡ some c
      → v.before ≡ outer ++ current ∷ tail
      → Place v.before node current c.next
  onward node next current c v outer tail holds e = inr (
    outer,
    tail,
    e,
    prefix_leads c.next node tail v.after (
        Chain-First s.heap c.next (tail ++ node ∷ v.after) (
          leads_to s i outer current (tail ++ node ∷ v.after) c
            (v.split
              ∙ ap (λ (l : List ℕ). l ++ node ∷ v.after) e
              ∙ append_assoc outer (current ∷ tail) (node ∷ v.after))
            holds)),
  )

  moved :
      (node next previous current : ℕ) (c : ListNode)
      (v : Visiting s.listed s.visited s.snapshot node next) (outer tail : List ℕ)
      → current ≢ node
      → s.heap current ≡ some c
      → v.before ≡ outer ++ previous ∷ tail
      → First current (tail ++ node ∷ [])
      → Place v.before node current c.next
  moved node next previous current c v outer [] ne holds e first = absurd (ne first)
  moved node next previous current c v outer (y ∷ tail) ne holds e first =
      onward node next current c v (outer ++ previous ∷ []) tail holds (
        e
        ∙ ap (λ (z : ℕ). outer ++ previous ∷ z ∷ tail) (sym first)
        ∙ sym (append_assoc outer (previous ∷ []) (current ∷ tail)))

  pub advance-ListInv :
      (node next previous current : ℕ) (c : ListNode)
      → s.pc ≡ searching node next previous current
      → current ≢ node
      → s.heap current ≡ some c
      → ListInv (record s { pc = searching node next current c.next })
  advance-ListInv node next previous current c e ne holds = record {
    chain = i.chain;
    distinct = i.distinct;
    unpublished = i.unpublished;
    once = i.once;
    distinct_new = i.distinct_new;
    place = (
      (there s i e).0,
      elim (there s i e).1 [
        | inl (outer, tail, is) ↦ onward node next current c (there s i e).0 outer tail holds is
        | inr (outer, tail, is, first) ↦
            moved node next previous current c (there s i e).0 outer tail ne holds is first
      ],
    );
  }

  -- When the search finds the node, `previous` is just in front of it.
  in_front :
      (node next previous : ℕ) (v : Visiting s.listed s.visited s.snapshot node next)
      → Place v.before node previous node
      → (outer : List ℕ) × (v.before ≡ outer ++ previous ∷ [])
  in_front node next previous v (inl (outer, tail, e)) =
      absurd (not_in outer node tail v.before e (middle s i v).0)
  in_front node next previous v (inr (outer, [], e, first)) = (outer, e)
  in_front node next previous v (inr (outer, y ∷ tail, e, first)) = absurd (
      not_in (outer ++ previous ∷ []) node tail v.before
        (e
          ∙ ap (λ (z : ℕ). outer ++ previous ∷ z ∷ tail) (sym first)
          ∙ sym (append_assoc outer (previous ∷ []) (node ∷ tail)))
        (middle s i v).0)

  pub unlink_node-ListInv :
      (node next previous : ℕ) (p n : ListNode)
      → s.pc ≡ searching node next previous node
      → s.heap previous ≡ some p
      → s.heap node ≡ some n
      → ListInv (record s {
        heap = write (write s.heap previous (some (record p { next = n.next }))) node none;
        pc = at next;
        listed = erase node s.listed;
      })
  unlink_node-ListInv node next previous p n e at_previous at_node = record {
    chain = subst (Chain after_write s.head) (sym (erased s i v ∙ shorter v.after)) (
        Chain-unlink s.heap s.head found.0 previous node v.after p n
          (subst Distinct (v.split ∙ shorter (node ∷ v.after)) i.distinct) at_previous at_node
          (subst (Chain s.heap s.head) (v.split ∙ shorter (node ∷ v.after)) i.chain));
    distinct = subst Distinct (sym (erased s i v)) (middle s i v).2;
    unpublished =
        subst (λ (l : List ℕ). Unpublished after_write l s.registering) (sym (erased s i v))
          (Unpublished-removed (write s.heap previous (some (record p { next = n.next }))) v.before
            node v.after s.registering
            (subst
              (λ (l : List ℕ).
                Unpublished (write s.heap previous (some (record p { next = n.next }))) l
                  s.registering)
              v.split
              (Unpublished-write s.heap s.listed previous (record p { next = n.next }) s.registering
                i.unpublished)));
    once = i.once;
    distinct_new = i.distinct_new;
    place = record {
      before = v.before;
      after = v.after;
      split = erased s i v;
      first = v.first;
      rest = v.rest;
    };
  }
    where
      v : Visiting s.listed s.visited s.snapshot node next
      v = (there s i e).0

      found : (outer : List ℕ) × (v.before ≡ outer ++ previous ∷ [])
      found = in_front node next previous v (there s i e).1

      after_write : Heap
      after_write = write (write s.heap previous (some (record p { next = n.next }))) node none

      shorter : (l : List ℕ) → v.before ++ l ≡ found.0 ++ previous ∷ l
      shorter l = ap (λ (b : List ℕ). b ++ l) found.1 ∙ append_assoc found.0 (previous ∷ []) l
