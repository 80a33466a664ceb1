-- ===== src/ThreadList/BackendSteps.antt =====
-- The poll and the removal of nodes (include/papper/detail/core.h) keep the invariant of the list.
use papper.Common.{
  ℕ, ◌≡◌, refl, sym, ap, ◌∙◌, subst, ◌≢◌, inl, some, List, [], ◌∷◌, ◌++◌, append_assoc,
}
use papper.Common.Distinct.{Out, Distinct, erase, Distinct-middle, erase-middle}
use papper.ThreadList.{ListNode, Pc, resting, at, visiting, searching, ListState}
use papper.ThreadList.Chain.{Chain, First, Chain-First, Chain-node}
use papper.ThreadList.Invariant.{At, Visiting, PcOk, ListInv}

-- What is in memory at the node of a visit.
module _ (s : ListState) (i : ListInv s) where
  abbrev AtPc : Pc → Type 0
  AtPc pc = PcOk s.listed s.visited s.snapshot pc

  pub there : {pc : Pc} → s.pc ≡ pc → AtPc pc
  there e = subst AtPc e i.place

  -- The node behind which `after` follows leads to it.
  pub leads_to :
      (before : List ℕ) (node : ℕ) (after : List ℕ) (n : ListNode)
      → s.listed ≡ before ++ node ∷ after
      → s.heap node ≡ some n
      → Chain s.heap n.next after
  leads_to before node after n split holds =
      let (_, (m, holds', rest)) =
        Chain-node s.heap s.head before node after (subst (Chain s.heap s.head) split i.chain) in
      subst (λ (k : ListNode). Chain s.heap k.next after) (same (sym holds' ∙ holds)) rest
    where
      same : {m : ListNode} → some m ≡ some n → m ≡ n
      same e = cc

  pub poll_begins-ListInv : ListInv (record s { pc = at s.head; snapshot = s.listed; visited = [] })
  poll_begins-ListInv = record {
    chain = i.chain;
    distinct = i.distinct;
    unpublished = i.unpublished;
    once = i.distinct;
    distinct_new = i.distinct_new;
    place = record {
      before = [];
      after = s.listed;
      split = refl;
      first = Chain-First s.heap s.head s.listed i.chain;
      rest = refl;
    };
  }

  pub poll_ends-ListInv : ListInv (record s { pc = resting })
  poll_ends-ListInv = record {
    chain = i.chain;
    distinct = i.distinct;
    unpublished = i.unpublished;
    once = i.once;
    distinct_new = i.distinct_new;
    place = tt;
  }

  load_place :
      (node : ℕ) (n : ListNode) (p : At s.listed s.visited s.snapshot node) (after : List ℕ)
      → p.after ≡ after
      → node ≢ 0
      → s.heap node ≡ some n
      → Visiting s.listed (s.visited ++ node ∷ []) s.snapshot node n.next
  load_place node n p [] e ne holds = absurd (ne (subst (First node) e p.first))
  load_place node n p (x ∷ after) e ne holds = record {
    before = p.before;
    after = after;
    split = split;
    first = Chain-First s.heap n.next after (leads_to p.before node after n split holds);
    rest =
        append_assoc s.visited (node ∷ []) after
        ∙ ap (λ (l : List ℕ). s.visited ++ l) (ap (λ (y : ℕ). y ∷ after) here ∙ sym e)
        ∙ p.rest;
  }
    where
      here : node ≡ x
      here = subst (First node) e p.first

      split : s.listed ≡ p.before ++ node ∷ after
      split =
          p.split ∙ ap (λ (l : List ℕ). p.before ++ l) (e ∙ ap (λ (y : ℕ). y ∷ after) (sym here))

  pub load_next-ListInv :
      (node : ℕ) (n : ListNode)
      → s.pc ≡ at node
      → node ≢ 0
      → s.heap node ≡ some n
      → ListInv (record s { pc = visiting node n.next; visited = s.visited ++ node ∷ [] })
  load_next-ListInv node n e ne holds = record {
    chain = i.chain;
    distinct = i.distinct;
    unpublished = i.unpublished;
    once = i.once;
    distinct_new = i.distinct_new;
    place = load_place node n (there e) (there e).after refl ne holds;
  }

  -- The poll goes on behind a node that stays.
  go_on :
      (node next : ℕ)
      → Visiting s.listed s.visited s.snapshot node next
      → At s.listed s.visited s.snapshot next
  go_on node next v = record {
    before = v.before ++ node ∷ [];
    after = v.after;
    split = v.split ∙ sym (append_assoc v.before (node ∷ []) v.after);
    first = v.first;
    rest = v.rest;
  }

  pub keep-ListInv :
      (node next : ℕ) → s.pc ≡ visiting node next → ListInv (record s { pc = at next })
  keep-ListInv node next e = record {
    chain = i.chain;
    distinct = i.distinct;
    unpublished = i.unpublished;
    once = i.once;
    distinct_new = i.distinct_new;
    place = go_on node next (there e);
  }

  pub not_found-ListInv :
      (node next previous : ℕ)
      → s.pc ≡ searching node next previous 0
      → ListInv (record s { pc = at next })
  not_found-ListInv node next previous e = record {
    chain = i.chain;
    distinct = i.distinct;
    unpublished = i.unpublished;
    once = i.once;
    distinct_new = i.distinct_new;
    place = go_on node next (there e).0;
  }

  -- What holds of the node of a visit.
  pub middle :
      {node next : ℕ} (v : Visiting s.listed s.visited s.snapshot node next)
      → Out node v.before × Out node v.after × Distinct (v.before ++ v.after)
  middle {node} v = Distinct-middle v.before node v.after (subst Distinct v.split i.distinct)

  pub erased :
      {node next : ℕ} (v : Visiting s.listed s.visited s.snapshot node next)
      → erase node s.listed ≡ v.before ++ v.after
  erased {node} v = ap (erase node) v.split ∙ erase-middle v.before node v.after (middle v).0

  pub head_leads :
      (before : List ℕ) (node : ℕ) (after : List ℕ)
      → s.listed ≡ before ++ node ∷ after
      → First s.head (before ++ node ∷ after)
  head_leads before node after split =
      Chain-First s.heap s.head (before ++ node ∷ after) (subst (Chain s.heap s.head) split i.chain)

  pub not_head-ListInv :
      (node next : ℕ)
      → s.pc ≡ visiting node next
      → s.head ≢ node
      → ListInv (record s { pc = searching node next 0 s.head })
  not_head-ListInv node next e ne = record {
    chain = i.chain;
    distinct = i.distinct;
    unpublished = i.unpublished;
    once = i.once;
    distinct_new = i.distinct_new;
    place = (there e, inl (start (there e).before refl));
  }
    where
      start :
          (before : List ℕ)
          → (there e).before ≡ before
          → (outer : List ℕ) × (tail : List ℕ) × ((there e).before ≡ outer ++ s.head ∷ tail)
      start [] is = absurd (
          ne (
            head_leads [] node (there e).after
              ((there e).split ∙ ap (λ (l : List ℕ). l ++ node ∷ (there e).after) is)))
      start (b ∷ before) is = (
        [],
        before,
        is
            ∙ ap (λ (y : ℕ). y ∷ before)
                (sym (
                  head_leads (b ∷ before) node (there e).after
                    ((there e).split ∙ ap (λ (l : List ℕ). l ++ node ∷ (there e).after) is))),
      )
