-- ===== src/ThreadList/Chain.antt =====
-- Nodes in memory (include/papper/detail/core.h) that lead from one to the next.
use papper.Common.{
  ℕ, ◌≡◌, refl, sym, ◌∙◌, subst, ◌≢◌, Option, none, some, List, [], ◌∷◌, ◌++◌, ==_iff, ==_false,
}
use papper.Common.Distinct.{Out, Distinct, Out-append}
use papper.ThreadList.{ListNode, Heap, write}

-- From `p` the `next` pointers lead through the nodes of the list to nullptr.
abbrev pub Chain : Heap → ℕ → List ℕ → Type 0
Chain h p [] = p ≡ 0
Chain h p (x ∷ xs) = (p ≡ x) × (x ≢ 0) × ((n : ListNode) × (h x ≡ some n) × Chain h n.next xs)

-- The pointer to the first node of a list.
abbrev pub First : ℕ → List ℕ → Type 0
First p [] = p ≡ 0
First p (x ∷ xs) = p ≡ x

pub Chain-First : (h : Heap) (p : ℕ) (xs : List ℕ) → Chain h p xs → First p xs
Chain-First h p [] c = c
Chain-First h p (x ∷ xs) c = c.0

-- A write elsewhere does not touch the chain.
pub Chain-write :
    (h : Heap) (a : ℕ) (v : Option ListNode) (p : ℕ) (xs : List ℕ)
    → Out a xs
    → Chain h p xs
    → Chain (write h a v) p xs
Chain-write h a v p [] o c = c
Chain-write h a v p (x ∷ xs) o (e, ne, (n, holds, rest)) =
    (e, ne, (n, rw (==_false x a o.0) holds, Chain-write h a v n.next xs o.1 rest))

-- The node at a place of the chain, with what follows.
pub Chain-node :
    (h : Heap) (p : ℕ) (xs : List ℕ) (y : ℕ) (ys : List ℕ)
    → Chain h p (xs ++ y ∷ ys)
    → (y ≢ 0) × ((n : ListNode) × (h y ≡ some n) × Chain h n.next ys)
Chain-node h p [] y ys c = (c.1, c.2)
Chain-node h p (x ∷ xs) y ys c = Chain-node h c.2.0.next xs y ys c.2.2

-- Behind `previous` stands `node`: the write to `previous->next` and the deletion take `node` out.
pub Chain-unlink :
    (h : Heap) (p : ℕ) (outer : List ℕ) (previous node : ℕ) (after : List ℕ) (m n : ListNode)
    → Distinct (outer ++ previous ∷ node ∷ after)
    → h previous ≡ some m
    → h node ≡ some n
    → Chain h p (outer ++ previous ∷ node ∷ after)
    → Chain
        (write (write h previous (some (record m { next = n.next }))) node none)
        p
        (outer ++ previous ∷ after)
Chain-unlink h p [] previous node after m n d at_previous at_node
      (e, ne, (k, holds, (e', ne', (l, holds', rest)))) =
    (
      e,
      ne,
      (
        record m { next = n.next },
        rw (==_false previous node (λ (q : previous ≡ node). d.0.0 (sym q)))
            (rw ((==_iff previous previous).1 refl) refl),
        Chain-write (write h previous (some (record m { next = n.next }))) node none n.next after
            d.1.0
            (Chain-write h previous (some (record m { next = n.next })) n.next after d.0.1
              (subst (λ (q : ListNode). Chain h q.next after) (same (sym holds' ∙ at_node)) rest)),
      ),
    )
  where
    same : some l ≡ some n → l ≡ n
    same q = cc
Chain-unlink h p (x ∷ outer) previous node after m n d at_previous at_node
      (e, ne, (k, holds, rest)) =
    let others = (Out-append x outer (previous ∷ node ∷ after) d.0).1 in
    (
      e,
      ne,
      (
        k,
        rw (==_false x node (λ (q : x ≡ node). others.1.0 (sym q)))
            (rw (==_false x previous (λ (q : x ≡ previous). others.0 (sym q))) holds),
        Chain-unlink h k.next outer previous node after m n d.1 at_previous at_node rest,
      ),
    )
