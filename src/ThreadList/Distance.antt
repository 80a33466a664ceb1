-- ===== src/ThreadList/Distance.antt =====
-- How far the poll and the search of include/papper/detail/core.h still have to go in the list of threads.
use papper.Common.{
  ℕ, suc, ◌-◌, ◌<◌, ◌≡◌, refl, sym, ap, ◌∙◌, subst, ◌≢◌, inl, inr, some, List, [], ◌∷◌, ◌++◌,
  append_assoc, arith, ◌==◌, if◌then◌else◌, ==_iff, ==_false, length, length-append,
}
use papper.Common.Distinct.{Out, In, Distinct, Out-append, Distinct-middle}
use papper.ThreadList.{ListNode, Pc, resting, at, visiting, searching, ListState}
use papper.ThreadList.Chain.{Chain, First, Chain-node}
use papper.ThreadList.Invariant.{At, PcOk, ListInv, Unpublished-In}

-- The nodes from one on.
abbrev pub from : ℕ → List ℕ → ℕ
from c [] = 0
from c (y ∷ ys) = if y == c then suc (length ys) else from c ys

-- The nodes that the poll has still to visit.
abbrev pub remaining : ListState → ℕ
remaining s = length s.snapshot - length s.visited

-- The nodes that the search has still to look at.
abbrev distance_at : Pc → List ℕ → ℕ
distance_at resting listed = 0
distance_at (at node) listed = 0
distance_at (visiting node next) listed = 0
distance_at (searching node next previous current) listed = from current listed

abbrev pub distance : ListState → ℕ
distance s = distance_at s.pc s.listed

from-middle :
    (xs : List ℕ) (c : ℕ) (ys : List ℕ) → Out c xs → from c (xs ++ c ∷ ys) ≡ suc (length ys)
from-middle [] c ys o = rw ((==_iff c c).1 refl) refl
from-middle (x ∷ xs) c ys o = rw (==_false x c o.0) (from-middle xs c ys o.1)

Listed : List ℕ → ℕ → Type 0
Listed listed c = (xs : List ℕ) × (ys : List ℕ) × (listed ≡ xs ++ c ∷ ys)

-- The search is at a node of the list.
searched-Listed :
    (listed visited snapshot : List ℕ) (node next previous current : ℕ)
    → PcOk listed visited snapshot (searching node next previous current)
    → Listed listed current
unfolding Listed
searched-Listed listed visited snapshot node next previous current (v, inl (outer, tail, e)) = (
  outer,
  tail ++ node ∷ v.after,
  v.split
      ∙ ap (λ (l : List ℕ). l ++ node ∷ v.after) e
      ∙ append_assoc outer (current ∷ tail) (node ∷ v.after),
)
searched-Listed listed visited snapshot node next previous current (v, inr (outer, [], e, f)) =
    (v.before, v.after, v.split ∙ ap (λ (c : ℕ). v.before ++ c ∷ v.after) (sym f))
searched-Listed listed visited snapshot node next previous current
      (v, inr (outer, (y ∷ tail), e, f)) =
    (
      outer ++ previous ∷ [],
      tail ++ node ∷ v.after,
      v.split
          ∙ ap (λ (l : List ℕ). l ++ node ∷ v.after) e
          ∙ append_assoc outer (previous ∷ y ∷ tail) (node ∷ v.after)
          ∙ ap (λ (c : ℕ). outer ++ previous ∷ c ∷ (tail ++ node ∷ v.after)) (sym f)
          ∙ sym (append_assoc outer (previous ∷ []) (current ∷ (tail ++ node ∷ v.after))),
    )

module _ (s : ListState) (i : ListInv s) where
  current_listed :
      (node next previous current : ℕ)
      → s.pc ≡ searching node next previous current
      → Listed s.listed current
  current_listed node next previous current e =
      searched-Listed s.listed s.visited s.snapshot node next previous current
        (subst (PcOk s.listed s.visited s.snapshot) e i.place)

  -- The search gets nearer to its end.
  pub advance_nearer :
      (node next previous current : ℕ) (c : ListNode)
      → s.pc ≡ searching node next previous current
      → s.heap current ≡ some c
      → c.next ≢ 0
      → from c.next s.listed < from current s.listed
  unfolding Listed
  advance_nearer node next previous current c e holds nz =
      let (xs, ys, split) = current_listed node next previous current e in
      go xs ys split (Distinct-middle xs current ys (subst Distinct split i.distinct)).0
        (Chain-node s.heap s.head xs current ys (subst (Chain s.heap s.head) split i.chain)).1
    where
      go :
          (xs ys : List ℕ)
          → s.listed ≡ xs ++ current ∷ ys
          → Out current xs
          → (n : ListNode) × (s.heap current ≡ some n) × Chain s.heap n.next ys
          → from c.next s.listed < from current s.listed
      go xs ys split o (n, at_current, rest) = behind ys split (
          subst (λ (m : ListNode). Chain s.heap m.next ys) (some-same (sym at_current ∙ holds))
            rest)
        where
          some-same : {m k : ListNode} → some m ≡ some k → m ≡ k
          some-same x = cc

          behind :
              (ys : List ℕ)
              → s.listed ≡ xs ++ current ∷ ys
              → Chain s.heap c.next ys
              → from c.next s.listed < from current s.listed
          behind [] split chain = absurd (nz chain)
          behind (y ∷ ys) split chain =
              let split' : s.listed ≡ (xs ++ current ∷ []) ++ y ∷ ys =
                split ∙ sym (append_assoc xs (current ∷ []) (y ∷ ys)) in
              let far : from current s.listed ≡ suc (length (y ∷ ys)) =
                ap (from current) split ∙ from-middle xs current (y ∷ ys) o in
              let near : from c.next s.listed ≡ suc (length ys) =
                ap (λ (x : ℕ). from x s.listed) chain.0
                ∙ ap (from y) split'
                ∙ from-middle (xs ++ current ∷ []) y ys
                    (Distinct-middle (xs ++ current ∷ []) y ys
                      (subst Distinct split' i.distinct)).0 in
              omega (arith, far, near)

  -- A node that is registered does not change how far the search has to go.
  pub distance-push :
      (a : ℕ) → In a s.registering → distance_at s.pc (a ∷ s.listed) ≡ distance_at s.pc s.listed
  unfolding Listed
  distance-push a new = push_at s.pc i.place
    where
      outside : Out a s.listed
      outside = (Unpublished-In s.heap s.listed a s.registering new i.unpublished).1

      push_at :
          (pc : Pc)
          → PcOk s.listed s.visited s.snapshot pc
          → distance_at pc (a ∷ s.listed) ≡ distance_at pc s.listed
      push_at resting p = refl
      push_at (at node) p = refl
      push_at (visiting node next) p = refl
      push_at (searching node next previous current) p =
          let (xs, ys, split) =
            searched-Listed s.listed s.visited s.snapshot node next previous current p in
          let others = (Out-append a xs (current ∷ ys) (subst (Out a) split outside)).1 in
          rw (==_false a current (λ (q : a ≡ current). others.0 (sym q))) refl

  -- The visit of a node leaves one less.
  pub load_next_nearer :
      (node : ℕ)
      → s.pc ≡ at node
      → node ≢ 0
      → length s.snapshot - length (s.visited ++ node ∷ []) < length s.snapshot - length s.visited
  load_next_nearer node e nz =
      let p : At s.listed s.visited s.snapshot node =
        subst (PcOk s.listed s.visited s.snapshot) e i.place in
      left p.after p.first p.rest
    where
      left :
          (after : List ℕ)
          → First node after
          → s.visited ++ after ≡ s.snapshot
          → length s.snapshot - length (s.visited ++ node ∷ [])
            < length s.snapshot - length s.visited
      left [] f e = absurd (nz f)
      left (x ∷ after) f e = omega (
        arith,
        ap length e,
        length-append s.visited (x ∷ after),
        length-append s.visited (node ∷ []),
      )
