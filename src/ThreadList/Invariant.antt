-- ===== src/ThreadList/Invariant.antt =====
-- What holds of the list of threads in memory (include/papper/detail/core.h), whatever the threads and the
-- backend have done.
use papper.Common.{
  ℕ, ◌≡◌, refl, sym, ap, ◌∙◌, subst, ◌≢◌, ◌⊎◌, inl, inr, none, some, List, [], ◌∷◌, ◌++◌, ◌==◌,
  ==_false, Bool-cases,
}
use papper.Common.Distinct.{Out, In, Distinct, erase, Out-append_intro, Out-append}
use papper.ThreadList.{ListNode, Heap, write, Pc, resting, at, visiting, searching, ListState}
use papper.ThreadList.Chain.{Chain, First}

-- Nodes that are allocated and not in the list.
abbrev pub Unpublished : Heap → List ℕ → List ℕ → Type 0
Unpublished h listed [] = Unit {0}
Unpublished h listed (a ∷ bs) =
    (a ≢ 0) × Out a listed × ((n : ListNode) × (h a ≡ some n)) × Unpublished h listed bs

-- The poll is at a node of the list, or behind its end; and the nodes behind it are those that it has
-- still to visit.
pub record At (listed visited snapshot : List ℕ) (node : ℕ) : Type 0 where
  pub before : List ℕ
  pub after : List ℕ
  pub split : listed ≡ before ++ after
  pub first : First node after
  pub rest : visited ++ after ≡ snapshot

pub record Visiting (listed visited snapshot : List ℕ) (node next : ℕ) : Type 0 where
  pub before : List ℕ
  pub after : List ℕ
  pub split : listed ≡ before ++ node ∷ after
  pub first : First next after
  pub rest : visited ++ after ≡ snapshot

-- The search is at its first node, or just behind `previous`.
abbrev pub Place : List ℕ → ℕ → ℕ → ℕ → Type 0
Place before node previous current =
    ((outer : List ℕ) × (tail : List ℕ) × (before ≡ outer ++ current ∷ tail))
    ⊎ ((outer : List ℕ) × (tail : List ℕ) × (before ≡ outer ++ previous ∷ tail)
        × First current (tail ++ node ∷ []))

abbrev pub PcOk : List ℕ → List ℕ → List ℕ → Pc → Type 0
PcOk listed visited snapshot resting = Unit {0}
PcOk listed visited snapshot (at node) = At listed visited snapshot node
PcOk listed visited snapshot (visiting node next) = Visiting listed visited snapshot node next
PcOk listed visited snapshot (searching node next previous current) =
    (v : Visiting listed visited snapshot node next) × Place v.before node previous current

pub record ListInv (s : ListState) : Type 0 where
  pub chain : Chain s.heap s.head s.listed
  pub distinct : Distinct s.listed
  pub unpublished : Unpublished s.heap s.listed s.registering
  pub once : Distinct s.snapshot
  pub distinct_new : Distinct s.registering
  pub place : PcOk s.listed s.visited s.snapshot s.pc

pub Chain-Out : (h : Heap) (a p : ℕ) (xs : List ℕ) → h a ≡ none → Chain h p xs → Out a xs
Chain-Out h a p [] free c = tt
Chain-Out h a p (x ∷ xs) free (e, ne, (n, holds, rest)) =
    ((λ (q : x ≡ a). taken (sym holds ∙ ap h q ∙ free)), Chain-Out h a n.next xs free rest)
  where
    taken : some n ≡ none → ⊥
    taken q = cc

module _ (h : Heap) (listed : List ℕ) where
  pub Unpublished-Out : (a : ℕ) (bs : List ℕ) → h a ≡ none → Unpublished h listed bs → Out a bs
  Unpublished-Out a [] free u = tt
  Unpublished-Out a (b ∷ bs) free (ne, o, (n, holds), rest) =
      ((λ (q : b ≡ a). taken (sym holds ∙ ap h q ∙ free)), Unpublished-Out a bs free rest)
    where
      taken : some n ≡ none → ⊥
      taken q = cc

  pub Unpublished-In :
      (a : ℕ) (bs : List ℕ) → In a bs → Unpublished h listed bs → (a ≢ 0) × Out a listed
  Unpublished-In a [] i u = absurd i
  Unpublished-In a (b ∷ bs) (inl e) u = subst (λ (c : ℕ). (c ≢ 0) × Out c listed) e (u.0, u.1)
  Unpublished-In a (b ∷ bs) (inr i) u = Unpublished-In a bs i u.3

  -- A node is written.
  pub Unpublished-write :
      (a : ℕ) (n : ListNode) (bs : List ℕ)
      → Unpublished h listed bs
      → Unpublished (write h a (some n)) listed bs
  Unpublished-write a n [] u = tt
  Unpublished-write a n (b ∷ bs) (ne, o, (m, holds), rest) =
      (ne, o, written, Unpublished-write a n bs rest)
    where
      written : (k : ListNode) × (write h a (some n) b ≡ some k)
      written = elim (Bool-cases (b == a)) [
        | inl same ↦ (n, rw same refl)
        | inr other ↦ (m, rw other holds)
      ]

  -- Another node enters the list.
  pub Unpublished-listed :
      (a : ℕ) (bs : List ℕ) → Out a bs → Unpublished h listed bs → Unpublished h (a ∷ listed) bs
  Unpublished-listed a [] o u = tt
  Unpublished-listed a (b ∷ bs) o u =
      (u.0, ((λ (q : a ≡ b). o.0 (sym q)), u.1), u.2, Unpublished-listed a bs o.1 u.3)

  pub Unpublished-erase :
      (a : ℕ) (bs : List ℕ) → Unpublished h listed bs → Unpublished h listed (erase a bs)
  Unpublished-erase a [] u = tt
  Unpublished-erase a (b ∷ bs) u = elim (Bool-cases (b == a)) [
    | inl same ↦ rw same u.3
    | inr other ↦ rw other (u.0, u.1, u.2, Unpublished-erase a bs u.3)
  ]

-- A node leaves the list and is deleted.
pub Unpublished-removed :
    (h : Heap) (before : List ℕ) (node : ℕ) (after bs : List ℕ)
    → Unpublished h (before ++ node ∷ after) bs
    → Unpublished (write h node none) (before ++ after) bs
Unpublished-removed h before node after [] u = tt
Unpublished-removed h before node after (b ∷ bs) (ne, o, (m, holds), rest) =
    let (l, r) = Out-append b before (node ∷ after) o in
    (
      ne,
      Out-append_intro b before after l r.1,
      (m, rw (==_false b node (λ (q : b ≡ node). r.0 (sym q))) holds),
      Unpublished-removed h before node after bs rest,
    )

-- A node is pushed on the list while the backend is somewhere in it.
pub PcOk-push :
    (a : ℕ) (listed visited snapshot : List ℕ) (pc : Pc)
    → PcOk listed visited snapshot pc
    → PcOk (a ∷ listed) visited snapshot pc
PcOk-push a listed visited snapshot resting p = tt
PcOk-push a listed visited snapshot (at node) p = record {
  before = a ∷ p.before;
  after = p.after;
  split = ap (λ (l : List ℕ). a ∷ l) p.split;
  first = p.first;
  rest = p.rest;
}
PcOk-push a listed visited snapshot (visiting node next) p = record {
  before = a ∷ p.before;
  after = p.after;
  split = ap (λ (l : List ℕ). a ∷ l) p.split;
  first = p.first;
  rest = p.rest;
}
PcOk-push a listed visited snapshot (searching node next previous current) (p, place) = (
  record {
    before = a ∷ p.before;
    after = p.after;
    split = ap (λ (l : List ℕ). a ∷ l) p.split;
    first = p.first;
    rest = p.rest;
  },
  elim place [
    | inl (outer, tail, e) ↦ inl (a ∷ outer, tail, ap (λ (l : List ℕ). a ∷ l) e)
    | inr (outer, tail, e, first) ↦ inr (a ∷ outer, tail, ap (λ (l : List ℕ). a ∷ l) e, first)
  ],
)
