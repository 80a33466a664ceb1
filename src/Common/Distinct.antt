-- ===== src/Common/Distinct.antt =====
-- Lists of addresses that occur once.
use papper.Common.{
  ℕ, ◌≡◌, refl, sym, ap, ◌∙◌, subst, ◌≢◌, ◌⊎◌, inl, inr, true, false, List, [], ◌∷◌, ◌++◌, ◌==◌,
  if◌then◌else◌, ==_iff, ==_false, Bool-cases,
}

-- The list does not have `a`.
abbrev pub Out : ℕ → List ℕ → Type 0
Out a [] = Unit {0}
Out a (x ∷ xs) = (x ≢ a) × Out a xs

abbrev pub In : ℕ → List ℕ → Type 0
In a [] = ⊥
In a (x ∷ xs) = (x ≡ a) ⊎ In a xs

abbrev pub Distinct : List ℕ → Type 0
Distinct [] = Unit {0}
Distinct (x ∷ xs) = Out x xs × Distinct xs

-- The list without the first `a`.
abbrev pub erase : ℕ → List ℕ → List ℕ
erase a [] = []
erase a (x ∷ xs) = if x == a then xs else x ∷ erase a xs

pub Out-append_intro : (a : ℕ) (xs ys : List ℕ) → Out a xs → Out a ys → Out a (xs ++ ys)
Out-append_intro a [] ys h k = k
Out-append_intro a (x ∷ xs) ys h k = (h.0, Out-append_intro a xs ys h.1 k)

pub Out-append : (a : ℕ) (xs ys : List ℕ) → Out a (xs ++ ys) → Out a xs × Out a ys
Out-append a [] ys h = (tt, h)
Out-append a (x ∷ xs) ys h = let (k, l) = Out-append a xs ys h.1 in ((h.0, k), l)

pub Out-In : (a : ℕ) (xs : List ℕ) → In a xs → Out a xs → ⊥
Out-In a [] i o = i
Out-In a (x ∷ xs) (inl e) o = o.0 e
Out-In a (x ∷ xs) (inr i) o = Out-In a xs i o.1

-- An element in the middle of a list that has each one once.
pub Distinct-middle :
    (xs : List ℕ) (y : ℕ) (ys : List ℕ)
    → Distinct (xs ++ y ∷ ys)
    → Out y xs × Out y ys × Distinct (xs ++ ys)
Distinct-middle [] y ys d = (tt, d.0, d.1)
Distinct-middle (x ∷ xs) y ys d =
    let (o, p, e) = Distinct-middle xs y ys d.1 in
    let (l, r) = Out-append x xs (y ∷ ys) d.0 in
    (((λ (q : x ≡ y). r.0 (sym q)), o), p, (Out-append_intro x xs ys l r.1, e))

pub erase-middle :
    (xs : List ℕ) (y : ℕ) (ys : List ℕ) → Out y xs → erase y (xs ++ y ∷ ys) ≡ xs ++ ys
erase-middle [] y ys o = rw ((==_iff y y).1 refl)
erase-middle (x ∷ xs) y ys o =
    rw (==_false x y o.0) (ap (λ (l : List ℕ). x ∷ l) (erase-middle xs y ys o.1))

pub Out-erase : (a y : ℕ) (xs : List ℕ) → Out a xs → Out a (erase y xs)
Out-erase a y [] o = tt
Out-erase a y (x ∷ xs) o = elim (Bool-cases (x == y)) [
  | inl same ↦ rw same o.1
  | inr other ↦ rw other (o.0, Out-erase a y xs o.1)
]

pub Distinct-erase : (y : ℕ) (xs : List ℕ) → Distinct xs → Distinct (erase y xs)
Distinct-erase y [] d = tt
Distinct-erase y (x ∷ xs) d = elim (Bool-cases (x == y)) [
  | inl same ↦ rw same d.1
  | inr other ↦ rw other (Out-erase x y xs d.0, Distinct-erase y xs d.1)
]

-- What is erased from such a list is gone.
pub Out-erased : (y : ℕ) (xs : List ℕ) → Distinct xs → Out y (erase y xs)
Out-erased y [] d = tt
Out-erased y (x ∷ xs) d = elim (Bool-cases (x == y)) [
  | inl same ↦ rw same (subst (λ (z : ℕ). Out z xs) ((==_iff x y).0 same) d.0)
  | inr other ↦ rw other (
    (λ (e : x ≡ y). absurd (true_ne_false (sym ((==_iff x y).1 e) ∙ other))),
    Out-erased y xs d.1,
  )
]
  where
    true_ne_false : true ≡ false → ⊥
    true_ne_false e = cc

pub In-erase : (a y : ℕ) (xs : List ℕ) → In a (erase y xs) → In a xs
In-erase a y [] i = i
In-erase a y (x ∷ xs) i = elim (Bool-cases (x == y)) [
  | inl same ↦ inr (subst (λ (l : List ℕ). In a l) (here same) i)
  | inr other ↦ elim (subst (λ (l : List ℕ). In a l) (there other) i) [
    | inl e ↦ inl e
    | inr j ↦ inr (In-erase a y xs j)
  ]
]
  where
    here : (x == y) ≡ true → erase y (x ∷ xs) ≡ xs
    here e = rw e refl

    there : (x == y) ≡ false → erase y (x ∷ xs) ≡ x ∷ erase y xs
    there e = rw e refl
