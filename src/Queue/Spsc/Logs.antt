-- ===== src/Queue/Spsc/Logs.antt =====
-- What the logs of stores in `Queue.Spsc` stand for: positions that only grow.
use papper.Common.{
  ℕ, ◌+◌, ◌≤◌, ◌≡◌, refl, sym, ap, ◌∙◌, List, [], ◌∷◌, ◌++◌, map, arith, length, u64,
}
use papper.Memory.{Bytes}
use papper.Queue.Ring.{total}
use papper.Queue.Spsc.{latest}

-- The positions behind each of some messages, as the producer stores them.
abbrev pub ends : ℕ → List Bytes → List ℕ
ends p [] = []
ends p (m ∷ ms) = u64 (p + length m) ∷ ends (p + length m) ms

pub ends-snoc :
    (p : ℕ) (ms : List Bytes) (m : Bytes)
    → ends p (ms ++ m ∷ []) ≡ ends p ms ++ u64 (p + total ms + length m) ∷ []
ends-snoc p [] m = ap (λ (x : ℕ). u64 (x + length m) ∷ []) (omega arith)
ends-snoc p (x ∷ ms) m =
    ap (λ (l : List ℕ). u64 (p + length x) ∷ l)
      (ends-snoc (p + length x) ms m
        ∙ ap (λ (y : ℕ). ends (p + length x) ms ++ u64 (y + length m) ∷ []) (omega arith))

pub ends-nil : (p : ℕ) (ms : List Bytes) → [] ≡ ends p ms → ms ≡ []
ends-nil p [] h = refl
ends-nil p (m ∷ ms) h = cc

-- Some stores passed over are the ends of the first messages, and the load shows the last of these.
pub record Passed (p : ℕ) (ms : List Bytes) (passed rest : List ℕ) : Type 0 where
  pub more : List Bytes
  pub others : List Bytes
  pub split : ms ≡ more ++ others
  pub shows : latest (u64 p) passed ≡ u64 (p + total more)
  pub left : rest ≡ ends (p + total more) others

Passed-cons :
    (p : ℕ) (m : Bytes) (ms : List Bytes) (x : ℕ) (passed rest : List ℕ)
    → u64 (p + length m) ≡ x
    → Passed (p + length m) ms passed rest
    → Passed p (m ∷ ms) (x ∷ passed) rest
Passed-cons p m ms x passed rest head r = record {
  more = m ∷ r.more;
  others = r.others;
  split = ap (λ (l : List Bytes). m ∷ l) r.split;
  shows = ap (λ (y : ℕ). latest y passed) (sym head) ∙ r.shows ∙ ap u64 (omega arith);
  left = r.left ∙ ap (λ (y : ℕ). ends y r.others) (omega arith);
}

pub ends-Passed :
    (p : ℕ) (ms : List Bytes) (passed rest : List ℕ)
    → ends p ms ≡ passed ++ rest
    → Passed p ms passed rest
ends-Passed p ms [] rest e = record {
  more = [];
  others = ms;
  split = refl;
  shows = ap u64 (omega arith);
  left = sym e ∙ ap (λ (x : ℕ). ends x ms) (omega arith);
}
ends-Passed p [] (x ∷ passed) rest e = cc
ends-Passed p (m ∷ ms) (x ∷ passed) rest e =
    Passed-cons p m ms x passed rest (cc) (ends-Passed (p + length m) ms passed rest (cc))

-- Positions that grow from `lo` to `hi`.
abbrev pub IsChain : ℕ → List ℕ → ℕ → Type 0
IsChain lo [] hi = lo ≤ hi
IsChain lo (x ∷ xs) hi = (lo ≤ x) × IsChain x xs hi

pub IsChain-le : (lo : ℕ) (xs : List ℕ) (hi : ℕ) → IsChain lo xs hi → lo ≤ hi
IsChain-le lo [] hi c = c
IsChain-le lo (x ∷ xs) hi c = omega (arith, c.0, IsChain-le x xs hi c.1)

pub IsChain-snoc :
    (lo : ℕ) (xs : List ℕ) (hi n : ℕ) → IsChain lo xs hi → IsChain lo (xs ++ (hi + n) ∷ []) (hi + n)
IsChain-snoc lo [] hi n c = omega arith
IsChain-snoc lo (x ∷ xs) hi n c = (c.0, IsChain-snoc x xs hi n c.1)

-- A load from the log of such positions shows one of them, and the log goes on from there.
pub record Shown (lo : ℕ) (xs : List ℕ) (hi : ℕ) (passed rest : List ℕ) : Type 0 where
  pub position : ℕ
  pub others : List ℕ
  pub shows : latest (u64 lo) passed ≡ u64 position
  pub newer : lo ≤ position
  pub chain : IsChain position others hi
  pub left : rest ≡ map u64 others

Shown-cons :
    (lo x : ℕ) {xs : List ℕ} (hi y : ℕ) (passed rest : List ℕ)
    → u64 x ≡ y
    → lo ≤ x
    → Shown x xs hi passed rest
    → Shown lo (x ∷ xs) hi (y ∷ passed) rest
Shown-cons lo x hi y passed rest head le r = record {
  position = r.position;
  others = r.others;
  shows = ap (λ (z : ℕ). latest z passed) (sym head) ∙ r.shows;
  newer = omega (arith, r.newer, le);
  chain = r.chain;
  left = r.left;
}

pub chain-Shown :
    (lo : ℕ) (xs : List ℕ) (hi : ℕ) (passed rest : List ℕ)
    → map u64 xs ≡ passed ++ rest
    → IsChain lo xs hi
    → Shown lo xs hi passed rest
chain-Shown lo xs hi [] rest e c = record {
  position = lo;
  others = xs;
  shows = refl;
  newer = omega arith;
  chain = c;
  left = sym e;
}
chain-Shown lo [] hi (y ∷ passed) rest e c = cc
chain-Shown lo (x ∷ xs) hi (y ∷ passed) rest e c =
    Shown-cons lo x hi y passed rest (cc) c.0 (chain-Shown x xs hi passed rest (cc) c.1)
