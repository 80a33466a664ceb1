-- ===== src/Backend/Order.antt =====
-- The rounds of the backend (include/papper/detail/core.h) take each thread's events in their order,
-- and miss none.
use papper.Common.{
  ℕ, zero, suc, ◌<◌, ◌≡◌, refl, ap, ap₂, ◌∙◌, subst, ◌≢◌, inl, inr, Bool, true, false, List, [],
  ◌∷◌, ◌++◌, arith, ◌==◌, ==_iff, ==_false, Bool-cases, length,
}
use papper.Backend.Visit.{LogEvent}
use papper.Backend.Rounds.{
  Thread, left_of, survivors, Taken, first_of, taken, from, NoThread, DistinctThreads,
  NoThread-survivors, DistinctThreads-survivors, rounds, events_at, Shorter, AllDead,
}

pub from-append : (a : ℕ) (xs ys : List Taken) → from a (xs ++ ys) ≡ from a xs ++ from a ys
from-append a [] ys = refl
from-append a ((b, e) ∷ xs) ys = elim (Bool-cases (b == a)) [
  | inl same ↦ rw same (ap (λ (l : List LogEvent). e ∷ l) (from-append a xs ys))
  | inr other ↦ rw other (from-append a xs ys)
]

from-first_of :
    (a b : ℕ) (es : List LogEvent) (xs : List Taken)
    → b ≢ a
    → from a (first_of b es ++ xs) ≡ from a xs
from-first_of a b [] xs h = refl
from-first_of a b (e ∷ es) xs h = rw (==_false b a h)

from-none : (a : ℕ) (ts : List Thread) → NoThread a ts → from a (taken ts) ≡ []
from-none a [] h = refl
from-none a (t ∷ ts) h = from-first_of a t.address t.events (taken ts) h.0 ∙ from-none a ts h.1

pub events_at-none : (a : ℕ) (ts : List Thread) → NoThread a ts → events_at a ts ≡ []
events_at-none a [] h = refl
events_at-none a (t ∷ ts) h = rw (==_false t.address a h.0) (events_at-none a ts h.1)

events_at-left_of :
    (a b : ℕ) (alive : Bool) (es : List LogEvent) (ts : List Thread)
    → b ≢ a
    → events_at a (left_of b alive es ++ ts) ≡ events_at a ts
events_at-left_of a b alive (e ∷ es) ts h = rw (==_false b a h)
events_at-left_of a b true [] ts h = rw (==_false b a h)
events_at-left_of a b false [] ts h = refl

-- The thread at the head of the list.
taken-head :
    (a : ℕ) (alive : Bool) (es : List LogEvent) (ts : List Thread)
    → NoThread a ts
    → from a (first_of a es ++ taken ts) ++ events_at a (left_of a alive es ++ survivors ts) ≡ es
taken-head a alive (e ∷ es) ts h =
    rw ((==_iff a a).1 refl) (ap (λ (l : List LogEvent). e ∷ (l ++ es)) (from-none a ts h))
taken-head a true [] ts h = rw ((==_iff a a).1 refl) (rw (from-none a ts h) refl)
taken-head a false [] ts h =
    rw (from-none a ts h) (events_at-none a (survivors ts) (NoThread-survivors a ts h))

-- What a round takes of a thread and what it leaves are the thread's events.
pub taken_lem :
    (a : ℕ) (ts : List Thread)
    → DistinctThreads ts
    → from a (taken ts) ++ events_at a (survivors ts) ≡ events_at a ts
taken_lem a [] d = refl
taken_lem a (t ∷ ts) d = elim (Bool-cases (t.address == a)) [
  | inl same ↦ rw same (
      subst
        (λ (b : ℕ).
          from b (first_of t.address t.events ++ taken ts)
            ++ events_at b (left_of t.address t.alive t.events ++ survivors ts)
          ≡ t.events)
        ((==_iff t.address a).0 same) (taken-head t.address t.alive t.events ts d.0))
  | inr other ↦ rw other (
      ap₂ ◌++◌ (from-first_of a t.address t.events (taken ts) (ground arith))
        (events_at-left_of a t.address t.alive t.events (survivors ts) (ground arith))
      ∙ taken_lem a ts d.1)
]

pub Shorter-survivors :
    (k : ℕ) (ts : List Thread) → Shorter (suc k) ts → AllDead ts → Shorter k (survivors ts)
Shorter-survivors k [] h dead = tt
Shorter-survivors k (t ∷ ts) h dead =
    left t.alive t.events dead.0 h.0 (Shorter-survivors k ts h.1 dead.1)
  where
    left :
        (b : Bool) (es : List LogEvent)
        → b ≡ false
        → length es < suc k
        → Shorter k (survivors ts)
        → Shorter k (left_of t.address b es ++ survivors ts)
    left b (e ∷ es) gone short hs = (omega arith, hs)
    left true [] gone short hs = absurd (true_ne_false gone)
      where
        true_ne_false : true ≡ false → ⊥
        true_ne_false x = cc
    left false [] gone short hs = hs

pub AllDead-survivors : (ts : List Thread) → AllDead ts → AllDead (survivors ts)
AllDead-survivors [] dead = tt
AllDead-survivors (t ∷ ts) dead = left t.alive t.events dead.0 (AllDead-survivors ts dead.1)
  where
    left :
        (b : Bool) (es : List LogEvent)
        → b ≡ false
        → AllDead (survivors ts)
        → AllDead (left_of t.address b es ++ survivors ts)
    left b (e ∷ es) gone hs = (gone, hs)
    left true [] gone hs = (gone, hs)
    left false [] gone hs = hs

rounds-nil : (k : ℕ) → rounds k [] ≡ []
rounds-nil zero = refl
rounds-nil (suc k) = rounds-nil k

-- If each dead thread has fewer than `k` events, then `k` rounds take, from each address, the events
-- of its thread, in order.
pub from-rounds :
    (k : ℕ) (ts : List Thread) (a : ℕ)
    → DistinctThreads ts
    → AllDead ts
    → Shorter k ts
    → from a (rounds k ts) ≡ events_at a ts
from-rounds zero [] a d dead short = refl
from-rounds zero (t ∷ ts) a d dead short = absurd (omega arith)
from-rounds (suc k) ts a d dead short =
    from-append a (taken ts) (rounds k (survivors ts))
    ∙ ap (λ (l : List LogEvent). from a (taken ts) ++ l)
        (from-rounds k (survivors ts) a (DistinctThreads-survivors ts d) (AllDead-survivors ts dead)
          (Shorter-survivors k ts short dead))
    ∙ taken_lem a ts d
