-- ===== src/Program/Threads.antt =====
-- What a step of one thread (include/papper/detail/core.h) does to the threads that the backend's nodes
-- stand for.
use papper.Common.{
  ℕ, ◌≡◌, refl, sym, ap, ◌∙◌, subst, ◌≢◌, inl, inr, Bool, true, false, none, some, List, [], ◌∷◌,
  ◌++◌, append-nil, arith, ◌==◌, if◌then◌else◌, ==_iff, ==_false, Bool-cases,
}
use papper.Event.{CallSiteStaticData}
use papper.Backend.{ThreadContext, Node, put_context}
use papper.Backend.Visit.{LogEvent, Contains}
use papper.Backend.Nodes.{Absent}
use papper.Backend.Rounds.{Thread, tagged, from, NoThread, DistinctThreads, events_at}
use papper.Backend.Represents.{Represents}
use papper.Program.{context_at}

-- The thread at an address is alive or not, and has some more events.
abbrev pub change_thread : ℕ → Bool → List LogEvent → List Thread → List Thread
change_thread a alive more [] = []
change_thread a alive more (t ∷ ts) =
    if t.address == a
    then record { address = t.address; alive = alive; events = t.events ++ more } ∷ ts
    else t ∷ change_thread a alive more ts

context_at-here :
    (a : ℕ) (n : Node) (ns : List Node) (c : ThreadContext)
    → (n.address == a) ≡ true
    → context_at a (n ∷ ns) ≡ some c
    → n.context ≡ c
context_at-here a n ns c same h = injective (sym found ∙ h)
  where
    found : context_at a (n ∷ ns) ≡ some n.context
    found = rw same refl

    injective : some n.context ≡ some c → n.context ≡ c
    injective e = cc

context_at-there :
    (a : ℕ) (n : Node) (ns : List Node) (c : ThreadContext)
    → (n.address == a) ≡ false
    → context_at a (n ∷ ns) ≡ some c
    → context_at a ns ≡ some c
context_at-there a n ns c other h = sym further ∙ h
  where
    further : context_at a (n ∷ ns) ≡ context_at a ns
    further = rw other refl

-- The context at an address is put in the place of another, whose events it has and some more.
pub Represents-change_thread :
    (sites : ℕ → CallSiteStaticData) (a : ℕ) (c c' : ThreadContext) (more : List LogEvent)
    (ns : List Node) (ts : List Thread)
    → ((es : List LogEvent) → Contains sites c.queue es → Contains sites c'.queue (es ++ more))
    → context_at a ns ≡ some c
    → Represents sites ns ts
    → Represents sites (put_context a c' ns) (change_thread a c'.is_alive more ts)
Represents-change_thread sites a c c' more [] ts grows h r = absurd (none_ne_some h)
  where
    none_ne_some : none ≡ some c → ⊥
    none_ne_some x = cc
Represents-change_thread sites a c c' more (n ∷ ns) [] grows h r = absurd r
Represents-change_thread sites a c c' more (n ∷ ns) (t ∷ ts) grows h r =
    elim (Bool-cases (n.address == a)) [
      | inl same ↦
          rw (same, at_thread same)
            (
              r.0,
              refl,
              grows t.events (
                  subst (λ (d : ThreadContext). Contains sites d.queue t.events)
                    (context_at-here a n ns c same h) r.2),
              r.3,
            )
      | inr other ↦
          rw (other, at_other other)
            (
              r.0,
              r.1,
              r.2,
              Represents-change_thread sites a c c' more ns ts grows
                  (context_at-there a n ns c other h) r.3,
            )
    ]
  where
    at_thread : (n.address == a) ≡ true → (t.address == a) ≡ true
    at_thread e = ap (λ (x : ℕ). x == a) (sym r.0) ∙ e

    at_other : (n.address == a) ≡ false → (t.address == a) ≡ false
    at_other e = ap (λ (x : ℕ). x == a) (sym r.0) ∙ e

NoThread-change_thread :
    (x a : ℕ) (alive : Bool) (more : List LogEvent) (ts : List Thread)
    → NoThread x ts
    → NoThread x (change_thread a alive more ts)
NoThread-change_thread x a alive more [] h = tt
NoThread-change_thread x a alive more (t ∷ ts) h = elim (Bool-cases (t.address == a)) [
  | inl same ↦ rw same h
  | inr other ↦ rw other (h.0, NoThread-change_thread x a alive more ts h.1)
]

pub DistinctThreads-change_thread :
    (a : ℕ) (alive : Bool) (more : List LogEvent) (ts : List Thread)
    → DistinctThreads ts
    → DistinctThreads (change_thread a alive more ts)
DistinctThreads-change_thread a alive more [] d = tt
DistinctThreads-change_thread a alive more (t ∷ ts) d = elim (Bool-cases (t.address == a)) [
  | inl same ↦ rw same d
  | inr other ↦ rw other (
    NoThread-change_thread t.address a alive more ts d.0,
    DistinctThreads-change_thread a alive more ts d.1,
  )
]

from-tagged_same : (x a : ℕ) (es : List LogEvent) → a ≡ x → from x (tagged a es) ≡ es
from-tagged_same x a [] h = refl
from-tagged_same x a (e ∷ es) h =
    rw ((==_iff a x).1 h) (ap (λ (l : List LogEvent). e ∷ l) (from-tagged_same x a es h))

from-tagged_other : (x a : ℕ) (es : List LogEvent) → a ≢ x → from x (tagged a es) ≡ []
from-tagged_other x a [] h = refl
from-tagged_other x a (e ∷ es) h = rw (==_false a x h) (from-tagged_other x a es h)

-- Each address has the events it had, and the new ones if it is the one of the thread.
pub events_at-change_thread :
    (sites : ℕ → CallSiteStaticData) (x a : ℕ) (alive : Bool) (c : ThreadContext)
    (more : List LogEvent) (ns : List Node) (ts : List Thread)
    → context_at a ns ≡ some c
    → Represents sites ns ts
    → events_at x (change_thread a alive more ts) ≡ events_at x ts ++ from x (tagged a more)
events_at-change_thread sites x a alive c more [] ts h r = absurd (none_ne_some h)
  where
    none_ne_some : none ≡ some c → ⊥
    none_ne_some y = cc
events_at-change_thread sites x a alive c more (n ∷ ns) [] h r = absurd r
events_at-change_thread sites x a alive c more (n ∷ ns) (t ∷ ts) h r =
    elim (Bool-cases (t.address == a)) [
      | inl same ↦ elim (Bool-cases (t.address == x)) [
        | inl it ↦
            rw (same, it)
              (ap (λ (l : List LogEvent). t.events ++ l)
                (sym (from-tagged_same x a more (ground arith))))
        | inr not_it ↦
            rw (same, not_it)
              (sym (append-nil (events_at x ts))
                ∙ ap (λ (l : List LogEvent). events_at x ts ++ l)
                    (sym (from-tagged_other x a more (ground arith))))
      ]
      | inr other ↦ elim (Bool-cases (t.address == x)) [
        | inl it ↦
            rw (other, it)
              (sym (append-nil t.events)
                ∙ ap (λ (l : List LogEvent). t.events ++ l)
                    (sym (from-tagged_other x a more (ground arith))))
        | inr not_it ↦
            rw (other, not_it)
              (events_at-change_thread sites x a alive c more ns ts
                (context_at-there a n ns c (ap (λ (y : ℕ). y == a) r.0 ∙ other) h) r.3)
      ]
    ]

pub Absent-NoThread :
    (sites : ℕ → CallSiteStaticData) (a : ℕ) (ns : List Node) (ts : List Thread)
    → Represents sites ns ts
    → Absent a ns
    → NoThread a ts
Absent-NoThread sites a [] [] r h = tt
Absent-NoThread sites a [] (t ∷ ts) r h = absurd r
Absent-NoThread sites a (n ∷ ns) [] r h = absurd r
Absent-NoThread sites a (n ∷ ns) (t ∷ ts) r h =
    ((λ e. h.0 (r.0 ∙ e)), Absent-NoThread sites a ns ts r.3 h.1)
