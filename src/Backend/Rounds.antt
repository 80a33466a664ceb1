-- ===== src/Backend/Rounds.antt =====
-- The threads of the backend (include/papper/detail/core.h) as the events that each has left, and what
-- a round over them takes.
use papper.Common.{
  ℕ, zero, suc, ◌<◌, ◌≡◌, ◌≢◌, Bool, true, false, List, [], ◌∷◌, ◌++◌, ◌==◌, if◌then◌else◌, length,
}
use papper.Backend.Visit.{LogEvent}

-- A registered thread: the address of its node, whether it is alive, and its events, oldest first.
pub record Thread : Type 0 where
  pub address : ℕ
  pub alive : Bool
  pub events : List LogEvent

-- What is left of a thread after a round: a dead thread that had no event goes.
abbrev pub left_of : ℕ → Bool → List LogEvent → List Thread
left_of a b (e ∷ es) = record { address = a; alive = b; events = es } ∷ []
left_of a true [] = record { address = a; alive = true; events = [] } ∷ []
left_of a false [] = []

abbrev pub survivors : List Thread → List Thread
survivors [] = []
survivors (t ∷ ts) = left_of t.address t.alive t.events ++ survivors ts

-- An event with the address of its thread.
abbrev pub Taken : Type 0
Taken = ℕ × LogEvent

abbrev pub first_of : ℕ → List LogEvent → List Taken
first_of a [] = []
first_of a (e ∷ es) = (a, e) ∷ []

-- A round takes the first event of each thread that has one.
abbrev pub taken : List Thread → List Taken
taken [] = []
taken (t ∷ ts) = first_of t.address t.events ++ taken ts

abbrev pub is_nonempty : List Taken → Bool
is_nonempty [] = false
is_nonempty (x ∷ xs) = true

abbrev pub events_of : List Taken → List LogEvent
events_of [] = []
events_of ((a, e) ∷ xs) = e ∷ events_of xs

-- Some events as those of the thread at an address.
abbrev pub tagged : ℕ → List LogEvent → List Taken
tagged a [] = []
tagged a (e ∷ es) = (a, e) ∷ tagged a es

-- The events of the thread at an address, in order.
abbrev pub from : ℕ → List Taken → List LogEvent
from a [] = []
from a ((b, e) ∷ xs) = if b == a then e ∷ from a xs else from a xs

-- The threads have different addresses.
abbrev pub NoThread : ℕ → List Thread → Type 0
NoThread a [] = Unit {0}
NoThread a (t ∷ ts) = (t.address ≢ a) × NoThread a ts

abbrev pub DistinctThreads : List Thread → Type 0
DistinctThreads [] = Unit {0}
DistinctThreads (t ∷ ts) = NoThread t.address ts × DistinctThreads ts

NoThread-left_of :
    (a b : ℕ) (alive : Bool) (es : List LogEvent) (ts : List Thread)
    → b ≢ a
    → NoThread a ts
    → NoThread a (left_of b alive es ++ ts)
NoThread-left_of a b alive (e ∷ es) ts h hs = (h, hs)
NoThread-left_of a b true [] ts h hs = (h, hs)
NoThread-left_of a b false [] ts h hs = hs

pub NoThread-survivors : (a : ℕ) (ts : List Thread) → NoThread a ts → NoThread a (survivors ts)
NoThread-survivors a [] h = tt
NoThread-survivors a (t ∷ ts) h =
    NoThread-left_of a t.address t.alive t.events (survivors ts) h.0 (NoThread-survivors a ts h.1)

DistinctThreads-left_of :
    (a : ℕ) (alive : Bool) (es : List LogEvent) (ts : List Thread)
    → NoThread a ts
    → DistinctThreads ts
    → DistinctThreads (left_of a alive es ++ ts)
DistinctThreads-left_of a alive (e ∷ es) ts h hs = (h, hs)
DistinctThreads-left_of a true [] ts h hs = (h, hs)
DistinctThreads-left_of a false [] ts h hs = hs

pub DistinctThreads-survivors :
    (ts : List Thread) → DistinctThreads ts → DistinctThreads (survivors ts)
DistinctThreads-survivors [] h = tt
DistinctThreads-survivors (t ∷ ts) h =
    DistinctThreads-left_of t.address t.alive t.events (survivors ts)
      (NoThread-survivors t.address ts h.0) (DistinctThreads-survivors ts h.1)

-- What is taken in `k` rounds.
abbrev pub rounds : ℕ → List Thread → List Taken
rounds zero ts = []
rounds (suc k) ts = taken ts ++ rounds k (survivors ts)

-- The events of the thread at an address, none if there is no such thread.
abbrev pub events_at : ℕ → List Thread → List LogEvent
events_at a [] = []
events_at a (t ∷ ts) = if t.address == a then t.events else events_at a ts

-- Each thread has fewer than `k` events.
abbrev pub Shorter : ℕ → List Thread → Type 0
Shorter k [] = Unit {0}
Shorter k (t ∷ ts) = (length t.events < k) × Shorter k ts

abbrev pub AllDead : List Thread → Type 0
AllDead [] = Unit {0}
AllDead (t ∷ ts) = (t.alive ≡ false) × AllDead ts
