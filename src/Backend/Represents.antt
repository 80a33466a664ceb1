-- ===== src/Backend/Represents.antt =====
-- The list of threads of the backend (include/papper/detail/core.h) and what it stands for.
use papper.Common.{ℕ, ◌≡◌, sym, ◌∙◌, List, [], ◌∷◌}
use papper.Event.{CallSiteStaticData}
use papper.Backend.{Node}
use papper.Backend.Visit.{Contains}
use papper.Backend.Nodes.{Absent}
use papper.Backend.Rounds.{Thread, NoThread, DistinctThreads}

-- The nodes have different addresses.
abbrev pub Distinct : List Node → Type 0
Distinct [] = Unit {0}
Distinct (n ∷ ns) = Absent n.address ns × Distinct ns

-- The nodes stand for the threads: same addresses, and the queue of each holds its events.
abbrev pub Represents : (ℕ → CallSiteStaticData) → List Node → List Thread → Type 0
Represents sites [] [] = Unit {0}
Represents sites [] (t ∷ ts) = ⊥
Represents sites (n ∷ ns) [] = ⊥
Represents sites (n ∷ ns) (t ∷ ts) =
    (n.address ≡ t.address)
    × (n.context.is_alive ≡ t.alive)
    × Contains sites n.context.queue t.events
    × Represents sites ns ts

Represents-Absent :
    (sites : ℕ → CallSiteStaticData) (a : ℕ) (ns : List Node) (ts : List Thread)
    → Represents sites ns ts
    → NoThread a ts
    → Absent a ns
Represents-Absent sites a [] [] r h = tt
Represents-Absent sites a [] (t ∷ ts) r h = absurd r
Represents-Absent sites a (n ∷ ns) [] r h = absurd r
Represents-Absent sites a (n ∷ ns) (t ∷ ts) r h =
    ((λ e. h.0 (sym r.0 ∙ e)), Represents-Absent sites a ns ts r.3 h.1)

pub Represents-Distinct :
    (sites : ℕ → CallSiteStaticData) (ns : List Node) (ts : List Thread)
    → Represents sites ns ts
    → DistinctThreads ts
    → Distinct ns
Represents-Distinct sites [] [] r h = tt
Represents-Distinct sites [] (t ∷ ts) r h = absurd r
Represents-Distinct sites (n ∷ ns) [] r h = absurd r
Represents-Distinct sites (n ∷ ns) (t ∷ ts) r h = (
  Represents-Absent sites n.address ns ts r.3 (rw r.0 h.0),
  Represents-Distinct sites ns ts r.3 h.1,
)
