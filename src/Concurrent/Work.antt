-- ===== src/Concurrent/Work.antt =====
-- How much a poll of the backend of include/papper/detail/core.h has left to do, and that each of its
-- steps leaves less.
use papper.Common.{ℕ, ◌<◌, ◌≡◌, refl, ◌∙◌, ◌⊎◌, inl, inr, none, some, arith}
use papper.Queue.Spsc.{Framing, Consumer, waiting, reading}
use papper.ThreadList.{
  ListState, ListStep, Pc, resting, at, visiting, searching, allocate, retry, publish, poll_begins,
  poll_ends, load_next, keep, remove_head, not_head, advance, not_found, unlink_node, ListReach,
  extend,
}
use papper.ThreadList.Safety.{ListReach-ListInv, no_dangling}
use papper.ThreadList.Distance.{
  remaining, distance, advance_nearer, distance-push, load_next_nearer,
}
use papper.Concurrent.{
  Phase, not_yet, found_event, found_nothing, done, dead, Concurrent, node_of, phase_of,
  registration, walk, removal, kind, ConcurrentStep, starts, registers, pushes, ends, walks, looks,
  reads, finds_alive, finds_dead, goes_on, removes, ConcurrentReach,
}
use papper.Concurrent.Guarantees.{ConcurrentReach-ConcurrentInv}
use papper.Concurrent.Ready.{Ready, ConcurrentReach-Ready}
use papper.Concurrent.Places.{PcPhase}
use papper.Concurrent.Progress.{ByBackend}

-- The steps of the backend between two beginnings of a poll.
abbrev pub InPoll : {F : Framing} {s t : Concurrent} → ConcurrentStep F s t → Type 0
InPoll (starts a context loaded capacity ne free small) = ⊥
InPoll (registers st new) = ⊥
InPoll (pushes a st by alive) = ⊥
InPoll (ends a idle_now) = ⊥
InPoll (walks (poll_begins e) forth) = ⊥
InPoll (walks st forth) = Unit {0}
InPoll (looks node passed rest here early free split) = Unit {0}
InPoll (reads node j pos m here found busy loaded) = Unit {0}
InPoll (finds_alive node here found alive) = Unit {0}
InPoll (finds_dead node here found gone) = Unit {0}
InPoll (goes_on node next e over) = Unit {0}
InPoll (removes st away now) = Unit {0}

-- How far a poll has got with a node.
abbrev pub stage : Pc → Phase → ℕ
stage resting p = 0
stage (at node) p = 1
stage (visiting node next) not_yet = 6
stage (visiting node next) found_event = 5
stage (visiting node next) found_nothing = 5
stage (visiting node next) dead = 4
stage (visiting node next) done = 2
stage (searching node next previous current) p = 3

-- There is less to do.
abbrev pub Nearer : Concurrent → Concurrent → Type 0
Nearer t s =
    (remaining t.list < remaining s.list)
    ⊎ ((remaining t.list ≡ remaining s.list)
        × ((stage t.list.pc t.phase < stage s.list.pc s.phase)
            ⊎ ((stage t.list.pc t.phase ≡ stage s.list.pc s.phase)
                × (distance t.list < distance s.list))))

-- A step of a thread leaves all of that.
abbrev SameWork : Concurrent → Concurrent → Type 0
SameWork t s =
    (remaining t.list ≡ remaining s.list)
    × (stage t.list.pc t.phase ≡ stage s.list.pc s.phase)
    × (distance t.list ≡ distance s.list)

pub SameWork-Nearer : (s t u : Concurrent) → SameWork t s → Nearer u t → Nearer u s
SameWork-Nearer s t u (a, b, c) (inl x) = inl (omega (arith, a, x))
SameWork-Nearer s t u (a, b, c) (inr (e, inl x)) = inr (e ∙ a, inl (omega (arith, b, x)))
SameWork-Nearer s t u (a, b, c) (inr (e, inr (f, x))) =
    inr (e ∙ a, inr (f ∙ b, omega (arith, c, x)))

registers-SameWork :
    (s : Concurrent) {l : ListState} (st : ListStep s.list l)
    → ListReach s.list
    → kind st ≡ registration
    → SameWork (record s { list = l }) s
registers-SameWork s (allocate a context loaded ne free) r by = (refl, refl, refl)
registers-SameWork s (retry a loaded n new holds) r by = (refl, refl, refl)
registers-SameWork s (publish a n new holds to_head) r by =
    (refl, refl, distance-push s.list (ListReach-ListInv r) a new)
registers-SameWork s (poll_begins e) r by = absurd (cc)
registers-SameWork s (poll_ends e) r by = absurd (cc)
registers-SameWork s (load_next node n e ne holds) r by = absurd (cc)
registers-SameWork s (keep node next e) r by = absurd (cc)
registers-SameWork s (remove_head node next n e is_head holds) r by = absurd (cc)
registers-SameWork s (not_head node next e ne) r by = absurd (cc)
registers-SameWork s (advance node next previous current c e nz ne holds) r by = absurd (cc)
registers-SameWork s (not_found node next previous e) r by = absurd (cc)
registers-SameWork s (unlink_node node next previous p n e at_previous at_node) r by = absurd (cc)

pub thread-SameWork :
    {F : Framing} {s t : Concurrent} (st : ConcurrentStep F s t)
    → ConcurrentReach F s
    → (ByBackend st → ⊥)
    → SameWork t s
thread-SameWork (starts a context loaded capacity ne free small) r h = (refl, refl, refl)
thread-SameWork {F} {s} (registers st new) r h =
    registers-SameWork s st (ConcurrentReach-ConcurrentInv F r).listing new
thread-SameWork (pushes a st by alive) r h = (refl, refl, refl)
thread-SameWork (ends a idle_now) r h = (refl, refl, refl)
thread-SameWork (walks st forth) r h = absurd (h tt)
thread-SameWork (looks node passed rest here early free split) r h = absurd (h tt)
thread-SameWork (reads node j pos m here found busy loaded) r h = absurd (h tt)
thread-SameWork (finds_alive node here found alive) r h = absurd (h tt)
thread-SameWork (finds_dead node here found gone) r h = absurd (h tt)
thread-SameWork (goes_on node next e over) r h = absurd (h tt)
thread-SameWork (removes st away now) r h = absurd (h tt)

none_ne_some : {a : ℕ} → none ≡ some a → ⊥
none_ne_some e = cc

-- Outside of a removal the node is visited.
stage-visit :
    (pc : Pc) (p : Phase) {a : ℕ}
    → node_of pc ≡ some a
    → PcPhase pc p
    → (p ≡ dead → ⊥)
    → (node : ℕ) × (next : ℕ) × (pc ≡ visiting node next)
stage-visit resting p e place h = absurd (none_ne_some e)
stage-visit (at node) p e place h = absurd (none_ne_some e)
stage-visit (visiting node next) p e place h = (node, next, refl)
stage-visit (searching node next previous current) p e place h = absurd (h place)

-- The phase of a visit moves on.
visit-moves :
    (s : Concurrent) (q : Phase) {a : ℕ}
    → node_of s.list.pc ≡ some a
    → Ready s
    → (s.phase ≡ dead → ⊥)
    → ((node next : ℕ) → stage (visiting node next) q < stage (visiting node next) s.phase)
    → stage s.list.pc q < stage s.list.pc s.phase
visit-moves s q here r h less =
    let (node, next, e) = stage-visit s.list.pc s.phase here r.place h in rw e (less node next)

stage-look : (node next : ℕ) (c : Consumer) → stage (visiting node next) (phase_of c) < 6
stage-look node next waiting = omega arith
stage-look node next (reading i pos) = omega arith

walk-Nearer :
    (F : Framing) (s : Concurrent) {l : ListState} (st : ListStep s.list l) (forth : kind st ≡ walk)
    → ListReach s.list
    → InPoll {F = F} {s = s} (walks st forth)
    → Nearer (record s { list = l; phase = not_yet }) s
walk-Nearer F s (allocate a context loaded ne free) forth r h = absurd (cc)
walk-Nearer F s (retry a loaded n new holds) forth r h = absurd (cc)
walk-Nearer F s (publish a n new holds to_head) forth r h = absurd (cc)
walk-Nearer F s (poll_begins e) forth r h = absurd h
walk-Nearer F s (poll_ends e) forth r h = inr (refl, inl (rw e (omega arith)))
walk-Nearer F s (load_next node n e ne holds) forth r h =
    inl (load_next_nearer s.list (ListReach-ListInv r) node e ne)
walk-Nearer F s (keep node next e) forth r h = absurd (cc)
walk-Nearer F s (remove_head node next n e is_head holds) forth r h = absurd (cc)
walk-Nearer F s (not_head node next e ne) forth r h = absurd (cc)
walk-Nearer F s (advance node next previous current c e nz ne holds) forth r h = absurd (cc)
walk-Nearer F s (not_found node next previous e) forth r h = absurd (cc)
walk-Nearer F s (unlink_node node next previous p n e at_previous at_node) forth r h = absurd (cc)

removal-Nearer :
    (s : Concurrent) {l : ListState} (st : ListStep s.list l)
    → kind st ≡ removal
    → ListReach s.list
    → s.phase ≡ dead
    → Nearer (record s { list = l }) s
removal-Nearer s (allocate a context loaded ne free) away r now = absurd (cc)
removal-Nearer s (retry a loaded n new holds) away r now = absurd (cc)
removal-Nearer s (publish a n new holds to_head) away r now = absurd (cc)
removal-Nearer s (poll_begins e) away r now = absurd (cc)
removal-Nearer s (poll_ends e) away r now = absurd (cc)
removal-Nearer s (load_next node n e ne holds) away r now = absurd (cc)
removal-Nearer s (keep node next e) away r now = absurd (cc)
removal-Nearer s (remove_head node next n e is_head holds) away r now =
    inr (refl, inl (rw (e, now) (omega arith)))
removal-Nearer s (not_head node next e ne) away r now = inr (refl, inl (rw (e, now) (omega arith)))
removal-Nearer s (advance node next previous current c e nz ne holds) away r now =
    let (nz', _, _, _) =
      no_dangling (extend r (advance node next previous current c e nz ne holds)) in
    inr (
      refl,
      inr (
        rw e refl,
        rw e (advance_nearer s.list (ListReach-ListInv r) node next previous current c e holds nz'),
      ),
    )
removal-Nearer s (not_found node next previous e) away r now = inr (refl, inl (rw e (omega arith)))
removal-Nearer s (unlink_node node next previous p n e at_previous at_node) away r now =
    inr (refl, inl (rw e (omega arith)))

pub backend-Nearer :
    {F : Framing} {s t : Concurrent} (st : ConcurrentStep F s t)
    → ConcurrentReach F s
    → InPoll st
    → Nearer t s
backend-Nearer (starts a context loaded capacity ne free small) r h = absurd h
backend-Nearer (registers st new) r h = absurd h
backend-Nearer (pushes a st by alive) r h = absurd h
backend-Nearer (ends a idle_now) r h = absurd h
backend-Nearer {F} {s} (walks st forth) r h =
    walk-Nearer F s st forth (ConcurrentReach-ConcurrentInv F r).listing h
backend-Nearer {F} {s} (looks node passed rest here early free split) r h = inr (
  refl,
  inl (
      visit-moves s _ here (ConcurrentReach-Ready r) (λ x. cc)
        (λ n next. rw early (stage-look n next _))),
)
backend-Nearer {F} {s} (reads node j pos m here found busy loaded) r h = inr (
  refl,
  inl (visit-moves s _ here (ConcurrentReach-Ready r) (λ x. cc) (λ n next. rw found (omega arith))),
)
backend-Nearer {F} {s} (finds_alive node here found alive) r h = inr (
  refl,
  inl (visit-moves s _ here (ConcurrentReach-Ready r) (λ x. cc) (λ n next. rw found (omega arith))),
)
backend-Nearer {F} {s} (finds_dead node here found gone) r h = inr (
  refl,
  inl (visit-moves s _ here (ConcurrentReach-Ready r) (λ x. cc) (λ n next. rw found (omega arith))),
)
backend-Nearer (goes_on node next e over) r h = inr (refl, inl (rw (e, over) (omega arith)))
backend-Nearer {F} {s} (removes st away now) r h =
    removal-Nearer s st away (ConcurrentReach-ConcurrentInv F r).listing now
