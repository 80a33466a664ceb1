-- ===== src/Concurrent/Places.antt =====
-- Which places of the backend of include/papper/detail/core.h in the list go with which phases of a visit.
use papper.Common.{◌≡◌, refl, none}
use papper.ThreadList.{
  ListState, ListStep, Pc, resting, at, visiting, searching, allocate, retry, publish, poll_begins,
  poll_ends, load_next, keep, remove_head, not_head, advance, not_found, unlink_node,
}
use papper.Concurrent.{Phase, not_yet, dead, node_of, walk, kind}

-- The search in `remove_and_delete_node` is for a node of a dead thread.
abbrev pub PcPhase : Pc → Phase → Type 0
PcPhase resting p = Unit {0}
PcPhase (at node) p = Unit {0}
PcPhase (visiting node next) p = Unit {0}
PcPhase (searching node next previous current) p = p ≡ dead

pub node_of-walk : {l k : ListState} (st : ListStep l k) → kind st ≡ walk → node_of l.pc ≡ none
node_of-walk (allocate a context loaded ne free) by = cc
node_of-walk (retry a loaded n new holds) by = cc
node_of-walk (publish a n new holds to_head) by = cc
node_of-walk (poll_begins e) by = rw e refl
node_of-walk (poll_ends e) by = rw e refl
node_of-walk (load_next node n e ne holds) by = rw e refl
node_of-walk (keep node next e) by = cc
node_of-walk (remove_head node next n e is_head holds) by = cc
node_of-walk (not_head node next e ne) by = cc
node_of-walk (advance node next previous current c e nz ne holds) by = cc
node_of-walk (not_found node next previous e) by = cc
node_of-walk (unlink_node node next previous p n e at_previous at_node) by = cc

pub PcPhase-walk : {l k : ListState} (st : ListStep l k) → kind st ≡ walk → PcPhase k.pc not_yet
PcPhase-walk (allocate a context loaded ne free) by = absurd (cc)
PcPhase-walk (retry a loaded n new holds) by = absurd (cc)
PcPhase-walk (publish a n new holds to_head) by = absurd (cc)
PcPhase-walk (poll_begins e) by = tt
PcPhase-walk (poll_ends e) by = tt
PcPhase-walk (load_next node n e ne holds) by = tt
PcPhase-walk (keep node next e) by = absurd (cc)
PcPhase-walk (remove_head node next n e is_head holds) by = absurd (cc)
PcPhase-walk (not_head node next e ne) by = absurd (cc)
PcPhase-walk (advance node next previous current c e nz ne holds) by = absurd (cc)
PcPhase-walk (not_found node next previous e) by = absurd (cc)
PcPhase-walk (unlink_node node next previous p n e at_previous at_node) by = absurd (cc)

pub PcPhase-dead : (pc : Pc) → PcPhase pc dead
PcPhase-dead resting = tt
PcPhase-dead (at node) = tt
PcPhase-dead (visiting node next) = tt
PcPhase-dead (searching node next previous current) = refl

-- Outside of a removal the phase may be any other.
pub outside_dead : (p q : Phase) (pc : Pc) → (p ≡ dead → ⊥) → PcPhase pc p → PcPhase pc q
outside_dead p q resting h place = tt
outside_dead p q (at n) h place = tt
outside_dead p q (visiting n next) h place = tt
outside_dead p q (searching n next previous current) h place = absurd (h place)
