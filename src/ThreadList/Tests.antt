-- ===== src/ThreadList/Tests.antt =====
-- A thread registers, a second one registers while the backend polls, and the first is removed
-- (include/papper/detail/core.h).
use papper.Common.{◌≡◌, refl, inl, none, some, List, [], ◌∷◌, arith}
use papper.Common.Distinct.{Distinct}
use papper.Backend.{Node}
use papper.Backend.Samples.{empty_context}
use papper.ThreadList.{
  ListNode, write, at, visiting, searching, ListState, empty_list, ListStep, allocate, retry,
  publish, poll_begins, load_next, not_head, advance, unlink_node, ListReach, begin, extend,
}
use papper.ThreadList.Chain.{Chain}
use papper.ThreadList.Safety.{ReadsNodes, no_dangling, poll_visits_snapshot}
use papper.ThreadList.Refines.{addresses, NodesStep, list_refines}

abbrev first_node : ListNode
first_node = record { context = 100; next = 0 }

abbrev second_node : ListNode
second_node = record { context = 200; next = 7 }

-- The second thread has loaded a stale head at first.
abbrev both_new : ListState
both_new = record empty_list {
  head = 7;
  heap =
      write (write empty_list.heap 7 (some first_node)) 8
        (some (record { context = 200; next = 0 }));
  registering = 8 ∷ [];
  pc = visiting 7 0;
  listed = 7 ∷ [];
  snapshot = 7 ∷ [];
  visited = 7 ∷ [];
}

both_new-Reach : ListReach both_new
both_new-Reach =
    extend
      (extend
        (extend
          (extend (extend begin (allocate 7 100 0 (omega arith) refl))
            (publish 7 first_node (inl refl) refl refl))
          (poll_begins refl))
        (load_next 7 first_node refl (omega arith) refl))
      (allocate 8 200 0 (omega arith) refl)

-- It is published, and the search for the first node has found it behind the second.
abbrev found : ListState
found = record both_new {
  head = 8;
  heap = write both_new.heap 8 (some second_node);
  registering = [];
  pc = searching 7 0 8 7;
  listed = 8 ∷ 7 ∷ [];
}

found-Reach : ListReach found
found-Reach =
    extend
      (extend
        (extend
          (extend both_new-Reach (retry 8 7 (record { context = 200; next = 0 }) (inl refl) refl))
          (publish 8 second_node (inl refl) refl refl))
        (not_head 7 0 refl (omega arith)))
      (advance 7 0 0 8 second_node refl (omega arith) (omega arith) refl)

no_dangling_example : ReadsNodes found.heap found.pc
no_dangling_example = no_dangling found-Reach

abbrev done : ListState
done = record found {
  heap = write (write found.heap 8 (some (record { context = 200; next = 0 }))) 7 none;
  pc = at 0;
  listed = 8 ∷ [];
}

removal : ListStep found done
removal = unlink_node 7 0 8 second_node first_node refl refl refl

poll_visits_snapshot_example : (done.visited ≡ done.snapshot) × Distinct done.visited
poll_visits_snapshot_example = poll_visits_snapshot (extend found-Reach removal) refl

abbrev nodes : List Node
nodes =
    record { address = 8; context = empty_context }
    ∷ record { address = 7; context = empty_context }
    ∷ []

list_refines_example :
    Chain found.heap 8 (8 ∷ 7 ∷ [])
    × ((after : List Node) × NodesStep nodes after
        × Chain done.heap 8 (addresses after)
        × (addresses after ≡ 8 ∷ []))
list_refines_example = list_refines nodes empty_context found-Reach refl removal
