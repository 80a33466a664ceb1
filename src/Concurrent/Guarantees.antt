-- ===== src/Concurrent/Guarantees.antt =====
-- What the threads and the backend of include/papper/detail/core.h guarantee in every interleaving.
use papper.Common.{
  ℕ, ◌≡◌, refl, sym, ap, ◌∙◌, subst, Bool, true, false, Option, none, some, List, ◌++◌, arith,
  length,
}
use papper.Memory.{Bytes}
use papper.Queue.{reserve_read}
use papper.Queue.Spsc.{
  Framing, System, Step, after_reserve_read, begin_read, latest, look, receive, start,
}
use papper.Queue.Spsc.Unseen.{
  SeesNone, reserve_read-SeesNone, ByProducer, ByProducer-SeesNone, unread_unseen,
}
use papper.Queue.Spsc.Fifo.{received-IsPrefix}
use papper.ThreadList.{keep, begin, extend}
use papper.ThreadList.Safety.{IsNode}
use papper.Concurrent.{
  Phase, not_yet, found_event, found_nothing, done, dead, Concurrent, update, node_of, phase_of,
  walk, removal, ConcurrentStep, starts, registers, pushes, ends, walks, looks, reads, finds_alive,
  finds_dead, goes_on, removes, ConcurrentReach, nothing, and_then,
}
use papper.Concurrent.ListFacts.{
  by_update, some-injective, pc-registration, ListStep-IsNode, node_of-removal,
}
use papper.Concurrent.Invariant.{
  PhaseOk, ConcurrentInv, kinds_differ, on_list, on_channel, starts-ConcurrentInv,
  ends-ConcurrentInv,
}

phase-begin_read :
    (t : System) (alive : Bool) (b : Option ℕ) (pos : ℕ)
    → (b ≡ none → SeesNone t)
    → PhaseOk
        (phase_of (begin_read (record { buffer = b; current_read_pos = pos })))
        (record { channel = t; is_alive = alive })
phase-begin_read t alive none pos sees = sees refl
phase-begin_read t alive (some i) pos sees = tt

-- A look that finds nothing leaves the consumer knowing of no message.
looked :
    (c : System) (passed rest : List ℕ) (alive : Bool)
    → PhaseOk
        (phase_of (after_reserve_read c passed rest).consumer)
        (record { channel = after_reserve_read c passed rest; is_alive = alive })
looked c passed rest alive =
    let res = (reserve_read (latest c.queue.cached_w passed) c.queue).1 in
    phase-begin_read (after_reserve_read c passed rest) alive res.buffer res.current_read_pos
      (reserve_read-SeesNone (latest c.queue.cached_w passed) c.queue)

module _ (F : Framing) where
  pushes-ConcurrentInv :
      (s : Concurrent)
      → ConcurrentInv F s
      → (a : ℕ) {t : System} (st : Step F (s.contexts a).channel t) → ByProducer st
      → ConcurrentInv F
          (record s { contexts = update s.contexts a (record (s.contexts a) { channel = t }) })
  pushes-ConcurrentInv s i a {t} st by = on_channel F s i a s.phase st (λ b at_b.
      by_update (PhaseOk s.phase) s.contexts a (record (s.contexts a) { channel = t }) b
        (λ e. still s.phase (i.visit_ok a (at_b ∙ ap {B = Option ℕ} some e)))
        (λ e. i.visit_ok b at_b))
    where
      still :
          (p : Phase) → PhaseOk p (s.contexts a) → PhaseOk p (record (s.contexts a) { channel = t })
      still not_yet h = tt
      still found_event h = tt
      still found_nothing h = ByProducer-SeesNone st by h
      still done h = tt
      still dead h = (ByProducer-SeesNone st by h.0, h.1)

  ConcurrentStep-ConcurrentInv :
      {s t : Concurrent} → ConcurrentStep F s t → ConcurrentInv F s → ConcurrentInv F t
  ConcurrentStep-ConcurrentInv {s} (starts a context loaded capacity ne free small) i =
      starts-ConcurrentInv F s i a context loaded capacity ne free small
  ConcurrentStep-ConcurrentInv {s} (registers st new) i =
      on_list F s i st (λ e. kinds_differ F s i (sym new ∙ e))
        (λ a at_a. i.visit_ok a (ap node_of (sym (pc-registration st new)) ∙ at_a))
  ConcurrentStep-ConcurrentInv {s} (pushes a st by alive) i = pushes-ConcurrentInv s i a st by
  ConcurrentStep-ConcurrentInv {s} (ends a idle_now) i = ends-ConcurrentInv F s i a
  ConcurrentStep-ConcurrentInv {s} (walks st forth) i = record {
    listing = extend i.listing st;
    channels = i.channels;
    visit_ok = λ a at_a. tt;
    living = λ a alive.
        ListStep-IsNode st a (λ e r. absurd (walk_removal (sym forth ∙ r))) (i.living a alive);
  }
    where
      walk_removal : walk ≡ removal → ⊥
      walk_removal e = cc
  ConcurrentStep-ConcurrentInv {s} (looks node passed rest at_node early free split) i =
      on_channel F s i node
        (phase_of (after_reserve_read (s.contexts node).channel passed rest).consumer)
        (look passed rest free split)
        (λ b at_b.
          by_update
            (PhaseOk (phase_of (after_reserve_read (s.contexts node).channel passed rest).consumer))
            s.contexts node
            (record (s.contexts node) {
              channel = after_reserve_read (s.contexts node).channel passed rest;
            })
            b (λ e. looked (s.contexts node).channel passed rest (s.contexts node).is_alive)
            (λ e. absurd (e (some-injective (sym at_b ∙ at_node)))))
  ConcurrentStep-ConcurrentInv {s} (reads node j pos m at_node found busy loaded) i =
      on_channel F s i node done (receive j pos m busy loaded) (λ b at_b. tt)
  ConcurrentStep-ConcurrentInv {s} (finds_alive node at_node found alive) i = record {
    listing = i.listing;
    channels = i.channels;
    visit_ok = λ a at_a. tt;
    living = i.living;
  }
  ConcurrentStep-ConcurrentInv {s} (finds_dead node at_node found gone) i = record {
    listing = i.listing;
    channels = i.channels;
    visit_ok = λ a at_a.
        subst (λ (b : ℕ). PhaseOk dead (s.contexts b)) (some-injective (sym at_node ∙ at_a))
          (
            subst (λ (p : Phase). PhaseOk p (s.contexts node)) found (i.visit_ok node at_node),
            gone,
          );
    living = i.living;
  }
  ConcurrentStep-ConcurrentInv {s} (goes_on node next e over) i = record {
    listing = extend i.listing (keep node next e);
    channels = i.channels;
    visit_ok = λ a at_a. absurd (nowhere at_a);
    living = i.living;
  }
    where
      nowhere : {a : ℕ} → none ≡ some a → ⊥
      nowhere x = cc
  ConcurrentStep-ConcurrentInv {s} (removes st away now) i = record {
    listing = extend i.listing st;
    channels = i.channels;
    visit_ok = λ a at_a. i.visit_ok a (node_of-removal st a away at_a);
    living =
        λ a alive. ListStep-IsNode st a (λ e r. absurd (not_dead a e alive)) (i.living a alive);
  }
    where
      true_is_false : true ≡ false → ⊥
      true_is_false e = cc

      not_dead : (a : ℕ) → node_of s.list.pc ≡ some a → (s.contexts a).is_alive ≡ true → ⊥
      not_dead a e alive =
          let (_, gone) = subst (λ (p : Phase). PhaseOk p (s.contexts a)) now (i.visit_ok a e) in
          true_is_false (sym alive ∙ gone)

  pub ConcurrentReach-ConcurrentInv : {s : Concurrent} → ConcurrentReach F s → ConcurrentInv F s
  ConcurrentReach-ConcurrentInv nothing = record {
    listing = begin;
    channels = λ a. (0, omega arith, start);
    visit_ok = λ a e. tt;
    living = λ a alive. absurd (false_is_true alive);
  }
    where
      false_is_true : false ≡ true → ⊥
      false_is_true e = cc
  ConcurrentReach-ConcurrentInv (and_then r st) =
      ConcurrentStep-ConcurrentInv st (ConcurrentReach-ConcurrentInv r)

  -- In every interleaving, the messages read of each thread are the first of those that it committed, in
  -- order and byte for byte.
  pub each_in_order :
      {s : Concurrent}
      → ConcurrentReach F s
      → (a : ℕ)
      → (rest : List Bytes) × ((s.contexts a).channel.sent
          ≡ (s.contexts a).channel.received ++ rest)
  each_in_order r a =
      let (n, small, c) = (ConcurrentReach-ConcurrentInv r).channels a in
      received-IsPrefix F small c

  -- In every interleaving, the node of a thread that is alive is in memory: neither it nor its queue has
  -- been deleted.
  pub living_not_deleted :
      {s : Concurrent}
      → ConcurrentReach F s
      → (a : ℕ) → (s.contexts a).is_alive ≡ true
      → IsNode s.list.heap a
  living_not_deleted r a alive = (ConcurrentReach-ConcurrentInv r).living a alive

  -- In every interleaving, when the backend is going to remove a node or removes it: its thread is dead,
  -- and the messages that are lost with it are as many as the commits that the load of the backend's last
  -- look at the queue did not show; none if it showed them all.
  pub removal_loses_unseen :
      {s : Concurrent}
      → ConcurrentReach F s
      → (a : ℕ) → s.phase ≡ dead
      → node_of s.list.pc ≡ some a
      → ((s.contexts a).is_alive ≡ false)
        × ((lost : List Bytes) × ((s.contexts a).channel.sent
              ≡ (s.contexts a).channel.received ++ lost)
            × (length lost ≡ length (s.contexts a).channel.w_log))
  removal_loses_unseen {s} r a now here =
      let i : ConcurrentInv F s = ConcurrentReach-ConcurrentInv r in
      let (n, small, c) = i.channels a in
      let (sees, gone) = subst (λ (p : Phase). PhaseOk p (s.contexts a)) now (i.visit_ok a here) in
      (gone, unread_unseen F small c sees)
