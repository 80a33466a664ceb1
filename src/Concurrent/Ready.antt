-- ===== src/Concurrent/Ready.antt =====
-- Where the backend of include/papper/detail/core.h holds a pointer into a queue.
use papper.Common.{ℕ, ◌≡◌, refl, sym, ap, ◌∙◌, subst, Option, none, some, List}
use papper.Memory.{Bytes}
use papper.Queue.Spsc.{
  Framing, Consumer, waiting, reading, System, Step, after_reserve_read, reserve, write, commit,
  look, receive,
}
use papper.Queue.Spsc.Unseen.{ByProducer}
use papper.ThreadList.{Heap, ListState, Pc}
use papper.ThreadList.Safety.{IsNode}
use papper.Concurrent.{
  SharedContext, Phase, not_yet, found_event, done, dead, Concurrent, update, node_of, phase_of,
  after_look, after_read, ConcurrentStep, starts, registers, pushes, ends, walks, looks, reads,
  finds_alive, finds_dead, goes_on, removes, ConcurrentReach, nothing, and_then,
}
use papper.Concurrent.ListFacts.{by_update, some-injective, pc-registration}
use papper.Concurrent.Guarantees.{ConcurrentReach-ConcurrentInv}
use papper.Concurrent.Invariant.{ConcurrentInv, visited-IsNode}
use papper.Concurrent.Places.{PcPhase, node_of-walk, PcPhase-walk, PcPhase-dead, outside_dead}

abbrev IsBusy : Pc → Phase → ℕ → Type 0
IsBusy pc p a = (node_of pc ≡ some a) × (p ≡ found_event)

-- The backend has a pointer into the queue of the node where it has found an event, and no other.
pub record Ready (s : Concurrent) : Type 0 where
  pub place : PcPhase s.list.pc s.phase
  pub free : (a : ℕ) → (IsBusy s.list.pc s.phase a → ⊥) → (s.contexts a).channel.consumer ≡ waiting
  pub busy :
      (a : ℕ)
      → IsBusy s.list.pc s.phase a
      → (i : ℕ) × (pos : ℕ) × ((s.contexts a).channel.consumer ≡ reading i pos)

abbrev AllWaiting : (ℕ → SharedContext) → Type 0
AllWaiting f = (a : ℕ) → (f a).channel.consumer ≡ waiting

ByProducer-consumer :
    {F : Framing} {s t : System} (st : Step F s t) → ByProducer st → t.consumer ≡ s.consumer
ByProducer-consumer (reserve size passed rest free split) by = refl
ByProducer-consumer (write j pos size written bs holds fits) by = refl
ByProducer-consumer (commit j pos size m holds full ok) by = refl
ByProducer-consumer (look passed rest free split) by = absurd by
ByProducer-consumer (receive j pos m holds loaded) by = absurd by

done_ne : done ≡ found_event → ⊥
done_ne e = cc

dead_ne : dead ≡ found_event → ⊥
dead_ne e = cc

early_ne : not_yet ≡ found_event → ⊥
early_ne e = cc

none_ne_some : {a : ℕ} → none ≡ some a → ⊥
none_ne_some e = cc

-- No one holds a pointer.
quiet :
    (s : Concurrent)
    → PcPhase s.list.pc s.phase
    → ((a : ℕ) → IsBusy s.list.pc s.phase a → ⊥)
    → AllWaiting s.contexts
    → Ready s
quiet s place idle_now all = record {
  place = place;
  free = λ a not_busy. all a;
  busy = λ a b. absurd (idle_now a b);
}

-- The context of one node changes, but not what the backend holds there.
change :
    (s : Concurrent) (l : ListState) (a : ℕ) (c : SharedContext)
    → Ready s
    → l.pc ≡ s.list.pc
    → c.channel.consumer ≡ (s.contexts a).channel.consumer
    → Ready (record s { list = l; contexts = update s.contexts a c })
change s l a c r same e = record {
  place = subst (λ (pc : Pc). PcPhase pc s.phase) (sym same) r.place;
  free = λ b not_busy. consumer_at b ∙ r.free b (λ h. not_busy (ap node_of same ∙ h.0, h.1));
  busy = λ b h.
      let (i, pos, holds) = r.busy b (sym (ap node_of same) ∙ h.0, h.1) in
      (i, pos, consumer_at b ∙ holds);
}
  where
    consumer_at :
        (b : ℕ) → (update s.contexts a c b).channel.consumer ≡ (s.contexts b).channel.consumer
    consumer_at b =
        by_update (λ (d : SharedContext). d.channel.consumer ≡ (s.contexts b).channel.consumer)
          s.contexts a c b
          (λ same_node. e ∙ ap (λ (x : ℕ). (s.contexts x).channel.consumer) (sym same_node))
          (λ other. refl)

phase-begin_read :
    (c : Consumer)
    → (phase_of c ≡ found_event → (i : ℕ) × (pos : ℕ) × (c ≡ reading i pos))
      × ((phase_of c ≡ found_event → ⊥) → c ≡ waiting)
phase-begin_read waiting = (λ e. cc, λ h. refl)
phase-begin_read (reading i pos) = (λ e. (i, pos, refl), λ h. absurd (h refl))

free_ne_node : (h : Heap) (a : ℕ) → h a ≡ none → IsNode h a → ⊥
free_ne_node h a empty (n, holds) = taken (sym holds ∙ empty)
  where
    taken : some n ≡ none → ⊥
    taken x = cc

module _ (F : Framing) (s : Concurrent) (i : ConcurrentInv F s) (r : Ready s) where
  -- In another phase than this one the backend holds nothing.
  all_waiting : (s.phase ≡ found_event → ⊥) → AllWaiting s.contexts
  all_waiting other a = r.free a (λ b. other b.1)

  looks-Ready :
      (node : ℕ) (passed rest : List ℕ)
      → node_of s.list.pc ≡ some node
      → s.phase ≡ not_yet
      → Ready (after_look s node passed rest)
  looks-Ready node passed rest here early = record {
    place = outside_dead s.phase (phase_of found) s.list.pc (λ (e : s.phase ≡ dead). cc) r.place;
    free = λ b not_busy.
        by_update (λ (d : SharedContext). d.channel.consumer ≡ waiting) s.contexts node _ b
          (λ same.
            (phase-begin_read found).1
              (λ e. not_busy (here ∙ ap {B = Option ℕ} some (sym same), e)))
          (λ other. before b);
    busy = λ b h.
        by_update
          (λ (d : SharedContext). (j : ℕ) × (pos : ℕ) × (d.channel.consumer ≡ reading j pos))
          s.contexts node _ b (λ same. (phase-begin_read found).0 h.1)
          (λ other. absurd (other (some-injective (sym h.0 ∙ here))));
  }
    where
      found : Consumer
      found = (after_reserve_read (s.contexts node).channel passed rest).consumer

      before : AllWaiting s.contexts
      before = all_waiting (λ e. cc)

  reads-Ready :
      (node position : ℕ) (m : Bytes)
      → node_of s.list.pc ≡ some node
      → s.phase ≡ found_event
      → Ready (after_read s node position m)
  reads-Ready node position m here found =
      quiet (after_read s node position m)
        (outside_dead s.phase done s.list.pc (λ (e : s.phase ≡ dead). cc) r.place)
        (λ a b. absurd (done_ne b.1))
        (λ b.
          by_update (λ (d : SharedContext). d.channel.consumer ≡ waiting) s.contexts node _ b
            (λ same. refl) (λ other. r.free b (λ h. other (some-injective (sym h.0 ∙ here)))))

  ConcurrentStep-Ready : {t : Concurrent} → ConcurrentStep F s t → Ready t
  ConcurrentStep-Ready (starts a context loaded capacity ne empty small) =
      change s _ a _ r refl
        (sym (r.free a (λ b. free_ne_node s.list.heap a empty (visited-IsNode F s i a b.0))))
  ConcurrentStep-Ready (registers st new) = record {
    place = subst (λ (pc : Pc). PcPhase pc s.phase) (sym (pc-registration st new)) r.place;
    free = λ a not_busy. r.free a (λ b. not_busy (ap node_of (pc-registration st new) ∙ b.0, b.1));
    busy = λ a b. r.busy a (sym (ap node_of (pc-registration st new)) ∙ b.0, b.1);
  }
  ConcurrentStep-Ready (pushes a st by alive) =
      change s s.list a _ r refl (ByProducer-consumer st by)
  ConcurrentStep-Ready (ends a idle_now) = change s s.list a _ r refl refl
  ConcurrentStep-Ready (walks st forth) =
      quiet _ (PcPhase-walk st forth) (λ a b. absurd (early_ne b.1))
        (λ a. r.free a (λ b. none_ne_some (sym (node_of-walk st forth) ∙ b.0)))
  ConcurrentStep-Ready (looks node passed rest here early free split) =
      looks-Ready node passed rest here early
  ConcurrentStep-Ready (reads node j pos m here found busy loaded) = reads-Ready node _ m here found
  ConcurrentStep-Ready (finds_alive node here found alive) =
      quiet _ (outside_dead s.phase done s.list.pc (λ (e : s.phase ≡ dead). cc) r.place)
        (λ a b. absurd (done_ne b.1)) (all_waiting (λ e. cc))
  ConcurrentStep-Ready (finds_dead node here found gone) =
      quiet _ (PcPhase-dead s.list.pc) (λ a b. absurd (dead_ne b.1)) (all_waiting (λ e. cc))
  ConcurrentStep-Ready (goes_on node next e over) =
      quiet _ tt (λ a b. none_ne_some b.0) (all_waiting (λ e. cc))
  ConcurrentStep-Ready (removes {l} st away now) =
      quiet _ (subst (PcPhase l.pc) (sym now) (PcPhase-dead l.pc)) (λ a b. cc)
        (all_waiting (λ e. cc))

pub ConcurrentReach-Ready : {F : Framing} {s : Concurrent} → ConcurrentReach F s → Ready s
ConcurrentReach-Ready nothing = record {
  place = tt;
  free = λ a b. refl;
  busy = λ a b. absurd (none_ne_some b.0);
}
ConcurrentReach-Ready {F} (and_then {s = s} r st) =
    ConcurrentStep-Ready F s (ConcurrentReach-ConcurrentInv F r) (ConcurrentReach-Ready r) st
