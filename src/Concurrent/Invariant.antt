-- ===== src/Concurrent/Invariant.antt =====
-- What holds in every interleaving of the threads and the backend of include/papper/detail/core.h.
use papper.Common.{
  ℕ, ◌^◌, ◌≤◌, ◌≡◌, refl, sym, ap, ◌∙◌, subst, ◌≢◌, true, false, Option, none, some, ◌∷◌, ==_iff,
}
use papper.Queue.Spsc.{Framing, System, Step, init, Reach, start, later}
use papper.Queue.Spsc.Unseen.{SeesNone}
use papper.ThreadList.{ListNode, write, ListState, ListStep, allocate, ListReach, extend}
use papper.ThreadList.Safety.{IsNode, no_dangling}
use papper.Concurrent.{
  SharedContext, Phase, not_yet, found_event, found_nothing, done, dead, Concurrent, update,
  node_of, registration, removal, kind,
}
use papper.Concurrent.ListFacts.{by_update, node_of-IsNode, IsNode-write, ListStep-IsNode}

-- What is known of the context of a visit.
abbrev pub PhaseOk : Phase → SharedContext → Type 0
PhaseOk not_yet c = Unit {0}
PhaseOk found_event c = Unit {0}
PhaseOk found_nothing c = SeesNone c.channel
PhaseOk done c = Unit {0}
PhaseOk dead c = SeesNone c.channel × (c.is_alive ≡ false)

pub record ConcurrentInv (F : Framing) (s : Concurrent) : Type 0 where
  pub listing : ListReach s.list
  pub channels : (a : ℕ) → (n : ℕ) × (n ≤ 2 ^ 62) × Reach F n (s.contexts a).channel
  pub visit_ok : (a : ℕ) → node_of s.list.pc ≡ some a → PhaseOk s.phase (s.contexts a)
  pub living : (a : ℕ) → (s.contexts a).is_alive ≡ true → IsNode s.list.heap a

module _ (F : Framing) (s : Concurrent) (i : ConcurrentInv F s) where
  true_ne_false : true ≡ false → ⊥
  true_ne_false e = cc

  pub kinds_differ : registration ≡ removal → ⊥
  kinds_differ e = cc

  -- A step of the list that leaves the node of a visit and the contexts.
  pub on_list :
      {l : ListState} (st : ListStep s.list l)
      → (kind st ≡ removal → ⊥)
      → ((a : ℕ) → node_of l.pc ≡ some a → PhaseOk s.phase (s.contexts a))
      → ConcurrentInv F (record s { list = l })
  on_list st stays ok = record {
    listing = extend i.listing st;
    channels = i.channels;
    visit_ok = ok;
    living = λ a alive. ListStep-IsNode st a (λ e. stays) (i.living a alive);
  }

  -- The channel of a context takes a step.
  pub on_channel :
      (a : ℕ) {t : System} (p : Phase)
      → Step F (s.contexts a).channel t
      → ((b : ℕ)
          → node_of s.list.pc ≡ some b
          → PhaseOk p (update s.contexts a (record (s.contexts a) { channel = t }) b))
      → ConcurrentInv F (record s {
        contexts = update s.contexts a (record (s.contexts a) { channel = t });
        phase = p;
      })
  on_channel a {t} p st ok = record {
    listing = i.listing;
    channels = λ b.
        by_update (λ (c : SharedContext). (n : ℕ) × (n ≤ 2 ^ 62) × Reach F n c.channel) s.contexts a
          (record (s.contexts a) { channel = t }) b
          (λ e. let (n, small, r) = i.channels a in (n, small, later r st)) (λ e. i.channels b);
    visit_ok = ok;
    living = λ b.
        by_update (λ (c : SharedContext). c.is_alive ≡ true → IsNode s.list.heap b) s.contexts a
          (record (s.contexts a) { channel = t }) b
          (λ e alive. subst (IsNode s.list.heap) (sym e) (i.living a alive)) (λ e. i.living b);
  }

  -- A node that is looked up is not one that is free.
  pub visited-IsNode : (a : ℕ) → node_of s.list.pc ≡ some a → IsNode s.list.heap a
  visited-IsNode a e = node_of-IsNode s.list.heap s.list.pc a (no_dangling i.listing) e

  pub starts-ConcurrentInv :
      (a context loaded capacity : ℕ)
      → a ≢ 0
      → s.list.heap a ≡ none
      → capacity ≤ 2 ^ 62
      → ConcurrentInv F (record s {
        list = record s.list {
          heap = write s.list.heap a (some (record { context = context; next = loaded }));
          registering = a ∷ s.list.registering;
        };
        contexts = update s.contexts a (record { channel = init F capacity; is_alive = true });
      })
  starts-ConcurrentInv a context loaded capacity ne free small = record {
    listing = extend i.listing (allocate a context loaded ne free);
    channels = λ b.
        by_update (λ (c : SharedContext). (n : ℕ) × (n ≤ 2 ^ 62) × Reach F n c.channel) s.contexts a
          (record { channel = init F capacity; is_alive = true }) b (λ e. (capacity, small, start))
          (λ e. i.channels b);
    visit_ok = λ b at_b.
        by_update (PhaseOk s.phase) s.contexts a
          (record { channel = init F capacity; is_alive = true }) b
          (λ e. absurd (not_free b e (visited-IsNode b at_b))) (λ e. i.visit_ok b at_b);
    living = λ b.
        by_update
          (λ (c : SharedContext). c.is_alive ≡ true → IsNode (write s.list.heap a (some n)) b)
          s.contexts a (record { channel = init F capacity; is_alive = true }) b
          (λ e alive. (n, rw ((==_iff b a).1 e) refl))
          (λ e alive. IsNode-write s.list.heap a n b (i.living b alive));
  }
    where
      n : ListNode
      n = record { context = context; next = loaded }

      not_free : (b : ℕ) → b ≡ a → IsNode s.list.heap b → ⊥
      not_free b e (m, holds) = taken (sym holds ∙ ap s.list.heap e ∙ free)
        where
          taken : some m ≡ none → ⊥
          taken x = cc

  pub ends-ConcurrentInv :
      (a : ℕ)
      → ConcurrentInv F
          (record s { contexts = update s.contexts a (record (s.contexts a) { is_alive = false }) })
  ends-ConcurrentInv a = record {
    listing = i.listing;
    channels = λ b.
        by_update (λ (c : SharedContext). (n : ℕ) × (n ≤ 2 ^ 62) × Reach F n c.channel) s.contexts a
          (record (s.contexts a) { is_alive = false }) b (λ e. i.channels a) (λ e. i.channels b);
    visit_ok = λ b at_b.
        by_update (PhaseOk s.phase) s.contexts a (record (s.contexts a) { is_alive = false }) b
          (λ e. still s.phase (i.visit_ok a (at_b ∙ ap {B = Option ℕ} some e)))
          (λ e. i.visit_ok b at_b);
    living = λ b.
        by_update (λ (c : SharedContext). c.is_alive ≡ true → IsNode s.list.heap b) s.contexts a
          (record (s.contexts a) { is_alive = false }) b
          (λ e alive. absurd (true_ne_false (sym alive))) (λ e. i.living b);
  }
    where
      still :
          (p : Phase)
          → PhaseOk p (s.contexts a)
          → PhaseOk p (record (s.contexts a) { is_alive = false })
      still not_yet h = tt
      still found_event h = tt
      still found_nothing h = h
      still done h = tt
      still dead h = (h.0, refl)
