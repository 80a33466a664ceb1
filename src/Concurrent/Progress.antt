-- ===== src/Concurrent/Progress.antt =====
-- The backend of include/papper/detail/core.h always has a next step, whatever its threads do.
use papper.Common.{ℕ, ◌≡◌, refl, sym, ap, ◌∙◌, subst, inl, inr, [], arith, ◌==◌, ==_iff, Bool-cases}
use papper.Queue.Spsc.{Framing}
use papper.Queue.Spsc.Fifo.{read-next}
use papper.ThreadList.{
  Pc, resting, at, visiting, searching, poll_begins, poll_ends, load_next, remove_head, not_head,
  advance, unlink_node,
}
use papper.ThreadList.Safety.{ReadsNodes, no_dangling}
use papper.Concurrent.{
  Phase, not_yet, found_event, found_nothing, done, dead, Concurrent, node_of, ConcurrentStep,
  starts, registers, pushes, ends, walks, looks, reads, finds_alive, finds_dead, goes_on, removes,
  ConcurrentReach,
}
use papper.Concurrent.Invariant.{ConcurrentInv}
use papper.Concurrent.Guarantees.{ConcurrentReach-ConcurrentInv}
use papper.Concurrent.Places.{PcPhase}
use papper.Concurrent.Ready.{Ready, ConcurrentReach-Ready}

-- The steps of the backend.
abbrev pub ByBackend : {F : Framing} {s t : Concurrent} → ConcurrentStep F s t → Type 0
ByBackend (starts a context loaded capacity ne free small) = ⊥
ByBackend (registers st new) = ⊥
ByBackend (pushes a st by alive) = ⊥
ByBackend (ends a idle_now) = ⊥
ByBackend (walks st forth) = Unit {0}
ByBackend (looks node passed rest here early free split) = Unit {0}
ByBackend (reads node j pos m here found busy loaded) = Unit {0}
ByBackend (finds_alive node here found alive) = Unit {0}
ByBackend (finds_dead node here found gone) = Unit {0}
ByBackend (goes_on node next e over) = Unit {0}
ByBackend (removes st away now) = Unit {0}

module _ (F : Framing) where
  abbrev CanGoOn : Concurrent → Type 0
  CanGoOn s = (t : Concurrent) × (st : ConcurrentStep F s t) × ByBackend st

  module _ (s : Concurrent) (i : ConcurrentInv F s) (r : Ready s) where
    nodes : ReadsNodes s.list.heap s.list.pc
    nodes = no_dangling i.listing

    goes-at : (node : ℕ) → s.list.pc ≡ at node → CanGoOn s
    goes-at node e = elim (Bool-cases (node == 0)) [
      | inl zero_now ↦ (_, walks (poll_ends (e ∙ ap at ((==_iff node 0).0 zero_now))) refl, tt)
      | inr other ↦ elim (subst (ReadsNodes s.list.heap) e nodes) [
        | inl zero_now ↦ (_, walks (poll_ends (e ∙ ap at zero_now)) refl, tt)
        | inr h ↦ (_, walks (load_next node h.0 e (ground arith) h.1) refl, tt)
      ]
    ]

    goes-removal : (node next : ℕ) → s.list.pc ≡ visiting node next → s.phase ≡ dead → CanGoOn s
    goes-removal node next e now = elim (Bool-cases (s.list.head == node)) [
      | inl same ↦
          let (n, holds) = subst (ReadsNodes s.list.heap) e nodes in
          (
            _,
            removes (remove_head node next n e ((==_iff s.list.head node).0 same) holds) refl now,
            tt,
          )
      | inr other ↦ (_, removes (not_head node next e (ground arith)) refl now, tt)
    ]

    early_ne : not_yet ≡ found_event → ⊥
    early_ne e = cc

    goes-visit :
        (p : Phase) (node next : ℕ) → s.list.pc ≡ visiting node next → s.phase ≡ p → CanGoOn s
    goes-visit not_yet node next e now = (
      _,
      looks node [] (s.contexts node).channel.w_log (ap node_of e) now
          (r.free node (λ b. early_ne (sym now ∙ b.1))) refl,
      tt,
    )
    goes-visit found_event node next e now =
        let (j, pos, holds) = r.busy node (ap node_of e, now) in
        let (n, small, c) = i.channels node in
        let (m, _, loaded, _) = read-next F j pos small c holds in
        (_, reads node j pos m (ap node_of e) now holds loaded, tt)
    goes-visit found_nothing node next e now = elim (Bool-cases (s.contexts node).is_alive) [
      | inl alive ↦ (_, finds_alive node (ap node_of e) now alive, tt)
      | inr gone ↦ (_, finds_dead node (ap node_of e) now gone, tt)
    ]
    goes-visit done node next e now = (_, goes_on node next e now, tt)
    goes-visit dead node next e now = goes-removal node next e now

    goes-search :
        (node next previous current : ℕ)
        → s.list.pc ≡ searching node next previous current
        → CanGoOn s
    goes-search node next previous current e =
        let (nz, (n, at_node), (c, at_current), back) = subst (ReadsNodes s.list.heap) e nodes in
        let now : s.phase ≡ dead = subst (λ (pc : Pc). PcPhase pc s.phase) e r.place in
        elim (Bool-cases (current == node)) [
          | inl same ↦
              let (p, at_previous) = back ((==_iff current node).0 same) in
              (
                _,
                removes
                    (unlink_node node next previous p n
                      (e ∙ ap (searching node next previous) ((==_iff current node).0 same))
                      at_previous at_node)
                    refl now,
                tt,
              )
          | inr other ↦ (
            _,
            removes (advance node next previous current c e nz (ground arith) at_current) refl now,
            tt,
          )
        ]

    goes : (pc : Pc) → s.list.pc ≡ pc → CanGoOn s
    goes resting e = (_, walks (poll_begins e) refl, tt)
    goes (at node) e = goes-at node e
    goes (visiting node next) e = goes-visit s.phase node next e refl
    goes (searching node next previous current) e = goes-search node next previous current e

  -- In every interleaving, the backend has a next step, whatever the threads have done.
  pub backend_goes_on :
      {s : Concurrent}
      → ConcurrentReach F s
      → (t : Concurrent) × (st : ConcurrentStep F s t) × ByBackend st
  backend_goes_on {s} r =
      goes s (ConcurrentReach-ConcurrentInv F r) (ConcurrentReach-Ready r) s.list.pc refl
