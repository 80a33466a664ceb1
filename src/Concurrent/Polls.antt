-- ===== src/Concurrent/Polls.antt =====
-- A poll of the backend of include/papper/detail/core.h ends, whatever its threads do meanwhile.
use papper.Common.{ℕ, zero, suc, ◌<◌, inl, inr, arith}
use papper.Queue.Spsc.{Framing}
use papper.ThreadList.Distance.{remaining, distance}
use papper.Concurrent.{Concurrent, ConcurrentStep, ConcurrentReach, and_then}
use papper.Concurrent.Progress.{ByBackend}
use mathlib.Core.WellFounded.{Acc}
use papper.Concurrent.Work.{InPoll, stage, Nearer, SameWork-Nearer, thread-SameWork, backend-Nearer}

-- The threads take any number of steps, and then the backend takes one.
pub data Turn (F : Framing) : Concurrent → Concurrent → Type 0 where
  in_poll : {s t : Concurrent} (st : ConcurrentStep F s t) → InPoll st → Turn F s t
  by_thread :
      {s t u : Concurrent} (st : ConcurrentStep F s t)
      → (ByBackend st → ⊥)
      → Turn F t u
      → Turn F s u

module _ (F : Framing) where
  turn-Nearer :
      {s t : Concurrent} → Turn F s t → ConcurrentReach F s → ConcurrentReach F t × Nearer t s
  turn-Nearer (in_poll st h) r = (and_then r st, backend-Nearer st r h)
  turn-Nearer {s} {t = u} (by_thread {t = t} st h more) r =
      let (r', n) = turn-Nearer more (and_then r st) in
      (r', SameWork-Nearer s t u (thread-SameWork st r h) n)

  -- By induction on bounds of what is left to do.
  bounded :
      (n k d : ℕ) {s : Concurrent}
      → ConcurrentReach F s
      → remaining s.list < n
      → stage s.list.pc s.phase < k
      → distance s.list < d
      → Acc (λ (t u : Concurrent). Turn F u t) s
  bounded zero k d r p q e = absurd (omega (arith, p))
  bounded (suc n) zero d r p q e = absurd (omega (arith, q))
  bounded (suc n) (suc k) zero r p q e = absurd (omega (arith, e))
  bounded (suc n) (suc k) (suc d) {s} r p q e = Acc.intro s (λ t turn.
      let (r', near) = turn-Nearer turn r in
      elim near [
        | inl x ↦
            bounded n (suc (stage t.list.pc t.phase)) (suc (distance t.list)) r'
              (omega (arith, p, x)) (omega arith) (omega arith)
        | inr (same, inl x) ↦
            bounded (suc n) k (suc (distance t.list)) r' (omega (arith, p, same))
              (omega (arith, q, x)) (omega arith)
        | inr (same, inr (still, x)) ↦
            bounded (suc n) (suc k) d r' (omega (arith, p, same)) (omega (arith, q, still))
              (omega (arith, e, x))
      ])

  -- In every interleaving, from any reachable state on, the backend takes only finitely many steps until
  -- it begins another poll, whatever the threads do between its steps.
  pub polls_end : {s : Concurrent} → ConcurrentReach F s → Acc (λ (t u : Concurrent). Turn F u t) s
  polls_end {s} r =
      bounded (suc (remaining s.list)) (suc (stage s.list.pc s.phase)) (suc (distance s.list)) r
        (omega arith) (omega arith) (omega arith)
