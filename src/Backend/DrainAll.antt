-- ===== src/Backend/DrainAll.antt =====
-- How the backend thread ends (include/papper/detail/core.h) when several threads have events left.
use papper.Common.{ℕ, zero, suc, ◌≡◌, refl, ap, ◌∙◌, some, List, [], ◌∷◌, ◌++◌, arith}
use papper.Common.Int.{ℤ}
use papper.Codec.{Value}
use papper.Text.{Text}
use papper.Level.{LogLevel}
use papper.Pattern.{PatternData}
use papper.Event.{CallSiteStaticData}
use papper.Backend.{Node, drain_loop}
use papper.Backend.Visit.{lines_of}
use papper.Backend.Represents.{Represents}
use papper.Backend.Rounds.{
  Thread, survivors, Taken, taken, events_of, from, DistinctThreads, DistinctThreads-survivors,
  rounds, events_at, Shorter, AllDead,
}
use papper.Backend.Poll.{poll_threads_lem}
use papper.Backend.Order.{Shorter-survivors, AllDead-survivors, from-rounds}

-- What is taken in each of `k` rounds.
abbrev taken_by_round : ℕ → List Thread → List (List Taken)
taken_by_round zero ts = []
taken_by_round (suc k) ts = taken ts ∷ taken_by_round k (survivors ts)

abbrev pub all_taken : List (List Taken) → List Taken
all_taken [] = []
all_taken (xs ∷ xss) = xs ++ all_taken xss

all_taken-taken_by_round :
    (k : ℕ) (ts : List Thread) → all_taken (taken_by_round k ts) ≡ rounds k ts
all_taken-taken_by_round zero ts = refl
all_taken-taken_by_round (suc k) ts =
    ap (λ (l : List Taken). taken ts ++ l) (all_taken-taken_by_round k (survivors ts))

module _ (sites : ℕ → CallSiteStaticData) (name_at : ℕ → Text)
    (message_of : Text → List Value → Text) (local_time_at : ℕ → ℕ → ℤ)
    (format_line : PatternData → Text) (min_log_level : LogLevel) where
  -- The lines of a schedule, from the n-th round on.
  abbrev pub scheduled_lines : ℕ → List (List Taken) → List Text
  scheduled_lines n [] = []
  scheduled_lines n (xs ∷ xss) =
      lines_of sites name_at message_of (local_time_at n) format_line min_log_level (events_of xs)
      ++ scheduled_lines (suc n) xss

  nothing_scheduled : (k n : ℕ) → scheduled_lines n (taken_by_round k []) ≡ []
  nothing_scheduled zero n = refl
  nothing_scheduled (suc k) n = nothing_scheduled k (suc n)

  drain_rounds :
      (k n : ℕ) (ns : List Node) (ts : List Thread)
      → Represents sites ns ts
      → DistinctThreads ts
      → AllDead ts
      → Shorter k ts
      → drain_loop sites name_at message_of local_time_at format_line (suc k) n min_log_level ns
        ≡ some (scheduled_lines n (taken_by_round k ts))
  unfolding drain_loop
  drain_rounds k n [] [] r d dead short = rw (nothing_scheduled k n)
  drain_rounds k n [] (t ∷ ts) r d dead short = absurd r
  drain_rounds k n (m ∷ ns) [] r d dead short = absurd r
  drain_rounds zero n (m ∷ ns) (t ∷ ts) r d dead short = absurd (omega arith)
  drain_rounds (suc k) n (m ∷ ns) (t ∷ ts) r d dead short =
      let (after, left, at) =
        poll_threads_lem sites name_at message_of (local_time_at n) format_line min_log_level
          (m ∷ ns) (t ∷ ts) r d in
      rw at (
        rw
          (drain_rounds k (suc n) after (survivors (t ∷ ts)) left
            (DistinctThreads-survivors (t ∷ ts) d) (AllDead-survivors (t ∷ ts) dead)
            (Shorter-survivors k (t ∷ ts) short dead))
          refl)

  -- If all threads that are left are dead, their nodes having different addresses, and each holds
  -- fewer than `k` events: the last loop of the backend ends after at most `k` rounds, and writes the
  -- lines of a schedule of events, each with the clock as it is in its round. From each address the
  -- schedule has the events of that thread, in the order in which they were logged, and no others.
  pub drain_threads_lem :
      (k n : ℕ) (ns : List Node) (ts : List Thread)
      → Represents sites ns ts
      → DistinctThreads ts
      → AllDead ts
      → Shorter k ts
      → (schedule : List (List Taken)) × (drain_loop sites name_at message_of local_time_at
            format_line
            (suc k)
            n
            min_log_level
            ns
          ≡ some (scheduled_lines n schedule))
        × ((a : ℕ) → from a (all_taken schedule) ≡ events_at a ts)
  drain_threads_lem k n ns ts r d dead short = (
    taken_by_round k ts,
    drain_rounds k n ns ts r d dead short,
    λ a. ap (from a) (all_taken-taken_by_round k ts) ∙ from-rounds k ts a d dead short,
  )
