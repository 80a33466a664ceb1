-- ===== src/Program/Complete.antt =====
-- At its end the backend thread of include/papper/detail/core.h has written every event that a queue
-- accepted.
use papper.Common.{
  ℕ, suc, ◌+◌, ◌≤◌, ◌<◌, ◌≡◌, refl, sym, ap, ap₂, ◌∙◌, false, some, List, [], ◌∷◌, ◌++◌, arith,
  length,
}
use papper.Common.Int.{ℤ}
use papper.Text.{Text}
use papper.Level.{LogLevel}
use papper.Codec.{Value}
use papper.Pattern.{PatternData}
use papper.Event.{CallSiteStaticData}
use papper.Backend.{Node, drain_loop}
use papper.Backend.Visit.{LogEvent, lines_of}
use papper.Backend.Rounds.{Thread, Taken, events_of, from, Shorter, AllDead}
use papper.Backend.Represents.{Represents}
use papper.Backend.Order.{from-append}
use papper.Backend.DrainAll.{all_taken, scheduled_lines, drain_threads_lem}
use papper.Program.{Program, Run}
use papper.Program.Batches.{Batch, taken_in, taken_in-append, written_by, written_by-append}
use papper.Program.Accounts.{Run-Accounted}

-- All threads have ended.
abbrev pub AllEnded : List Node → Type 0
AllEnded [] = Unit {0}
AllEnded (n ∷ ns) = (n.context.is_alive ≡ false) × AllEnded ns

AllEnded-AllDead :
    (sites : ℕ → CallSiteStaticData) (ns : List Node) (ts : List Thread)
    → Represents sites ns ts
    → AllEnded ns
    → AllDead ts
AllEnded-AllDead sites [] [] r h = tt
AllEnded-AllDead sites [] (t ∷ ts) r h = absurd r
AllEnded-AllDead sites (n ∷ ns) [] r h = absurd r
AllEnded-AllDead sites (n ∷ ns) (t ∷ ts) r h = (sym r.1 ∙ h.0, AllEnded-AllDead sites ns ts r.3 h.1)

-- More than the events of any thread.
abbrev enough : List Thread → ℕ
enough [] = 1
enough (t ∷ ts) = length t.events + enough ts

enough-positive : (ts : List Thread) → 0 < enough ts
enough-positive [] = omega arith
enough-positive (t ∷ ts) = omega (arith, enough-positive ts)

Shorter-mono : (k k' : ℕ) (ts : List Thread) → k ≤ k' → Shorter k ts → Shorter k' ts
Shorter-mono k k' [] h s = tt
Shorter-mono k k' (t ∷ ts) h s = (omega arith, Shorter-mono k k' ts h s.1)

enough-Shorter : (ts : List Thread) → Shorter (enough ts) ts
enough-Shorter [] = tt
enough-Shorter (t ∷ ts) = (
  omega (arith, enough-positive ts),
  Shorter-mono (enough ts) (length t.events + enough ts) ts (omega arith) (enough-Shorter ts),
)

module _ (to_string : ℕ → Text) (sites : ℕ → CallSiteStaticData) (name_at : ℕ → Text)
    (message_of : Text → List Value → Text) (local_time_at : ℕ → ℕ → ℤ)
    (format_line : PatternData → Text) (min_log_level : LogLevel) where
  -- The rounds of the last loop as polls.
  abbrev last_batches : ℕ → List (List Taken) → List Batch
  last_batches n [] = []
  last_batches n (xs ∷ xss) =
      record {
        local_time = local_time_at n;
        format_line = format_line;
        min_log_level = min_log_level;
        events = xs;
      }
      ∷ last_batches (suc n) xss

  abbrev lines_by : List Batch → List Text
  lines_by = written_by sites name_at message_of

  lines_by-last_batches :
      (n : ℕ) (xss : List (List Taken))
      → lines_by (last_batches n xss)
        ≡ scheduled_lines sites name_at message_of local_time_at format_line min_log_level n xss
  lines_by-last_batches n [] = refl
  lines_by-last_batches n (xs ∷ xss) =
      ap
        (λ (l : List Text).
          lines_of sites name_at message_of (local_time_at n) format_line min_log_level
            (events_of xs)
          ++ l)
        (lines_by-last_batches (suc n) xss)

  taken_in-last_batches :
      (n : ℕ) (xss : List (List Taken)) → taken_in (last_batches n xss) ≡ all_taken xss
  taken_in-last_batches n [] = refl
  taken_in-last_batches n (xs ∷ xss) =
      ap (λ (l : List Taken). xs ++ l) (taken_in-last_batches (suc n) xss)

  -- If all threads have ended, behind any run of such steps: the last loop of the backend ends. All lines
  -- written by then are those of a sequence of polls, which took, of each thread, the events that its
  -- queue accepted, each once, in their order, and no others.
  pub all_written :
      {p : Program}
      → Run to_string sites name_at message_of p
      → AllEnded p.threads.nodes
      → (fuel : ℕ) × (lines : List Text) × (batches : List Batch) × (drain_loop sites name_at
            message_of local_time_at format_line fuel 0 min_log_level p.threads.nodes
          ≡ some lines)
        × (p.written ++ lines ≡ written_by sites name_at message_of batches)
        × ((a : ℕ) → from a (taken_in batches) ≡ from a p.logged)
  all_written {p} run ended =
      let acc = Run-Accounted to_string sites name_at message_of run in
      let (schedule, at, taken_all) =
        drain_threads_lem sites name_at message_of local_time_at format_line min_log_level
          (enough acc.threads) 0 p.threads.nodes acc.threads acc.represents acc.distinct
          (AllEnded-AllDead sites p.threads.nodes acc.threads acc.represents ended)
          (enough-Shorter acc.threads) in
      (
        suc (enough acc.threads),
        scheduled_lines sites name_at message_of local_time_at format_line min_log_level 0 schedule,
        acc.batches ++ last_batches 0 schedule,
        at,
        ap₂ ◌++◌ acc.lines (sym (lines_by-last_batches 0 schedule))
            ∙ sym
                (written_by-append sites name_at message_of acc.batches (last_batches 0 schedule)),
        λ a.
            ap (from a) (
              taken_in-append acc.batches (last_batches 0 schedule)
              ∙ ap (λ (l : List Taken). taken_in acc.batches ++ l)
                  (taken_in-last_batches 0 schedule))
            ∙ from-append a (taken_in acc.batches) (all_taken schedule)
            ∙ ap (λ (l : List LogEvent). from a (taken_in acc.batches) ++ l) (taken_all a)
            ∙ acc.complete a,
      )
