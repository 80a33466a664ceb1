-- ===== src/Program/Batches.antt =====
-- What polls (include/papper/detail/core.h) take, and what they write.
-- What a poll took, with its clock, formatter and minimum level.
use papper.Common.{ℕ, ◌≡◌, refl, sym, ap, ◌∙◌, List, [], ◌∷◌, ◌++◌, append_assoc}
use papper.Common.Int.{ℤ}
use papper.Text.{Text}
use papper.Level.{LogLevel}
use papper.Codec.{Value}
use papper.Pattern.{PatternData}
use papper.Event.{CallSiteStaticData}
use papper.Backend.Visit.{lines_of}
use papper.Backend.Rounds.{Taken, events_of}

pub record Batch : Type 0 where
  pub local_time : ℕ → ℤ
  pub format_line : PatternData → Text
  pub min_log_level : LogLevel
  pub events : List Taken

abbrev pub taken_in : List Batch → List Taken
taken_in [] = []
taken_in (b ∷ bs) = b.events ++ taken_in bs

pub taken_in-append : (bs cs : List Batch) → taken_in (bs ++ cs) ≡ taken_in bs ++ taken_in cs
taken_in-append [] cs = refl
taken_in-append (b ∷ bs) cs =
    ap (λ (l : List Taken). b.events ++ l) (taken_in-append bs cs)
    ∙ sym (append_assoc b.events (taken_in bs) (taken_in cs))

module _ (sites : ℕ → CallSiteStaticData) (name_at : ℕ → Text)
    (message_of : Text → List Value → Text) where
  -- The lines that some polls write.
  abbrev pub written_by : List Batch → List Text
  written_by [] = []
  written_by (b ∷ bs) =
      lines_of sites name_at message_of b.local_time b.format_line b.min_log_level
        (events_of b.events)
      ++ written_by bs

  pub written_by-append :
      (bs cs : List Batch) → written_by (bs ++ cs) ≡ written_by bs ++ written_by cs
  written_by-append [] cs = refl
  written_by-append (b ∷ bs) cs =
      ap
        (λ (l : List Text).
          lines_of sites name_at message_of b.local_time b.format_line b.min_log_level
            (events_of b.events)
          ++ l)
        (written_by-append bs cs)
      ∙ sym (
          append_assoc
            (lines_of sites name_at message_of b.local_time b.format_line b.min_log_level
              (events_of b.events))
            (written_by bs) (written_by cs))
