-- ===== src/Backend/Backoff.antt =====
-- How long the backend thread (include/papper/detail/core.h) sleeps between polls.
use papper.Common.{
  ℕ, zero, suc, ◌^◌, min, ◌≡◌, refl, Bool, true, false, List, [], ◌∷◌, ◌++◌, arith, replicate,
}
use papper.Backend.{next_backoff}
use native.Mathlib.Nat.{pow-suc}

-- The pause after some polls, the newest first, each with whether it found events.
unfoldable pub backoff_after : List Bool → ℕ
backoff_after [] = 1
backoff_after (were_events ∷ polls) = next_backoff were_events (backoff_after polls)

-- After a poll that found events and then `k` polls that found none, whatever was before, the pause is
-- 2 ^ k microseconds, but at most 200: the doubling never wraps around its 32 bits.
backoff_after_lem :
    (k : ℕ) (polls : List Bool)
    → backoff_after (replicate k false ++ true ∷ polls) ≡ min (2 ^ k) 200
unfolding backoff_after next_backoff
backoff_after_lem zero polls = refl
backoff_after_lem (suc k) polls = rw (backoff_after_lem k polls) (omega (arith, pow-suc 2 k))
