-- ===== src/Pattern/TimeCache.antt =====
-- The text of a whole second that `process_time_arg` keeps (include/papper/detail/pattern.h) does not
-- show in what is printed, but for times in the last second before the epoch.
use papper.Common.{◌≡◌, refl, sym, ap, ◌∙◌, ◌⊎◌, inl, inr, List, [], ◌∷◌, Bool-cases}
use papper.Common.Int.{ℤ, negsuc, eq_ℤ, eq_ℤ_iff}
use papper.Text.{Text}
use papper.Pattern.{
  PatternData, PatternFieldFormatSpec, no_spec, time_hms, time_hms_micros, time_hms_nanos,
  file_name_only,
}
use papper.Pattern.Parse.{ParsedPattern}
use papper.Pattern.Format.{
  FormatArg, text_arg, number_arg, floor_seconds, to_u64, ns_of_second, floor_micros, TimeCache,
  Caches, update_cache, process_time_arg, format,
}

-- The second whose number the static variable starts with.
abbrev pub InLastSecond : ℤ → Type 0
InLastSecond t = floor_seconds t ≡ negsuc 0

module _ (hms : ℤ → Text) (vformat : Text → List FormatArg → Text) where
  abbrev IsFresh : TimeCache → Type 0
  IsFresh c = (c.hms_part ≡ hms c.last_update) ⊎ (c.last_update ≡ negsuc 0)

  abbrev pub AllFresh : Caches → Type 0
  AllFresh c = IsFresh c.seconds × IsFresh c.micros × IsFresh c.nanos

  update_cache-IsFresh :
      (c : TimeCache) (t : ℤ)
      → IsFresh c
      → ¬ InLastSecond t
      → IsFresh (update_cache hms vformat c t)
        × ((update_cache hms vformat c t).hms_part ≡ hms (floor_seconds t))
  unfolding update_cache
  update_cache-IsFresh c t fresh later = elim (Bool-cases (eq_ℤ (floor_seconds t) c.last_update)) [
    | inl e ↦ rw e (fresh, kept ((eq_ℤ_iff _ _).0 e) fresh)
    | inr e ↦ rw e (inl refl, refl)
  ]
    where
      kept : floor_seconds t ≡ c.last_update → IsFresh c → c.hms_part ≡ hms (floor_seconds t)
      kept e (inl h) = h ∙ ap hms (sym e)
      kept e (inr h) = absurd (later (e ∙ h))

  -- The arguments of a time with no cache.
  abbrev plain_time_args : PatternFieldFormatSpec → ℤ → List FormatArg
  plain_time_args time_hms t = text_arg (hms (floor_seconds t)) ∷ []
  plain_time_args time_hms_micros t =
      text_arg (hms (floor_seconds t)) ∷ number_arg (to_u64 (floor_micros (ns_of_second t))) ∷ []
  plain_time_args time_hms_nanos t =
      text_arg (hms (floor_seconds t)) ∷ number_arg (to_u64 (ns_of_second t)) ∷ []
  plain_time_args spec t = []

  -- If each cached text belongs to its second, or that is the second before the epoch, then for a time
  -- outside that second the arguments are those of the time itself, and the same holds of the cache
  -- afterwards.
  pub process_time_arg_lem :
      (spec : PatternFieldFormatSpec) (c : Caches) (t : ℤ)
      → AllFresh c
      → ¬ InLastSecond t
      → let (c', args) = process_time_arg hms vformat spec c t in
        AllFresh c' × (args ≡ plain_time_args spec t)
  unfolding process_time_arg
  process_time_arg_lem no_spec c t f later = (f, refl)
  process_time_arg_lem time_hms c t f later =
      let (fresh, part) = update_cache-IsFresh c.seconds t f.0 later in ((fresh, f.1, f.2), rw part)
  process_time_arg_lem time_hms_micros c t f later =
      let (fresh, part) = update_cache-IsFresh c.micros t f.1 later in ((f.0, fresh, f.2), rw part)
  process_time_arg_lem time_hms_nanos c t f later =
      let (fresh, part) = update_cache-IsFresh c.nanos t f.2 later in ((f.0, f.1, fresh), rw part)
  process_time_arg_lem file_name_only c t f later = (f, refl)

  abbrev Same : Caches × List FormatArg → Caches × List FormatArg → Type 0
  Same (c, args) (c', args') = (args ≡ args') × AllFresh c × AllFresh c'

  -- The lines that a formatter makes of some events, one after another.
  unfoldable pub format_run : ParsedPattern → Caches → List PatternData → List Text
  format_run p c [] = []
  format_run p c (d ∷ ds) = let (c', line) = format hms vformat p c d in line ∷ format_run p c' ds

  abbrev NoneInLastSecond : List PatternData → Type 0
  NoneInLastSecond [] = Unit {0}
  NoneInLastSecond (d ∷ ds) = (¬ InLastSecond d.timestamp) × NoneInLastSecond ds
