-- ===== src/Pattern/Lines.antt =====
-- Which lines a formatter of include/papper/detail/pattern.h makes of some events, field by field, with
-- the static variables of `process_time_arg` as they are when the process starts.
use papper.Common.{◌≡◌, refl, ap, ap₂, ◌∙◌, inr, List, [], ◌∷◌, ◌++◌, arith, map}
use papper.Common.Int.{ℤ}
use papper.Text.{Text}
use papper.Level.{level_to_name}
use papper.Pattern.{
  PatternData, PatternField, level_field, thread_field, time_field, file_field, function_field,
  line_field, message_field, PatternFieldFormatSpec, no_spec, time_hms, time_hms_micros,
  time_hms_nanos, file_name_only,
}
use papper.Pattern.Parse.{ParsedPattern}
use papper.Pattern.Format.{
  FormatArg, text_arg, number_arg, time_arg, get_field, floor_seconds, to_u64, ns_of_second,
  floor_micros, Caches, initial_caches, file_name_of, update_cache, process_time_arg,
  expand_and_process_format_arg, format_args, format,
}
use papper.Pattern.TimeCache.{InLastSecond, AllFresh, process_time_arg_lem, format_run}

-- What each field of a pattern stands for.
abbrev field_value : PatternField → PatternData → FormatArg
field_value level_field d = text_arg (level_to_name d.level)
field_value thread_field d = text_arg d.thread_name
field_value time_field d = time_arg d.timestamp
field_value file_field d = text_arg d.filename
field_value function_field d = text_arg d.functionname
field_value line_field d = number_arg d.linenumber
field_value message_field d = text_arg d.message

-- The arguments by the format of the field, where `text` gives the hours, minutes and seconds of a time.
abbrev time_args : (ℤ → Text) → PatternFieldFormatSpec → ℤ → List FormatArg
time_args text time_hms t = text_arg (text t) ∷ []
time_args text time_hms_micros t =
    text_arg (text t) ∷ number_arg (to_u64 (floor_micros (ns_of_second t))) ∷ []
time_args text time_hms_nanos t = text_arg (text t) ∷ number_arg (to_u64 (ns_of_second t)) ∷ []
time_args text spec t = []

abbrev value_args : (ℤ → Text) → PatternFieldFormatSpec → FormatArg → List FormatArg
value_args text no_spec a = a ∷ []
value_args text file_name_only (text_arg path) = text_arg (file_name_of path) ∷ []
value_args text file_name_only a = []
value_args text spec (time_arg t) = time_args text spec t
value_args text spec a = []

abbrev pub line_args :
    (ℤ → Text) → List PatternField → List PatternFieldFormatSpec → PatternData → List FormatArg
line_args text [] ss d = []
line_args text (f ∷ fs) [] d = []
line_args text (f ∷ fs) (s ∷ ss) d = value_args text s (field_value f d) ++ line_args text fs ss d

abbrev AllAre : (ℤ → Type 0) → List PatternData → Type 0
AllAre Is [] = Unit {0}
AllAre Is (d ∷ ds) = Is d.timestamp × AllAre Is ds

-- Static variables that are in one of the states `Good`, and times at which they stay in these and give
-- the text `text`.
module _ (hms : ℤ → Text) (vformat : Text → List FormatArg → Text) (text : ℤ → Text)
    (Good : Caches → Type 0) (Is : ℤ → Type 0)
    (process : (spec : PatternFieldFormatSpec) (c : Caches) (t : ℤ)
      → Good c
      → Is t
      → let (c', args) = process_time_arg hms vformat spec c t in
        Good c' × (args ≡ time_args text spec t)) where
  expand_lem :
      (spec : PatternFieldFormatSpec) (a : FormatArg) (c : Caches)
      → Good c
      → ((t : ℤ) → a ≡ time_arg t → Is t)
      → let (c', args) = expand_and_process_format_arg hms vformat spec c a in
        Good c' × (args ≡ value_args text spec a)
  unfolding expand_and_process_format_arg
  expand_lem no_spec a c g h = (g, refl)
  expand_lem time_hms (time_arg t) c g h = process time_hms c t g (h t refl)
  expand_lem time_hms_micros (time_arg t) c g h = process time_hms_micros c t g (h t refl)
  expand_lem time_hms_nanos (time_arg t) c g h = process time_hms_nanos c t g (h t refl)
  expand_lem file_name_only (text_arg path) c g h = (g, refl)
  expand_lem file_name_only (time_arg t) c g h = (g, refl)
  expand_lem file_name_only (number_arg n) c g h = (g, refl)
  expand_lem spec (text_arg x) c g h = (g, refl)
  expand_lem spec (number_arg x) c g h = (g, refl)

  get_field-field_value : (f : PatternField) (d : PatternData) → get_field f d ≡ field_value f d
  unfolding get_field
  get_field-field_value level_field d = refl
  get_field-field_value thread_field d = refl
  get_field-field_value time_field d = refl
  get_field-field_value file_field d = refl
  get_field-field_value function_field d = refl
  get_field-field_value line_field d = refl
  get_field-field_value message_field d = refl

  time_of :
      (f : PatternField) (d : PatternData) (t : ℤ)
      → Is d.timestamp
      → get_field f d ≡ time_arg t
      → Is t
  unfolding get_field
  time_of f d t h e = ground (arith, h)

  format_args-line_args :
      (fs : List PatternField) (ss : List PatternFieldFormatSpec) (c : Caches) (d : PatternData)
      → Good c
      → Is d.timestamp
      → let (c', args) = format_args hms vformat fs ss c d in
        Good c' × (args ≡ line_args text fs ss d)
  unfolding format_args
  format_args-line_args [] ss c d g h = (g, refl)
  format_args-line_args (f ∷ fs) [] c d g h = (g, refl)
  format_args-line_args (f ∷ fs) (s ∷ ss) c d g h =
      let (g1, e1) = expand_lem s (get_field f d) c g (λ t. time_of f d t h) in
      let (g2, e2) = format_args-line_args fs ss _ d g1 h in
      (g2, ap₂ ◌++◌ (e1 ∙ ap (value_args text s) (get_field-field_value f d)) e2)

  format_run-line_args :
      (p : ParsedPattern) (c : Caches) (ds : List PatternData)
      → Good c
      → AllAre Is ds
      → format_run hms vformat p c ds
        ≡ map (λ d. vformat p.fmt_str (line_args text p.fields p.specs d)) ds
  unfolding format_run format
  format_run-line_args p c [] g h = refl
  format_run-line_args p c (d ∷ ds) g h =
      let (g', e) = format_args-line_args p.fields p.specs c d g h.0 in
      ap₂ ◌∷◌ (ap (vformat p.fmt_str) e)
        (format_run-line_args p (format_args hms vformat p.fields p.specs c d).0 ds g' h.1)

module _ (hms : ℤ → Text) (vformat : Text → List FormatArg → Text) where
  process_time_arg-blank :
      (spec : PatternFieldFormatSpec) (c : Caches) (t : ℤ)
      → c ≡ initial_caches
      → InLastSecond t
      → let (c', args) = process_time_arg hms vformat spec c t in
        (c' ≡ initial_caches) × (args ≡ time_args (λ s. []) spec t)
  unfolding process_time_arg update_cache
  process_time_arg-blank no_spec c t e h = rw e (refl, refl)
  process_time_arg-blank time_hms c t e h = rw e (rw h (refl, refl))
  process_time_arg-blank time_hms_micros c t e h = rw e (rw h (refl, refl))
  process_time_arg-blank time_hms_nanos c t e h = rw e (rw h (refl, refl))
  process_time_arg-blank file_name_only c t e h = rw e (refl, refl)

  process_time_arg-fresh :
      (spec : PatternFieldFormatSpec) (c : Caches) (t : ℤ)
      → AllFresh hms vformat c
      → ¬ InLastSecond t
      → let (c', args) = process_time_arg hms vformat spec c t in
        AllFresh hms vformat c' × (args ≡ time_args (λ s. hms (floor_seconds s)) spec t)
  process_time_arg-fresh no_spec c t f later = process_time_arg_lem hms vformat no_spec c t f later
  process_time_arg-fresh time_hms c t f later =
      process_time_arg_lem hms vformat time_hms c t f later
  process_time_arg-fresh time_hms_micros c t f later =
      process_time_arg_lem hms vformat time_hms_micros c t f later
  process_time_arg-fresh time_hms_nanos c t f later =
      process_time_arg_lem hms vformat time_hms_nanos c t f later
  process_time_arg-fresh file_name_only c t f later =
      process_time_arg_lem hms vformat file_name_only c t f later

  -- If no event is in the last second before the epoch: the line of each is what fmt makes of the
  -- pattern's format string and of the arguments of its fields, one field after another. The text of its
  -- hours, minutes and seconds is that of its own second, whatever was formatted before.
  pub format_run-line :
      (p : ParsedPattern) (ds : List PatternData)
      → AllAre (λ t. ¬ InLastSecond t) ds
      → format_run hms vformat p initial_caches ds
        ≡ map
            (λ d. vformat p.fmt_str (line_args (λ t. hms (floor_seconds t)) p.fields p.specs d))
            ds
  format_run-line p ds later =
      format_run-line_args hms vformat (λ t. hms (floor_seconds t)) (AllFresh hms vformat)
        (λ t. ¬ InLastSecond t) process_time_arg-fresh p initial_caches ds
        (inr refl, inr refl, inr refl) later

  -- As long as all events of a process are in the last second before the epoch: the lines are made in
  -- the same way from their fields, but the text of hours, minutes and seconds is empty in all of them.
  pub format_run-last_second :
      (p : ParsedPattern) (ds : List PatternData)
      → AllAre InLastSecond ds
      → format_run hms vformat p initial_caches ds
        ≡ map (λ d. vformat p.fmt_str (line_args (λ t. []) p.fields p.specs d)) ds
  format_run-last_second p ds h =
      format_run-line_args hms vformat (λ t. []) (λ c. c ≡ initial_caches) InLastSecond
        process_time_arg-blank p initial_caches ds refl h
