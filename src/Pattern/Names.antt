-- ===== src/Pattern/Names.antt =====
-- The names that may stand in a placeholder of a pattern, written out apart from the tables of
-- include/papper/detail/pattern.h, and which formats a field has.
use papper.Common.{
  ◌≡◌, refl, subst, ◌↔◌, ◌⊎◌, inl, inr, true, some, List, [], ◌∷◌, arith, Bool-cases,
}
use papper.Text.{Text, codes, text_eq, text_eq_iff}
use papper.Pattern.{
  PatternField, level_field, thread_field, time_field, file_field, function_field, line_field,
  message_field, PatternFieldFormatSpec, no_spec, time_hms, time_hms_micros, time_hms_nanos,
  file_name_only, find_name, field_table, name_to_field_enum, spec_table, name_to_format_spec_enum,
  validate_field_spec_combination, expansion,
}

pub data FieldName : Text → PatternField → Type 0 where
  names_time : FieldName (codes "time") time_field
  names_file : FieldName (codes "file") file_field
  names_function : FieldName (codes "function") function_field
  names_line : FieldName (codes "line") line_field
  names_level : FieldName (codes "level") level_field
  names_message : FieldName (codes "message") message_field
  names_m : FieldName (codes "m") message_field
  names_thread : FieldName (codes "thread") thread_field

pub data FormatName : Text → PatternFieldFormatSpec → Type 0 where
  names_nothing : FormatName [] no_spec
  names_hms : FormatName (codes "HMS") time_hms
  names_hms_micros : FormatName (codes "HMSf") time_hms_micros
  names_hms_nanos : FormatName (codes "HMSF") time_hms_nanos
  names_path : FormatName (codes "path") no_spec
  names_nameonly : FormatName (codes "nameonly") file_name_only

-- The formats of a field.
pub data HasFormat : PatternField → PatternFieldFormatSpec → Type 0 where
  plain : {field : PatternField} → HasFormat field no_spec
  time_in_seconds : HasFormat time_field time_hms
  time_in_micros : HasFormat time_field time_hms_micros
  time_in_nanos : HasFormat time_field time_hms_nanos
  file_without_path : HasFormat file_field file_name_only

-- A table has an entry.
abbrev HasEntry : {A : Type 0} → List (Text × A) → Text → A → Type 0
HasEntry [] name a = ⊥
HasEntry ((n, b) ∷ table) name a = ((n ≡ name) × (b ≡ a)) ⊎ HasEntry table name a

find_name-HasEntry :
    {A : Type 0} (table : List (Text × A)) (name : Text) (a : A)
    → find_name table name ≡ some a
    → HasEntry table name a
unfolding find_name
find_name-HasEntry [] name a h = cc
find_name-HasEntry {A} ((n, b) ∷ table) name a h = elim (Bool-cases (text_eq n name)) [
  | inl same ↦ inl ((text_eq_iff n name).0 same, same_entry (rw same at h))
  | inr other ↦ inr (find_name-HasEntry table name a (rw other at h))
]
  where
    same_entry : some b ≡ some a → b ≡ a
    same_entry e = cc

field_at :
    {n name : Text} {b a : PatternField} → (n ≡ name) × (b ≡ a) → FieldName n b → FieldName name a
field_at {name = name} {b = b} (e, f) h =
    subst (FieldName name) f (subst (λ (t : Text). FieldName t b) e h)

format_at :
    {n name : Text} {b a : PatternFieldFormatSpec}
    → (n ≡ name) × (b ≡ a)
    → FormatName n b
    → FormatName name a
format_at {name = name} {b = b} (e, f) h =
    subst (FormatName name) f (subst (λ (t : Text). FormatName t b) e h)

HasEntry-FieldName :
    (name : Text) (field : PatternField) → HasEntry field_table name field → FieldName name field
HasEntry-FieldName name field (inl h) = field_at h names_time
HasEntry-FieldName name field (inr (inl h)) = field_at h names_file
HasEntry-FieldName name field (inr (inr (inl h))) = field_at h names_function
HasEntry-FieldName name field (inr (inr (inr (inl h)))) = field_at h names_line
HasEntry-FieldName name field (inr (inr (inr (inr (inl h))))) = field_at h names_level
HasEntry-FieldName name field (inr (inr (inr (inr (inr (inl h)))))) = field_at h names_message
HasEntry-FieldName name field (inr (inr (inr (inr (inr (inr (inl h))))))) = field_at h names_m
HasEntry-FieldName name field (inr (inr (inr (inr (inr (inr (inr (inl h)))))))) =
    field_at h names_thread
HasEntry-FieldName name field (inr (inr (inr (inr (inr (inr (inr (inr h)))))))) = absurd h

HasEntry-FormatName :
    (name : Text) (spec : PatternFieldFormatSpec)
    → HasEntry spec_table name spec
    → FormatName name spec
HasEntry-FormatName name spec (inl h) = format_at h names_nothing
HasEntry-FormatName name spec (inr (inl h)) = format_at h names_hms
HasEntry-FormatName name spec (inr (inr (inl h))) = format_at h names_hms_micros
HasEntry-FormatName name spec (inr (inr (inr (inl h)))) = format_at h names_hms_nanos
HasEntry-FormatName name spec (inr (inr (inr (inr (inl h))))) = format_at h names_path
HasEntry-FormatName name spec (inr (inr (inr (inr (inr (inl h)))))) = format_at h names_nameonly
HasEntry-FormatName name spec (inr (inr (inr (inr (inr (inr h)))))) = absurd h

FieldName-listed :
    (name : Text) (field : PatternField)
    → FieldName name field
    → name_to_field_enum name ≡ some field
unfolding name_to_field_enum find_name text_eq
FieldName-listed name field names_time = refl
FieldName-listed name field names_file = refl
FieldName-listed name field names_function = refl
FieldName-listed name field names_line = refl
FieldName-listed name field names_level = refl
FieldName-listed name field names_message = refl
FieldName-listed name field names_m = refl
FieldName-listed name field names_thread = refl

pub name_to_field_enum_lem :
    (name : Text) (field : PatternField)
    → (name_to_field_enum name ≡ some field) ↔ FieldName name field
unfolding name_to_field_enum
name_to_field_enum_lem name field = (
  (λ h. HasEntry-FieldName name field (find_name-HasEntry field_table name field h)),
  FieldName-listed name field,
)

FormatName-listed :
    (name : Text) (spec : PatternFieldFormatSpec)
    → FormatName name spec
    → name_to_format_spec_enum name ≡ some spec
unfolding name_to_format_spec_enum find_name text_eq
FormatName-listed name spec names_nothing = refl
FormatName-listed name spec names_hms = refl
FormatName-listed name spec names_hms_micros = refl
FormatName-listed name spec names_hms_nanos = refl
FormatName-listed name spec names_path = refl
FormatName-listed name spec names_nameonly = refl

pub name_to_format_spec_enum_lem :
    (name : Text) (spec : PatternFieldFormatSpec)
    → (name_to_format_spec_enum name ≡ some spec) ↔ FormatName name spec
unfolding name_to_format_spec_enum
name_to_format_spec_enum_lem name spec = (
  (λ h. HasEntry-FormatName name spec (find_name-HasEntry spec_table name spec h)),
  FormatName-listed name spec,
)

pub HasFormat-validate :
    {field : PatternField} {spec : PatternFieldFormatSpec}
    → HasFormat field spec
    → validate_field_spec_combination field spec ≡ true
unfolding validate_field_spec_combination
HasFormat-validate {field} plain = ground arith
HasFormat-validate time_in_seconds = refl
HasFormat-validate time_in_micros = refl
HasFormat-validate time_in_nanos = refl
HasFormat-validate file_without_path = refl

pub validate-HasFormat :
    (field : PatternField) (spec : PatternFieldFormatSpec)
    → validate_field_spec_combination field spec ≡ true
    → HasFormat field spec
unfolding validate_field_spec_combination
validate-HasFormat field no_spec h = plain
validate-HasFormat time_field time_hms h = time_in_seconds
validate-HasFormat time_field time_hms_micros h = time_in_micros
validate-HasFormat time_field time_hms_nanos h = time_in_nanos
validate-HasFormat file_field file_name_only h = file_without_path
validate-HasFormat field spec h = cc

-- How a field with a format is shown: as it is, or the seconds and a fraction of six or nine figures.
abbrev pub shown : PatternFieldFormatSpec → Text
shown time_hms_micros = codes "{}.{:06}"
shown time_hms_nanos = codes "{}.{:09}"
shown spec = codes "{}"

pub expansion-shown : (spec : PatternFieldFormatSpec) → expansion spec ≡ shown spec
unfolding expansion
expansion-shown no_spec = refl
expansion-shown time_hms = refl
expansion-shown time_hms_micros = refl
expansion-shown time_hms_nanos = refl
expansion-shown file_name_only = refl
