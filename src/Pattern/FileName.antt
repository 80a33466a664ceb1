-- ===== src/Pattern/FileName.antt =====
-- The format `nameonly` of include/papper/detail/pattern.h.
use papper.Common.{
  ℕ, suc, ◌≡◌, refl, sym, ap, ◌∙◌, ◌⊎◌, inl, inr, true, false, Option, none, some, [], ◌∷◌, ◌++◌,
  append_assoc, if◌then◌else◌, Bool-cases, drop,
}
use papper.Text.{Text}
use papper.Pattern.Format.{is_separator, find_last_separator, file_name_of}

abbrev NoSeparator : Text → Type 0
NoSeparator [] = Unit {0}
NoSeparator (c ∷ cs) = (is_separator c ≡ false) × NoSeparator cs

-- What `find_last_of` says of a text.
abbrev Found : Text → Option ℕ → Type 0
Found path none = NoSeparator path
Found path (some i) =
    (before : Text) × (c : ℕ) × (path ≡ before ++ c ∷ drop (suc i) path)
    × (is_separator c ≡ true)
    × NoSeparator (drop (suc i) path)

find_last_separator-Found : (path : Text) → Found path (find_last_separator path)
unfolding find_last_separator
find_last_separator-Found [] = tt
find_last_separator-Found (c ∷ cs) =
    go (find_last_separator cs) (find_last_separator-Found cs) (Bool-cases (is_separator c))
  where
    go :
        (o : Option ℕ)
        → Found cs o
        → (is_separator c ≡ true) ⊎ (is_separator c ≡ false)
        → Found
            (c ∷ cs)
            (elim o [ some i ↦ some (suc i) | none ↦ if is_separator c then some 0 else none ])
    go (some i) (before, d, e, sep, rest) s = (c ∷ before, d, ap (λ (l : Text). c ∷ l) e, sep, rest)
    go none rest (inl s) = rw s ([], c, refl, s, rest)
    go none rest (inr s) = rw s (s, rest)

-- A directory part is empty or ends in a separator.
abbrev IsDirectory : Text → Type 0
IsDirectory dir =
    (dir ≡ []) ⊎ ((before : Text) × (c : ℕ) × (dir ≡ before ++ c ∷ []) × (is_separator c ≡ true))

-- Every path is a directory part and then the file name, which has no separator of either kind.
file_name_of_lem :
    (path : Text)
    → (dir : Text) × (path ≡ dir ++ file_name_of path)
      × IsDirectory dir
      × NoSeparator (file_name_of path)
unfolding file_name_of
file_name_of_lem path = go (find_last_separator path) (find_last_separator-Found path)
  where
    go :
        (o : Option ℕ)
        → Found path o
        → let name : Text = elim o [ none ↦ path | some i ↦ drop (suc i) path ] in
          (dir : Text) × (path ≡ dir ++ name) × IsDirectory dir × NoSeparator name
    go none rest = ([], refl, inl refl, rest)
    go (some i) (before, c, e, sep, rest) = (
      before ++ c ∷ [],
      e ∙ sym (append_assoc before (c ∷ []) (drop (suc i) path)),
      inr (before, c, refl, sep),
      rest,
    )
