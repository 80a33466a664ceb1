-- ===== src/Cpu/ModelName.antt =====
-- The processor's name (include/papper/detail/time.h) is its brand string without the blanks around it.
use papper.Common.{
  ℕ, zero, suc, ◌+◌, ◌-◌, ◌*◌, ◌≤◌, ◌<◌, ◌≡◌, refl, sym, ap, ap₂, ◌∙◌, ◌≢◌, ◌↔◌, ◌⊎◌, inl, inr,
  true, false, Option, none, some, [], ◌∷◌, ◌++◌, append-nil, append_assoc, arith, leb, ◌==◌,
  leb→le, ==_iff, ==_false, Bool-cases, Option-cases, length, get_elem?, take, replicate,
}
use papper.Memory.{Bytes, blit}
use papper.Text.{Text}
use papper.Cpu.{
  CpuId, c_string, register_bytes, remove_trailing, skip_blanks, trim_blanks, brand_size,
  leaf_count, read_leaves, name_from_leaves,
}

-- The text does not start with a blank, or it is empty.
abbrev pub NoLeading : Text → Type 0
NoLeading [] = Unit {0}
NoLeading (c ∷ cs) = c ≢ b' '

-- The text does not end with a blank, or it is empty.
abbrev pub NoTrailing : Text → Type 0
NoTrailing t = (t ≡ []) ⊎ ((before : Text) × (c : ℕ) × (t ≡ before ++ c ∷ []) × (c ≢ b' '))

abbrev pub blanks : ℕ → Text
blanks n = replicate n b' '

-- A text is what stands before its last character, and that character.
split_last :
    (t : Text) (n c : ℕ)
    → length t ≡ suc n
    → get_elem? t n ≡ some c
    → (t ≡ take n t ++ c ∷ []) × (length (take n t) ≡ n)
split_last [] n c h g = absurd (omega arith)
split_last (d ∷ []) zero c h g = (ground arith, refl)
split_last (d ∷ e ∷ t) zero c h g = absurd (omega arith)
split_last (d ∷ t) (suc n) c h g =
    let (e, l) = split_last t n c (omega arith) g in (ap (λ (x : Text). d ∷ x) e, ap suc l)

blanks-snoc : (n : ℕ) → b' ' ∷ blanks n ≡ blanks n ++ b' ' ∷ []
blanks-snoc zero = refl
blanks-snoc (suc n) = ap (λ (x : Text). b' ' ∷ x) (blanks-snoc n)

get_elem?-last : (t : Text) (n : ℕ) → length t ≡ suc n → (c : ℕ) × (get_elem? t n ≡ some c)
get_elem?-last [] n h = absurd (omega arith)
get_elem?-last (d ∷ t) zero h = (d, refl)
get_elem?-last (d ∷ t) (suc n) h = get_elem?-last t n (omega arith)

-- What the loop removes is blanks, and it leaves one character or no trailing blank.
record Cut (t r : Text) : Type 0 where
  count : ℕ
  whole : t ≡ r ++ blanks count
  ends : (length r ≤ 1) ⊎ NoTrailing r

remove_trailing-Cut : (end : ℕ) (t : Text) → length t ≡ suc end → Cut t (remove_trailing end t)
unfolding remove_trailing
remove_trailing-Cut zero t h = record {
  count = 0;
  whole = sym (append-nil t);
  ends = inl (omega arith);
}
remove_trailing-Cut (suc end) t h =
    let (c, g) = get_elem?-last t (suc end) h in
    let (e, l) = split_last t (suc end) c h g in
    rw (g, remove_trailing)
      (elim (Bool-cases (c == b' ')) [
        | inl blank ↦
            let cut = remove_trailing-Cut end (take (suc end) t) l in
            rw blank (record {
              count = suc cut.count;
              whole =
                  e
                  ∙ ap₂ (λ (x y : Text). x ++ y) cut.whole
                      (ap (λ (x : ℕ). x ∷ []) ((==_iff c b' ').0 blank))
                  ∙ append_assoc (remove_trailing end (take (suc end) t)) (blanks cut.count)
                      (b' ' ∷ [])
                  ∙ ap (λ (x : Text). remove_trailing end (take (suc end) t) ++ x)
                      (sym (blanks-snoc cut.count));
              ends = cut.ends;
            })
        | inr other ↦ rw other (record {
          count = 0;
          whole = sym (append-nil t);
          ends = inr (inr (take (suc end) t, c, e, ground arith));
        })
      ])

skip_blanks-whole : (t : Text) → (n : ℕ) × (t ≡ blanks n ++ skip_blanks t)
unfolding skip_blanks
skip_blanks-whole [] = (0, refl)
skip_blanks-whole (c ∷ cs) = elim (Bool-cases (c == b' ')) [
  | inl blank ↦
      let (n, e) = skip_blanks-whole cs in
      (suc n, rw blank (ap₂ (λ (x : ℕ) (y : Text). x ∷ y) ((==_iff c b' ').0 blank) e))
  | inr other ↦ (0, rw other refl)
]

skip_blanks-NoLeading : (t : Text) → NoLeading (skip_blanks t)
unfolding skip_blanks
skip_blanks-NoLeading [] = tt
skip_blanks-NoLeading (c ∷ cs) = elim (Bool-cases (c == b' ')) [
  | inl blank ↦ rw blank (skip_blanks-NoLeading cs)
  | inr other ↦ rw other (ground arith)
]

skip_blanks-snoc :
    (before : Text) (c : ℕ)
    → c ≢ b' '
    → (rest : Text) × (skip_blanks (before ++ c ∷ []) ≡ rest ++ c ∷ [])
unfolding skip_blanks
skip_blanks-snoc [] c h = ([], rw (==_false c b' ' h))
skip_blanks-snoc (d ∷ ds) c h = elim (Bool-cases (d == b' ')) [
  | inl blank ↦ let (rest, e) = skip_blanks-snoc ds c h in (rest, rw blank e)
  | inr other ↦ (d ∷ ds, rw other)
]

skip_blanks-NoTrailing : (t : Text) → (length t ≤ 1) ⊎ NoTrailing t → NoTrailing (skip_blanks t)
unfolding skip_blanks
skip_blanks-NoTrailing [] h = inl refl
skip_blanks-NoTrailing (c ∷ []) (inl h) = elim (Bool-cases (c == b' ')) [
  | inl blank ↦ rw blank (inl refl)
  | inr other ↦ rw other (inr ([], c, refl, ground arith))
]
skip_blanks-NoTrailing (c ∷ d ∷ cs) (inl h) = absurd (omega arith)
skip_blanks-NoTrailing (c ∷ cs) (inr (inl e)) = absurd (cons_ne c cs e)
  where
    cons_ne : (x : ℕ) (xs : Text) → x ∷ xs ≡ [] → ⊥
    cons_ne x xs y = cc
skip_blanks-NoTrailing (c ∷ cs) (inr (inr (before, d, e, other))) =
    let (rest, at) = skip_blanks-snoc before d other in inr (rest, d, ap skip_blanks e ∙ at, other)

-- The text without its blanks: it does not start or end with one, and blanks are all that was around.
trim_blanks_lem :
    (t : Text)
    → NoLeading (trim_blanks t)
      × NoTrailing (trim_blanks t)
      × ((m n : ℕ) × (t ≡ blanks m ++ trim_blanks t ++ blanks n))
unfolding trim_blanks
trim_blanks_lem [] = (tt, inl refl, (0, 0, refl))
trim_blanks_lem (c ∷ cs) =
    let cut = remove_trailing-Cut (length (c ∷ cs) - 1) (c ∷ cs) (omega arith) in
    let r : Text = remove_trailing (length (c ∷ cs) - 1) (c ∷ cs) in
    let (m, e) = skip_blanks-whole r in
    (
      skip_blanks-NoLeading r,
      skip_blanks-NoTrailing r cut.ends,
      (m, cut.count, cut.whole ∙ ap (λ (x : Text). x ++ blanks cut.count) e),
    )

read_leaves-none :
    (x86_cpuid : ℕ → CpuId) (n i : ℕ) (brand : Bytes)
    → (read_leaves x86_cpuid n i brand ≡ none) ↔ ((0 < n) × (16 < i + n))
unfolding read_leaves
read_leaves-none x86_cpuid zero i brand = ((λ h. cc), (λ h. absurd (omega arith)))
read_leaves-none x86_cpuid (suc n) i brand =
    let ih =
      read_leaves-none x86_cpuid n (i + 1)
        (blit brand (i * 16) (register_bytes (x86_cpuid (i + 0x8000_0002)))) in
    elim (Bool-cases (leb (i * 16 + 16) brand_size)) [
      | inl fits ↦
          rw fits ((λ h. (omega arith, omega (arith, (ih.0 h).1))), (λ h. ih.1 (later fits h.1)))
      | inr over ↦ rw over ((λ h. (omega arith, past over)), (λ h. refl))
    ]
  where
    past : leb (i * 16 + 16) brand_size ≡ false → 16 < i + suc n
    past over = ground arith

    later : leb (i * 16 + 16) brand_size ≡ true → 16 < i + suc n → (0 < n) × (16 < i + 1 + n)
    later fits h = ground arith

-- No byte is NUL.
abbrev pub NoNul : Bytes → Type 0
NoNul [] = Unit {0}
NoNul (c ∷ cs) = (c ≢ 0) × NoNul cs

c_string-cases :
    (cs : Bytes)
    → ((c_string cs ≡ none) × NoNul cs)
      ⊎ ((t : Text) × (rest : Bytes) × (c_string cs ≡ some t) × NoNul t × (cs ≡ t ++ 0 ∷ rest))
unfolding c_string
c_string-cases [] = inl (refl, tt)
c_string-cases (c ∷ cs) = elim (Bool-cases (c == 0)) [
  | inl nul ↦ inr ([], cs, rw (nul, c_string) refl, tt, ap (λ (x : ℕ). x ∷ cs) ((==_iff c 0).0 nul))
  | inr other ↦ elim (c_string-cases cs) [
    | inl (e, n) ↦ inl (rw (other, c_string) (rw e refl), (ground arith, n))
    | inr (t, rest, e, n, split) ↦ inr (
      c ∷ t,
      rest,
      rw (other, c_string) (rw e refl),
      (ground arith, n),
      ap (λ (x : Bytes). c ∷ x) split,
    )
  ]
]

-- The name of a processor by the brand string of `ids` leaves. If the loop runs for more than 16
-- leaves, the array of 256 bytes is written past its end. If it runs for fewer or as many and leaves
-- no NUL in the array, `strlen` reads past its end. Otherwise the name is what stands before the first
-- NUL, without the blanks before and behind it.
pub name_from_leaves_lem :
    (x86_cpuid : ℕ → CpuId) (ids : ℕ)
    → ((16 < leaf_count ids) × (name_from_leaves x86_cpuid ids ≡ none))
      ⊎ ((leaf_count ids ≤ 16)
          × ((brand : Bytes) × (read_leaves x86_cpuid (leaf_count ids) 0 (replicate brand_size 0)
                ≡ some brand)
              × ((NoNul brand × (name_from_leaves x86_cpuid ids ≡ none))
                  ⊎ ((text : Text) × (rest : Bytes) × (name : Text) × (brand ≡ text ++ 0 ∷ rest)
                      × NoNul text
                      × (name_from_leaves x86_cpuid ids ≡ some name)
                      × NoLeading name
                      × NoTrailing name
                      × ((m n : ℕ) × (text ≡ blanks m ++ name ++ blanks n))))))
name_from_leaves_lem x86_cpuid ids =
    elim (Option-cases (read_leaves x86_cpuid (leaf_count ids) 0 (replicate brand_size 0))) [
      | inl e ↦ inl (omega (arith, (exact.0 e).1), rw e refl)
      | inr (brand, e) ↦ inr (
        fits brand e,
        (
          brand,
          e,
          (elim (c_string-cases brand) [
            | inl (f, n) ↦ inl (n, rw e (rw f refl))
            | inr (text, rest, f, n, split) ↦
                let (leading, trailing, around) = trim_blanks_lem text in
                inr (
                  text,
                  rest,
                  trim_blanks text,
                  split,
                  n,
                  rw e (rw f refl),
                  leading,
                  trailing,
                  around,
                )
          ]),
        ),
      )
    ]
  where
    exact :
        (read_leaves x86_cpuid (leaf_count ids) 0 (replicate brand_size 0) ≡ none)
        ↔ ((0 < leaf_count ids) × (16 < 0 + leaf_count ids))
    exact = read_leaves-none x86_cpuid (leaf_count ids) 0 (replicate brand_size 0)

    none_ne : (brand : Bytes) → ◌≡◌ {A = Option Bytes} none (some brand) → ⊥
    none_ne brand x = cc

    fits :
        (brand : Bytes)
        → read_leaves x86_cpuid (leaf_count ids) 0 (replicate brand_size 0) ≡ some brand
        → leaf_count ids ≤ 16
    fits brand e = elim (Bool-cases (leb (leaf_count ids) 16)) [
      | inl h ↦ leb→le _ _ h
      | inr h ↦ absurd (none_ne brand (sym (exact.1 (more h)) ∙ e))
    ]
      where
        more : leb (leaf_count ids) 16 ≡ false → (0 < leaf_count ids) × (16 < 0 + leaf_count ids)
        more h = ground arith
