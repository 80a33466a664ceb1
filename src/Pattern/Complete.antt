-- ===== src/Pattern/Complete.antt =====
-- `parse_pattern` (include/papper/detail/pattern.h) accepts every pattern of the grammar whose
-- meaning fits the arrays.
use papper.Common.{
  ℕ, zero, suc, ◌+◌, ◌≤◌, ◌<◌, ◌≡◌, refl, sym, ap, ◌∙◌, subst, ◌≢◌, ◌⊎◌, inl, inr, true, false,
  some, List, [], ◌∷◌, ◌++◌, append-nil, append_assoc, arith, leb, le→leb, ==_false, length,
  length-append,
}
use papper.Text.{Text}
use papper.Pattern.{
  PatternField, PatternFieldFormatSpec, no_error, name_to_field_enum, name_to_format_spec_enum,
  validate_field_spec_combination, expansion,
}
use papper.Pattern.Parse.{
  ParsedPattern, empty_pattern, go, parsed, find_close, split_colon, push, round, parse_loop,
  parse_pattern,
}
use papper.Pattern.Names.{
  name_to_field_enum_lem, name_to_format_spec_enum_lem, HasFormat-validate, shown, expansion-shown,
}
use papper.Pattern.Grammar.{
  Lacks, Placeholder, bare, formatted, Parses, done, literal, escape, placeholder,
}

find_close-append :
    (before after : Text)
    → Lacks b'}' before
    → find_close (before ++ b'}' ∷ after) ≡ some (before, after)
unfolding find_close
find_close-append [] after h = refl
find_close-append (c ∷ cs) after h = rw (==_false c b'}' h.0) (rw (find_close-append cs after h.1))

split_colon-bare : (name : Text) → Lacks b':' name → split_colon name ≡ (name, [])
unfolding split_colon
split_colon-bare [] h = refl
split_colon-bare (c ∷ cs) h = rw (==_false c b':' h.0) (rw (split_colon-bare cs h.1))

split_colon-append :
    (name spec : Text) → Lacks b':' name → split_colon (name ++ b':' ∷ spec) ≡ (name, spec)
unfolding split_colon
split_colon-append [] spec h = refl
split_colon-append (c ∷ cs) spec h = rw (==_false c b':' h.0) (rw (split_colon-append cs spec h.1))

-- The three checks that a placeholder passes.
record Passes (cs : Text) (field : PatternField) (spec : PatternFieldFormatSpec) : Type 0 where
  named : name_to_field_enum (split_colon cs).0 ≡ some field
  formatted_as : name_to_format_spec_enum (split_colon cs).1 ≡ some spec
  allowed : validate_field_spec_combination field spec ≡ true

Placeholder-Passes :
    {cs : Text} {field : PatternField} {spec : PatternFieldFormatSpec}
    → Placeholder cs field spec
    → Passes cs field spec
Placeholder-Passes (bare name {field} {spec} lacks n s allowed) = record {
  named =
      ap (λ (x : Text × Text). name_to_field_enum x.0) (split_colon-bare name lacks)
      ∙ (name_to_field_enum_lem name field).1 n;
  formatted_as =
      ap (λ (x : Text × Text). name_to_format_spec_enum x.1) (split_colon-bare name lacks)
      ∙ (name_to_format_spec_enum_lem [] spec).1 s;
  allowed = HasFormat-validate allowed;
}
Placeholder-Passes (formatted name spec_name {field} {spec} lacks n s allowed) = record {
  named =
      ap (λ (x : Text × Text). name_to_field_enum x.0) (split_colon-append name spec_name lacks)
      ∙ (name_to_field_enum_lem name field).1 n;
  formatted_as =
      ap (λ (x : Text × Text). name_to_format_spec_enum x.1)
        (split_colon-append name spec_name lacks)
      ∙ (name_to_format_spec_enum_lem spec_name spec).1 s;
  allowed = HasFormat-validate allowed;
}

module _ (max_fields max_len : ℕ) where
  push-fits :
      (r : ParsedPattern) (text rest : Text)
      → length r.fmt_str + length text ≤ max_len
      → push max_fields max_len r text rest ≡ go (record r { fmt_str = r.fmt_str ++ text }) rest
  push-fits r text rest h = rw (le→leb _ _ h)

  round-placeholder :
      (r : ParsedPattern) (d : ℕ) (inside cs : Text) (field : PatternField)
      (spec : PatternFieldFormatSpec)
      → d ≢ b'{'
      → Lacks b'}' (d ∷ inside)
      → Passes (d ∷ inside) field spec
      → length r.fields < max_fields
      → length r.fmt_str + length (expansion spec) ≤ max_len
      → round max_fields max_len r b'{' ((d ∷ inside) ++ b'}' ∷ cs)
        ≡ go
            (record r {
              fmt_str = r.fmt_str ++ expansion spec;
              fields = r.fields ++ field ∷ [];
              specs = r.specs ++ spec ∷ [];
            })
            cs
  unfolding round
  round-placeholder r d inside cs field spec not_open lacks ok few room =
      rw (==_false d b'{' not_open, find_close-append (d ∷ inside) cs lacks)
        (rw (ok.named, ok.formatted_as, ok.allowed, not_full)
          (push-fits _ (expansion spec) cs room))
    where
      not_full : leb max_fields (length r.fields) ≡ false
      not_full = ground arith

  -- The same with the text of the grammar.
  round-shown :
      (r : ParsedPattern) (d : ℕ) (inside cs : Text) (field : PatternField)
      (spec : PatternFieldFormatSpec)
      → d ≢ b'{'
      → Lacks b'}' (d ∷ inside)
      → Passes (d ∷ inside) field spec
      → length r.fields < max_fields
      → length r.fmt_str + length (shown spec) ≤ max_len
      → round max_fields max_len r b'{' ((d ∷ inside) ++ b'}' ∷ cs)
        ≡ go
            (record r {
              fmt_str = r.fmt_str ++ shown spec;
              fields = r.fields ++ field ∷ [];
              specs = r.specs ++ spec ∷ [];
            })
            cs
  round-shown r d inside cs field spec not_open lacks ok few =
      subst
        (λ (t : Text).
          length r.fmt_str + length t ≤ max_len
          → round max_fields max_len r b'{' ((d ∷ inside) ++ b'}' ∷ cs)
            ≡ go
                (record r {
                  fmt_str = r.fmt_str ++ t;
                  fields = r.fields ++ field ∷ [];
                  specs = r.specs ++ spec ∷ [];
                })
                cs)
        (expansion-shown spec) (round-placeholder r d inside cs field spec not_open lacks ok few)

  -- What the loop makes of a text of the grammar.
  abbrev extended :
      ParsedPattern → Text → List PatternField → List PatternFieldFormatSpec → ParsedPattern
  extended r f fs ss = record r {
    fmt_str = r.fmt_str ++ f;
    fields = r.fields ++ fs;
    specs = r.specs ++ ss;
  }

  extended-extended :
      (r : ParsedPattern) (f g : Text) (fs gs : List PatternField)
      (ss ts : List PatternFieldFormatSpec)
      → extended (extended r f fs ss) g gs ts ≡ extended r (f ++ g) (fs ++ gs) (ss ++ ts)
  extended-extended r f g fs gs ss ts = λ i. record r {
    fmt_str = append_assoc r.fmt_str f g i;
    fields = append_assoc r.fields fs gs i;
    specs = append_assoc r.specs ss ts i;
  }

  -- A round that pushes only text.
  pushes :
      (r : ParsedPattern) (text : Text)
      → record r { fmt_str = r.fmt_str ++ text } ≡ extended r text [] []
  pushes r text = λ i. record r {
    fmt_str = r.fmt_str ++ text;
    fields = sym (append-nil r.fields) i;
    specs = sym (append-nil r.specs) i;
  }

  round-literal :
      (r : ParsedPattern) (c : ℕ) (cs : Text)
      → c ≢ b'{'
      → c ≢ b'}'
      → length r.fmt_str + 1 ≤ max_len
      → round max_fields max_len r c cs ≡ go (extended r (c ∷ []) [] []) cs
  unfolding round
  round-literal r c cs not_open not_close room =
      rw (==_false c b'{' not_open, ==_false c b'}' not_close)
        (push-fits r (c ∷ []) cs room ∙ ap (λ (x : ParsedPattern). go x cs) (pushes r (c ∷ [])))

  round-escape :
      (r : ParsedPattern) (c : ℕ) (cs : Text)
      → (c ≡ b'{') ⊎ (c ≡ b'}')
      → length r.fmt_str + 2 ≤ max_len
      → round max_fields max_len r c (c ∷ cs) ≡ go (extended r (c ∷ c ∷ []) [] []) cs
  unfolding round
  round-escape r c cs (inl e) room = rw e (
      push-fits r (b'{' ∷ b'{' ∷ []) cs room
      ∙ ap (λ (x : ParsedPattern). go x cs) (pushes r (b'{' ∷ b'{' ∷ [])))
  round-escape r c cs (inr e) room = rw e (
      push-fits r (b'}' ∷ b'}' ∷ []) cs room
      ∙ ap (λ (x : ParsedPattern). go x cs) (pushes r (b'}' ∷ b'}' ∷ [])))

  loop-step :
      (fuel : ℕ) (r : ParsedPattern) (c : ℕ) (cs : Text) {r1 x : ParsedPattern} {rest : Text}
      → round max_fields max_len r c cs ≡ go r1 rest
      → parse_loop max_fields max_len fuel r1 rest ≡ parsed x
      → parse_loop max_fields max_len (suc fuel) r (c ∷ cs) ≡ parsed x
  unfolding parse_loop
  loop-step fuel r c cs e h = rw e h

  parse_loop_complete :
      {p f : Text} {fs : List PatternField} {ss : List PatternFieldFormatSpec} (fuel : ℕ)
      (r : ParsedPattern)
      → Parses p f fs ss
      → length p ≤ fuel
      → length r.fmt_str + length f ≤ max_len
      → length r.fields + length fs ≤ max_fields
      → parse_loop max_fields max_len fuel r p ≡ parsed (extended r f fs ss)
  parse_loop_complete fuel r done enough room few =
      unfold parse_loop in
      ap parsed (λ i. record r {
        fmt_str = sym (append-nil r.fmt_str) i;
        fields = sym (append-nil r.fields) i;
        specs = sym (append-nil r.specs) i;
      })
  parse_loop_complete zero r (literal a b g) enough room few = absurd (omega arith)
  parse_loop_complete (suc fuel) r (literal {c = c} {cs = cs} {f = f} {fs = fs} {ss = ss} a b g)
        enough room few =
      loop-step fuel r c cs (round-literal r c cs a b (omega arith)) (
        parse_loop_complete fuel (extended r (c ∷ []) [] []) g (omega arith)
          (omega (arith, length-append r.fmt_str (c ∷ [])))
          (omega (arith, length-append r.fields []))
        ∙ ap parsed (extended-extended r (c ∷ []) f [] fs [] ss))
  parse_loop_complete zero r (escape a b g) enough room few = absurd (omega arith)
  parse_loop_complete (suc fuel) r
        (escape {c = c} {d = d} {cs = cs} {f = f} {fs = fs} {ss = ss} brace same g) enough room
        few =
      subst
        (λ (x : ℕ).
          parse_loop max_fields max_len (suc fuel) r (c ∷ x ∷ cs)
          ≡ parsed (extended r (c ∷ x ∷ f) fs ss))
        (sym same)
        (loop-step fuel r c (c ∷ cs) (round-escape r c cs brace (omega arith)) (
          parse_loop_complete fuel (extended r (c ∷ c ∷ []) [] []) g (omega arith)
            (omega (arith, length-append r.fmt_str (c ∷ c ∷ [])))
            (omega (arith, length-append r.fields []))
          ∙ ap parsed (extended-extended r (c ∷ c ∷ []) f [] fs [] ss)))
  parse_loop_complete zero r (placeholder o n e l ph g) enough room few = absurd (omega arith)
  parse_loop_complete (suc fuel) r
        (placeholder {c = c} {d = d} {e = e} {inside = inside} {cs = cs} {f = f} {fs = fs} {ss = ss}
          {field = field} {spec = spec} open_brace not_open close lacks ph g)
        enough room few =
      rw (open_brace, close)
        (loop-step fuel r b'{' ((d ∷ inside) ++ b'}' ∷ cs)
          (round-shown r d inside cs field spec not_open lacks (Placeholder-Passes ph) (omega arith)
            (omega (arith, length-append (shown spec) f)))
          (parse_loop_complete fuel (extended r (shown spec) (field ∷ []) (spec ∷ [])) g
              (omega (arith, length-append (d ∷ inside) (e ∷ cs)))
              (omega (arith, length-append (shown spec) f, length-append r.fmt_str (shown spec)))
              (omega (arith, length-append r.fields (field ∷ [])))
            ∙ ap parsed (extended-extended r (shown spec) f (field ∷ []) fs (spec ∷ []) ss)))

  -- A pattern of the grammar whose format string and fields fit their arrays is accepted, with its
  -- meaning as the result.
  pub parse_pattern_complete :
      {p f : Text} {fs : List PatternField} {ss : List PatternFieldFormatSpec}
      → Parses p f fs ss
      → length f ≤ max_len
      → length fs ≤ max_fields
      → parse_pattern max_fields max_len p
        ≡ parsed (record { error = no_error; fmt_str = f; fields = fs; specs = ss })
  unfolding parse_pattern
  parse_pattern_complete {p} g room few =
      parse_loop_complete (length p) empty_pattern g (omega arith) (omega arith) (omega arith)
