-- ===== src/Pattern/Meaning.antt =====
-- `parse_pattern` (include/papper/detail/pattern.h) ends, and what it accepts has the meaning that
-- the grammar gives it, within the bounds of its arrays.
use papper.Common.{
  ℕ, zero, suc, ◌≤◌, ◌≡◌, refl, sym, ap, ◌∙◌, subst, ◌≢◌, ◌⊎◌, inl, inr, List, [], ◌∷◌, ◌++◌,
  append-nil, append_assoc, arith, length,
}
use papper.Text.{Text}
use papper.Pattern.{PatternField, PatternFieldFormatSpec, no_error}
use papper.Pattern.Parse.{
  ParsedPattern, empty_pattern, Round, stop, go, past_end, parsed, overflow, out_of_fuel, round,
  parse_loop, parse_pattern,
}
use papper.Pattern.Grammar.{Parses, done}
use papper.Pattern.Sound.{Piece, round-Piece, round-stop}

module _ (max_fields max_len : ℕ) where
  abbrev step : ParsedPattern → ℕ → Text → Round
  step = round max_fields max_len

  Round-cases :
      (x : Round)
      → ((r : ParsedPattern) × (x ≡ stop r))
        ⊎ ((r : ParsedPattern) × (rest : Text) × (x ≡ go r rest))
        ⊎ (x ≡ past_end)
  Round-cases (stop r) = inl (r, refl)
  Round-cases (go r rest) = inr (inl (r, rest, refl))
  Round-cases past_end = inr (inr refl)

  parse_loop_ends :
      (fuel : ℕ) (r : ParsedPattern) (p : Text)
      → length p ≤ fuel
      → parse_loop max_fields max_len fuel r p ≢ out_of_fuel
  unfolding parse_loop
  parse_loop_ends fuel r [] h e = cc
  parse_loop_ends zero r (c ∷ cs) h e = absurd (omega arith)
  parse_loop_ends (suc fuel) r (c ∷ cs) h e = elim (Round-cases (step r c cs)) [
    | inl (r', s) ↦ stopped (rw s at e)
    | inr (inl (r', rest, s)) ↦
        parse_loop_ends fuel r' rest
          (omega (arith, (round-Piece max_fields max_len r r' c cs rest s).shorter)) (rw s at e)
    | inr (inr s) ↦ overflown (rw s at e)
  ]
    where
      stopped : {r' : ParsedPattern} → parsed r' ≡ out_of_fuel → ⊥
      stopped x = cc

      overflown : overflow ≡ out_of_fuel → ⊥
      overflown x = cc

  -- The length of the pattern is enough fuel: the parser accepts, reports an error, or writes past the
  -- end of `fmt_str`, for every pattern.
  pub parse_pattern-ends : (p : Text) → parse_pattern max_fields max_len p ≢ out_of_fuel
  unfolding parse_pattern
  parse_pattern-ends p = parse_loop_ends (length p) empty_pattern p (omega arith)

  -- What the loop adds to `r` for the text `p`.
  record Means (r r' : ParsedPattern) (p : Text) : Type 0 where
    text : Text
    new_fields : List PatternField
    new_specs : List PatternFieldFormatSpec
    fmt : r'.fmt_str ≡ r.fmt_str ++ text
    fields : r'.fields ≡ r.fields ++ new_fields
    specs : r'.specs ≡ r.specs ++ new_specs
    room : length r'.fmt_str ≤ max_len
    few : length r'.fields ≤ max_fields
    grammar : Parses p text new_fields new_specs

  Means-step :
      {r r1 r' : ParsedPattern} {c : ℕ} {cs rest : Text}
      → Piece max_fields max_len r r1 c cs rest
      → Means r1 r' rest
      → Means r r' (c ∷ cs)
  Means-step {r} a b = record {
    text = a.text ++ b.text;
    new_fields = a.new_fields ++ b.new_fields;
    new_specs = a.new_specs ++ b.new_specs;
    fmt = b.fmt ∙ ap (λ (x : Text). x ++ b.text) a.fmt ∙ append_assoc r.fmt_str a.text b.text;
    fields =
        b.fields
        ∙ ap (λ (x : List PatternField). x ++ b.new_fields) a.fields
        ∙ append_assoc r.fields a.new_fields b.new_fields;
    specs =
        b.specs
        ∙ ap (λ (x : List PatternFieldFormatSpec). x ++ b.new_specs) a.specs
        ∙ append_assoc r.specs a.new_specs b.new_specs;
    room = b.room;
    few = b.few;
    grammar = a.parse b.text b.new_fields b.new_specs b.grammar;
  }

  parse_loop-Means :
      (fuel : ℕ) (r : ParsedPattern) (p : Text) (r' : ParsedPattern)
      → parse_loop max_fields max_len fuel r p ≡ parsed r'
      → r'.error ≡ no_error
      → length r.fmt_str ≤ max_len
      → length r.fields ≤ max_fields
      → Means r r' p
  unfolding parse_loop
  parse_loop-Means fuel r [] r' h ok room few =
      let same : r ≡ r' = cc in
      subst (λ (x : ParsedPattern). Means r x []) same
        (record {
          text = [];
          new_fields = [];
          new_specs = [];
          fmt = sym (append-nil r.fmt_str);
          fields = sym (append-nil r.fields);
          specs = sym (append-nil r.specs);
          room = room;
          few = few;
          grammar = done;
        })
  parse_loop-Means zero r (c ∷ cs) r' h ok room few = cc
  parse_loop-Means (suc fuel) r (c ∷ cs) r' h ok room few = elim (Round-cases (step r c cs)) [
    | inl (r1, s) ↦ absurd (failed r1 s (rw s at h))
    | inr (inl (r1, rest, s)) ↦
        let a : Piece max_fields max_len r r1 c cs rest =
          round-Piece max_fields max_len r r1 c cs rest s in
        Means-step a (parse_loop-Means fuel r1 rest r' (rw s at h) ok a.room (a.few few))
    | inr (inr s) ↦ absurd (overflown (rw s at h))
  ]
    where
      failed : (r1 : ParsedPattern) → step r c cs ≡ stop r1 → parsed r1 ≡ parsed r' → ⊥
      failed r1 s x =
          let same : r1 ≡ r' = cc in
          round-stop max_fields max_len r r1 c cs s (ap (λ (y : ParsedPattern). y.error) same ∙ ok)

      overflown : overflow ≡ parsed r' → ⊥
      overflown x = cc

  -- A pattern that is accepted without an error is in the grammar, with the format string, fields and
  -- formats of the result as its meaning; and these fit their arrays.
  pub parse_pattern_sound :
      (p : Text) {r : ParsedPattern}
      → parse_pattern max_fields max_len p ≡ parsed r
      → r.error ≡ no_error
      → Parses p r.fmt_str r.fields r.specs
        × (length r.fmt_str ≤ max_len)
        × (length r.fields ≤ max_fields)
  unfolding parse_pattern
  parse_pattern_sound p {r} h ok =
      let m : Means empty_pattern r p =
        parse_loop-Means (length p) empty_pattern p r h ok (omega arith) (omega arith) in
      (
        subst (λ (x : Text). Parses p x r.fields r.specs) (sym m.fmt)
            (subst (λ (x : List PatternField). Parses p m.text x r.specs) (sym m.fields)
              (subst (λ (x : List PatternFieldFormatSpec). Parses p m.text m.new_fields x)
                (sym m.specs) m.grammar)),
        m.room,
        m.few,
      )
