-- ===== src/Pattern/Sound.antt =====
-- What `parse_pattern` (include/papper/detail/pattern.h) accepts is in the grammar, and its result is
-- the pattern's meaning.
use papper.Common.{
  ℕ, ◌+◌, ◌≤◌, ◌<◌, ◌≡◌, refl, sym, ap, subst, ◌≢◌, ◌⊎◌, inl, inr, true, false, some, List, [], ◌∷◌,
  ◌++◌, append-nil, arith, leb, ◌==◌, leb→le, ltb_of_leb, ==_iff, Bool-cases, Option-cases, length,
  drop, length-append,
}
use papper.Text.{Text}
use papper.Pattern.{
  PatternField, PatternFieldFormatSpec, ParsingError, no_error, unterminated_brace,
  empty_field_name, unknown_field_name, unknown_format_spec, invalid_spec_usage, too_many_fields,
  unmatched_closing_brace, name_to_field_enum, name_to_format_spec_enum,
  validate_field_spec_combination, expansion,
}
use papper.Pattern.Parse.{
  ParsedPattern, fail, stop, go, past_end, find_close, split_colon, next_is, push, add_field,
  named_field, brace_field, round,
}
use papper.Pattern.Names.{shown, expansion-shown}
use papper.Pattern.Grammar.{
  Lacks, Placeholder, Parses, literal, escape, placeholder, find_close-eq, split_colon-Placeholder,
}

find_close-le :
    (cs before after : Text) → find_close cs ≡ some (before, after) → length after ≤ length cs
find_close-le cs before after h =
    omega
      (arith, ap length (find_close-eq cs before after h).0, length-append before (b'}' ∷ after))

module _ (max_fields max_len : ℕ) where
  -- What a round adds that goes on from `r` to `r'`: a piece of the pattern, from `c ∷ cs` to `rest`.
  pub record Piece (r r' : ParsedPattern) (c : ℕ) (cs rest : Text) : Type 0 where
    pub text : Text
    pub new_fields : List PatternField
    pub new_specs : List PatternFieldFormatSpec
    pub same_error : r'.error ≡ r.error
    pub fmt : r'.fmt_str ≡ r.fmt_str ++ text
    pub fields : r'.fields ≡ r.fields ++ new_fields
    pub specs : r'.specs ≡ r.specs ++ new_specs
    pub shorter : length rest ≤ length cs
    pub room : length r'.fmt_str ≤ max_len
    pub few : length r.fields ≤ max_fields → length r'.fields ≤ max_fields
    pub parse :
        (f : Text) (fs : List PatternField) (ss : List PatternFieldFormatSpec)
        → Parses rest f fs ss
        → Parses (c ∷ cs) (text ++ f) (new_fields ++ fs) (new_specs ++ ss)

  -- A push that goes on.
  push-go :
      (r : ParsedPattern) (text rest : Text) (r' : ParsedPattern) (rest' : Text)
      → push max_fields max_len r text rest ≡ go r' rest'
      → (record r { fmt_str = r.fmt_str ++ text } ≡ r')
        × (rest ≡ rest')
        × (length (r.fmt_str ++ text) ≤ max_len)
  push-go r text rest r' rest' h =
      elim (Bool-cases (leb (length r.fmt_str + length text) max_len)) [
        | inl e ↦ went (rw e at h) (omega (arith, leb→le _ _ e, length-append r.fmt_str text))
        | inr e ↦ absurd (not_gone (rw e at h))
      ]
    where
      not_gone : past_end ≡ go r' rest' → ⊥
      not_gone h' = cc

      went :
          go (record r { fmt_str = r.fmt_str ++ text }) rest ≡ go r' rest'
          → length (r.fmt_str ++ text) ≤ max_len
          → (record r { fmt_str = r.fmt_str ++ text } ≡ r')
            × (rest ≡ rest')
            × (length (r.fmt_str ++ text) ≤ max_len)
      went h' le = (cc, cc, le)

  -- A round that pushes `text` for the pattern `c ∷ cs` up to `rest`.
  pushed :
      {r r' : ParsedPattern} {c : ℕ} {cs rest rest' : Text} (text : Text)
      → push max_fields max_len r text rest ≡ go r' rest'
      → length rest ≤ length cs
      → ((f : Text) (fs : List PatternField) (ss : List PatternFieldFormatSpec)
          → Parses rest f fs ss
          → Parses (c ∷ cs) (text ++ f) fs ss)
      → Piece r r' c cs rest'
  pushed {r} {r'} {c} {cs} {rest} {rest'} text h shorter grammar =
      let (same, left, le) = push-go r text rest r' rest' h in
      subst (λ (x : ParsedPattern). Piece r x c cs rest') same
        (subst (λ (x : Text). Piece r (record r { fmt_str = r.fmt_str ++ text }) c cs x) left
          (record {
            text = text;
            new_fields = [];
            new_specs = [];
            same_error = refl;
            fmt = refl;
            fields = sym (append-nil r.fields);
            specs = sym (append-nil r.specs);
            shorter = shorter;
            room = le;
            few = λ k. k;
            parse = grammar;
          }))

  -- A round that takes a placeholder.
  taken :
      {r r' : ParsedPattern} {c : ℕ} {cs rest : Text} (d : ℕ) (inside after : Text)
      (field : PatternField) (spec : PatternFieldFormatSpec)
      → add_field max_fields max_len r field spec after ≡ go r' rest
      → c ≡ b'{'
      → d ≢ b'{'
      → cs ≡ (d ∷ inside) ++ b'}' ∷ after
      → Lacks b'}' (d ∷ inside)
      → Placeholder (d ∷ inside) field spec
      → Piece r r' c cs rest
  taken {r} {r'} {c} {cs} {rest} d inside after field spec h open_brace not_open split lacks ph =
      elim (Bool-cases (leb max_fields (length r.fields))) [
        | inl full ↦ absurd (stopped (rw full at h))
        | inr free ↦
            went (push-go with_field (expansion spec) after r' rest (rw free at h))
              (ltb_of_leb _ _ free)
      ]
    where
      stopped : stop (fail r too_many_fields) ≡ go r' rest → ⊥
      stopped h' = cc

      with_field : ParsedPattern
      with_field = record r { fields = r.fields ++ field ∷ []; specs = r.specs ++ spec ∷ [] }

      added : ParsedPattern
      added = record with_field { fmt_str = r.fmt_str ++ expansion spec }

      went :
          (added ≡ r') × (after ≡ rest) × (length (r.fmt_str ++ expansion spec) ≤ max_len)
          → length r.fields < max_fields
          → Piece r r' c cs rest
      went (same, left, le) free =
          subst (λ (x : ParsedPattern). Piece r x c cs rest) same
            (subst (λ (x : Text). Piece r added c cs x) left
              (record {
                text = expansion spec;
                new_fields = field ∷ [];
                new_specs = spec ∷ [];
                same_error = refl;
                fmt = refl;
                fields = refl;
                specs = refl;
                shorter = omega (arith, ap length split, length-append (d ∷ inside) (b'}' ∷ after));
                room = le;
                few = λ k. omega (arith, length-append r.fields (field ∷ []), free);
                parse = λ f fs ss p.
                    subst (λ (x : Text). Parses (c ∷ cs) (x ++ f) (field ∷ fs) (spec ∷ ss))
                      (sym (expansion-shown spec))
                      (subst
                        (λ (x : Text). Parses (c ∷ x) (shown spec ++ f) (field ∷ fs) (spec ∷ ss))
                        (sym split) (placeholder open_brace not_open refl lacks ph p));
              }))

  braced :
      {r r' : ParsedPattern} {c : ℕ} {cs rest : Text}
      → brace_field max_fields max_len r (find_close cs) ≡ go r' rest
      → c ≡ b'{'
      → next_is b'{' cs ≡ false
      → Piece r r' c cs rest
  braced {r} {r'} {c} {cs} {rest} h open_brace not_open = elim (Option-cases (find_close cs)) [
    | inl e ↦ absurd (stopped unterminated_brace (rw e at h))
    | inr ((before, after), e) ↦ inside before after (find_close-eq cs before after e) (rw e at h)
  ]
    where
      stopped : (e : ParsingError) → stop (fail r e) ≡ go r' rest → ⊥
      stopped e h' = cc

      inside :
          (before after : Text)
          → (cs ≡ before ++ b'}' ∷ after) × Lacks b'}' before
          → named_field max_fields max_len r before after ≡ go r' rest
          → Piece r r' c cs rest
      inside [] after split h' = absurd (stopped empty_field_name h')
      inside (d ∷ ds) after (split, lacks) h' =
          elim (Option-cases (name_to_field_enum (split_colon (d ∷ ds)).0)) [
            | inl e ↦ absurd (stopped unknown_field_name (rw e at h'))
            | inr (field, e) ↦
                elim (Option-cases (name_to_format_spec_enum (split_colon (d ∷ ds)).1)) [
                  | inl e' ↦ absurd (stopped unknown_format_spec (rw e' at (rw e at h')))
                  | inr (spec, e') ↦
                      elim (Bool-cases (validate_field_spec_combination field spec)) [
                        | inr bad ↦
                            absurd (stopped invalid_spec_usage (rw bad at (rw e' at (rw e at h'))))
                        | inl good ↦
                            taken d ds after field spec (rw good at (rw e' at (rw e at h')))
                              open_brace (first (rw split at not_open)) split lacks
                              (split_colon-Placeholder (d ∷ ds) field spec e e' good)
                      ]
                ]
          ]
        where
          first : (d == b'{') ≡ false → d ≢ b'{'
          first e = ground arith

  -- What a round of the loop does when it goes on.
  pub round-Piece :
      (r r' : ParsedPattern) (c : ℕ) (cs rest : Text)
      → round max_fields max_len r c cs ≡ go r' rest
      → Piece r r' c cs rest
  unfolding round
  round-Piece r r' c cs rest h = elim (Bool-cases (c == b'{')) [
    | inl open_brace ↦ elim (Bool-cases (next_is b'{' cs)) [
      | inl twice ↦
          escaped b'{' (inl refl) ((==_iff c b'{').0 open_brace) cs twice
            (rw twice at (rw open_brace at h))
      | inr once ↦ braced (rw once at (rw open_brace at h)) ((==_iff c b'{').0 open_brace) once
    ]
    | inr not_open ↦ elim (Bool-cases (c == b'}')) [
      | inl close_brace ↦ elim (Bool-cases (next_is b'}' cs)) [
        | inl twice ↦
            escaped b'}' (inr refl) ((==_iff c b'}').0 close_brace) cs twice
              (rw twice at (rw close_brace at (rw not_open at h)))
        | inr once ↦ absurd (stopped (rw once at (rw close_brace at (rw not_open at h))))
      ]
      | inr not_close ↦
          pushed (c ∷ []) (rw not_close at (rw not_open at h)) (omega arith)
            (λ f fs ss p. literal (ground arith) (ground arith) p)
    ]
  ]
    where
      stopped : stop (fail r unmatched_closing_brace) ≡ go r' rest → ⊥
      stopped h' = cc

      escaped :
          (b : ℕ)
          → (b ≡ b'{') ⊎ (b ≡ b'}')
          → c ≡ b
          → (cs : Text) → next_is b cs ≡ true
          → push max_fields max_len r (b ∷ b ∷ []) (drop 1 cs) ≡ go r' rest
          → Piece r r' c cs rest
      escaped b brace e [] twice h' = absurd (no_next twice)
        where
          no_next : false ≡ true → ⊥
          no_next x = cc
      escaped b brace e (d ∷ ds) twice h' = pushed (b ∷ b ∷ []) h' (omega arith) (λ f fs ss p.
          subst (λ (x : ℕ). Parses (x ∷ d ∷ ds) (b ∷ b ∷ f) fs ss) (sym e)
            (subst (λ (x : ℕ). Parses (b ∷ x ∷ ds) (b ∷ b ∷ f) fs ss) (sym ((==_iff d b).0 twice))
              (escape brace refl p)))

  -- A round that returns has found an error.
  pub round-stop :
      (r r' : ParsedPattern) (c : ℕ) (cs : Text)
      → round max_fields max_len r c cs ≡ stop r'
      → r'.error ≢ no_error
  unfolding round
  round-stop r r' c cs h = ground arith
