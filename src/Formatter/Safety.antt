-- ===== src/Formatter/Safety.antt =====
-- internal/formatter/verify.go: what an accepted text has in common with the original.
use sqls.Base.{
  ==_iff, Bool, Bool-cases, List, Option, [], ap, arith, false, if◌then◌else◌, inl, inr, length,
  none, not, refl, some, subst, suc, true, ℕ, ◌+◌, ◌==◌, ◌↔◌, ◌∷◌, ◌≡◌,
}
use sqls.Dialect.Rules.{Dialect}
use sqls.Token.Kind.{}
use sqls.Token.Word.{Value, text, word}
use sqls.Token.Stream.{Token, tokenize, LexError}
use sqls.Formatter.Kinds.{same_kind_sound, same_kind, same_kind_refl}
use sqls.Formatter.Verify.{
  SignificantToken, compare, Refusal, compare_all, same_token, significant, verify_formatted,
  significant_of, tokens_became, verify_read,
}
use sqls.Formatter.Words.{SameValue, same_value_iff}
use sqls.Formatter.Gaps.{KeepsGap, compare_gap_iff}

module _ (to_upper fold : List ℕ → List ℕ) where
  abbrev pub Unchanged :
      Option SignificantToken → List SignificantToken → List SignificantToken → Type 0
  Unchanged last [] [] = Unit
  Unchanged last [] (g ∷ gs) = ⊥
  Unchanged last (w ∷ ws) [] = ⊥
  Unchanged last (w ∷ ws) (g ∷ gs) =
      (w.tok.kind ≡ g.tok.kind)
      × SameValue to_upper fold w.tok.value g.tok.value
      × KeepsGap last w g
      × Unchanged (some w) ws gs

  -- A round of `compare`, whose later rounds give `p`.
  round_to :
      (b : Bool) (x : Refusal) (o p : Option Refusal)
      → (if not b then some x else elim o as (λ y. Option Refusal) [ none ↦ p | some r ↦ some r ])
        ≡ none
      → (b ≡ true) × (o ≡ none) × (p ≡ none)
  round_to true x none p h = (refl, refl, h)
  round_to true x (some r) p h = cc
  round_to false x o p h = cc

  same_token_iff :
      (w g : Token)
      → (same_token to_upper fold w g ≡ true)
        ↔ ((w.kind ≡ g.kind) × SameValue to_upper fold w.value g.value)
  same_token_iff w g =
      let v = same_value_iff to_upper fold w.value g.value in
      (
        λ h. (same_kind_sound _ _ (ground (arith, h)), v.0 (ground (arith, h))),
        λ h. rw (subst (λ k. same_kind w.kind k ≡ true) h.0 (same_kind_refl w.kind)) (v.1 h.1),
      )

  compare_iff :
      (i : ℕ) (last : Option SignificantToken) (ws gs : List SignificantToken)
      → length gs ≡ length ws
      → (compare to_upper fold i last ws gs ≡ none) ↔ Unchanged last ws gs
  unfolding compare
  compare_iff i last [] [] e = (λ h. tt, λ h. refl)
  compare_iff i last [] (g ∷ gs) e = absurd (omega arith)
  compare_iff i last (w ∷ ws) [] e = absurd (omega arith)
  compare_iff i last (w ∷ ws) (g ∷ gs) e =
      let same = same_token_iff w.tok g.tok in
      let gap = compare_gap_iff i last w g in
      let rest = compare_iff (i + 1) (some w) ws gs (omega arith) in
      (
        λ h. let (t, o, p) = round_to _ _ _ _ h in ((same.0 t).0, (same.0 t).1, gap.0 o, rest.0 p),
        λ h. let (k, v, q, r) = h in rw (same.1 (k, v), gap.1 q) (rest.1 r),
      )

  Unchanged-length :
      (last : Option SignificantToken) (ws gs : List SignificantToken)
      → Unchanged last ws gs
      → length gs ≡ length ws
  Unchanged-length last [] [] u = refl
  Unchanged-length last (w ∷ ws) (g ∷ gs) u =
      ap suc (let (k, v, q, r) = u in Unchanged-length (some w) ws gs r)
  Unchanged-length last [] (g ∷ gs) u = absurd u
  Unchanged-length last (w ∷ ws) [] u = absurd u

  compare_all_iff :
      (ws gs : List SignificantToken)
      → (compare_all to_upper fold ws gs ≡ none) ↔ Unchanged none ws gs
  unfolding compare_all
  compare_all_iff ws gs = (
    λ h. elim (Bool-cases (length gs == length ws)) [
      | inl e ↦ (compare_iff 0 none ws gs ((==_iff _ _).0 e)).0 (ground (arith, h, e))
      | inr e ↦ cc (
          subst
            (λ b.
              (if not b
                then some (tokens_became (length ws) (length gs))
                else compare to_upper fold 0 none ws gs)
              ≡ none)
            e h)
    ],
    λ u.
        let e = Unchanged-length none ws gs u in
        rw ((==_iff _ _).1 e) ((compare_iff 0 none ws gs e).1 u),
  )

  -- The tokens of a text that are not blanks, where the lexer reads the whole text.
  abbrev pub code : Dialect → List ℕ → List SignificantToken
  code d src = significant false (tokenize to_upper d src).tokens

  read_iff :
      (o p : Option LexError) (ts us : List Token)
      → (verify_read to_upper fold (significant_of o ts) (significant_of p us) ≡ none)
        ↔ ((o ≡ none) × (p ≡ none) × Unchanged none (significant false ts) (significant false us))
  read_iff none none ts us =
      let c = compare_all_iff (significant false ts) (significant false us) in
      (λ h. (refl, refl, c.0 h), λ h. let (a, b, u) = h in c.1 u)
  read_iff none (some e) ts us = (λ h. cc, λ h. let (a, b, u) = h in cc)
  read_iff (some e) p ts us = (λ h. cc, λ h. let (a, b, u) = h in cc)

  -- `verifyFormatted` accepts a text exactly where the tokenizer reads it and the original without
  -- an error, and, blanks aside, they have the same tokens in the same order: of the same kinds,
  -- literals, comments and delimited identifiers unchanged, words unchanged but for the case of
  -- keywords, words that were apart still apart, and symbols that may make one operator, or that
  -- the lexer does not know, not pulled apart.
  pub verify_formatted_iff :
      (d : Dialect) (original formatted : List ℕ)
      → (verify_formatted to_upper fold d original formatted ≡ none) ↔ (
          ((tokenize to_upper d original).error ≡ none)
          × ((tokenize to_upper d formatted).error ≡ none)
          × Unchanged none (code d original) (code d formatted))
  unfolding verify_formatted
  verify_formatted_iff d original formatted =
      read_iff (tokenize to_upper d original).error (tokenize to_upper d formatted).error _ _

  same-Unchanged :
      (last : Option SignificantToken) (ws : List SignificantToken) → Unchanged last ws ws
  same-Unchanged last [] = tt
  same-Unchanged last (w ∷ ws) =
      (refl, same_value w.tok.value, gap last, same-Unchanged (some w) ws)
    where
      same_value : (v : Value) → SameValue to_upper fold v v
      same_value (text v) = refl
      same_value (word v) = (refl, inr refl)

      gap : (l : Option SignificantToken) → KeepsGap l w w
      gap none = tt
      gap (some l) = (λ s a b. s, λ s o. s)

  -- `verifyFormatted` accepts a text as its own formatted text exactly where the tokenizer reads it
  -- without an error: a text with a lexical error is refused even unchanged.
  pub verify_formatted-same :
      (d : Dialect) (original : List ℕ)
      → (verify_formatted to_upper fold d original original ≡ none)
        ↔ ((tokenize to_upper d original).error ≡ none)
  verify_formatted-same d original =
      let v = verify_formatted_iff d original original in
      (λ h. let (a, b, u) = v.0 h in a, λ h. v.1 (h, h, same-Unchanged none _))
