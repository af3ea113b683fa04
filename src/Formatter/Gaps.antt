-- ===== src/Formatter/Gaps.antt =====
-- internal/formatter/verify.go: the tests on the blanks between tokens.
use sqls.Base.{
  Bool, Option, arith, false, if◌then◌else◌, inl, inr, none, not, refl, some, true, ℕ, ◌&&◌, ◌||◌,
  ◌↔◌, ◌≡◌, ◌⊎◌,
}
use sqls.Token.Kind.{}
use sqls.Formatter.Verify.{
  SignificantToken, compare_gap, opaque_char, operator_like, word_like, joined, split,
}

-- Words that were apart are apart, symbols that may be one operator are not pulled apart.

abbrev pub KeepsGap : Option SignificantToken → SignificantToken → SignificantToken → Type 0
KeepsGap none w g = Unit
KeepsGap (some last) w g =
    (w.spaced ≡ true
      → word_like last.tok.kind ≡ true
      → word_like w.tok.kind ≡ true
      → g.spaced ≡ true)
    × (w.spaced ≡ false
        → (operator_like last.tok ≡ true) × (operator_like w.tok ≡ true)
          ⊎ (opaque_char last.tok ≡ true)
          ⊎ (opaque_char w.tok ≡ true)
        → g.spaced ≡ false)

apart_to :
    (ws gs p q : Bool)
    → (ws && not gs && p && q) ≡ false
    → ws ≡ true
    → p ≡ true
    → q ≡ true
    → gs ≡ true
apart_to ws gs p q h a b c = ground arith

together_to :
    (ws gs o p q r : Bool)
    → (not ws && gs && (o && p || q || r)) ≡ false
    → ws ≡ false
    → (o ≡ true) × (p ≡ true) ⊎ (q ≡ true) ⊎ (r ≡ true)
    → gs ≡ false
together_to ws gs o p q r h a (inl (b, c)) = ground arith
together_to ws gs o p q r h a (inr (inl b)) = ground arith
together_to ws gs o p q r h a (inr (inr b)) = ground arith

apart_from :
    (ws gs p q : Bool)
    → (ws ≡ true → p ≡ true → q ≡ true → gs ≡ true)
    → (ws && not gs && p && q) ≡ false
apart_from ws gs p q h = ground arith

together_from :
    (ws gs o p q r : Bool)
    → (ws ≡ false → (o ≡ true) × (p ≡ true) ⊎ (q ≡ true) ⊎ (r ≡ true) → gs ≡ false)
    → (not ws && gs && (o && p || q || r)) ≡ false
together_from true gs o p q r h = refl
together_from false false o p q r h = refl
together_from false true true true q r h = cc (h refl (inl (refl, refl)))
together_from false true true false true r h = cc (h refl (inr (inl refl)))
together_from false true false p true r h = cc (h refl (inr (inl refl)))
together_from false true true false false true h = cc (h refl (inr (inr refl)))
together_from false true false p false true h = cc (h refl (inr (inr refl)))
together_from false true true false false false h = refl
together_from false true false p false false h = refl

neither :
    {A : Type 0} (x y : A) (a b : Bool)
    → (if a then some x else if b then some y else none) ≡ none
    → (a ≡ false) × (b ≡ false)
neither x y true b h = cc
neither x y false true h = cc
neither x y false false h = (refl, refl)

gap_to :
    (i : ℕ) (last w g : SignificantToken)
    → compare_gap i (some last) w g ≡ none
    → KeepsGap (some last) w g
gap_to i last w g h =
    let n = neither _ _ (joined last w g) (split last w g) h in
    (apart_to _ _ _ _ n.0, together_to w.spaced g.spaced _ _ _ _ n.1)

gap_from :
    (i : ℕ) (last w g : SignificantToken)
    → KeepsGap (some last) w g
    → compare_gap i (some last) w g ≡ none
gap_from i last w g h =
    rw
      (
        apart_from w.spaced g.spaced _ _ h.0,
        together_from w.spaced g.spaced (operator_like last.tok) (operator_like w.tok)
            (opaque_char last.tok) (opaque_char w.tok) h.1,
      )
      refl

pub compare_gap_iff :
    (i : ℕ) (last : Option SignificantToken) (w g : SignificantToken)
    → (compare_gap i last w g ≡ none) ↔ KeepsGap last w g
compare_gap_iff i none w g = (λ h. tt, λ h. refl)
compare_gap_iff i (some last) w g = (gap_to i last w g, gap_from i last w g)
