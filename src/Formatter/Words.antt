-- ===== src/Formatter/Words.antt =====
-- internal/formatter/verify.go: `sameToken` on the values of tokens.
use sqls.Base.{
  Bool, Bool-cases, List, ap, arith, contains, eqb, eqb_refl, eqb_sound, false, inl, inr, not, refl,
  subst, true, ℕ, ◌&&◌, ◌==◌, ◌||◌, ◌↔◌, ◌≡◌, ◌≢◌, ◌⊎◌,
}
use sqls.Dialect.Keyword.{unmatched, KeywordKind, dcl, ddl, dml, matched}
use sqls.Token.Kind.{}
use sqls.Token.Word.{SqlWord, Value, text, word}
use sqls.Formatter.Verify.{identifier_keywords, same_value, same_word, is_unmatched}

module _ (to_upper fold : List ℕ → List ℕ) where
  -- A word outside quotes that is a keyword, or that the formatter renders as one.
  abbrev pub IsRecased : SqlWord → Type 0
  IsRecased w =
      (w.quote_style ≡ 0)
      × ((w.kind ≢ unmatched) ⊎ (contains identifier_keywords (to_upper w.value) ≡ true))

  -- The same word, or a keyword in another case.
  abbrev pub SameWord : SqlWord → SqlWord → Type 0
  SameWord w g =
      (w.quote_style ≡ g.quote_style)
      × ((IsRecased w × (fold w.value ≡ fold g.value)) ⊎ (w.value ≡ g.value))

  abbrev pub SameValue : Value → Value → Type 0
  SameValue (word w) (word g) = SameWord w g
  SameValue (word w) (text g) = ⊥
  SameValue (text w) (word g) = ⊥
  SameValue (text w) (text g) = w ≡ g

  abbrev is_recased : SqlWord → Bool
  is_recased w =
      w.quote_style == 0
      && (not (is_unmatched w.kind) || contains identifier_keywords (to_upper w.value))

  known : {k : KeywordKind} → is_unmatched k ≡ false → k ≡ unmatched → ⊥
  known {k} u e = cc (u, ap is_unmatched e)

  is_recased_to : (w : SqlWord) → is_recased w ≡ true → IsRecased w
  is_recased_to w t = elim (Bool-cases (is_unmatched w.kind)) [
    | inl u ↦ (ground (arith, t), inr (ground (arith, t, u)))
    | inr u ↦ (ground (arith, t), inl (λ e. absurd (known u e)))
  ]

  is_unmatched_sound : (k : KeywordKind) → is_unmatched k ≡ true → k ≡ unmatched
  is_unmatched_sound unmatched h = refl
  is_unmatched_sound matched h = cc
  is_unmatched_sound dml h = cc
  is_unmatched_sound ddl h = cc
  is_unmatched_sound dcl h = cc

  is_recased_from : (w : SqlWord) → IsRecased w → is_recased w ≡ true
  is_recased_from w (u, inl k) = elim (Bool-cases (is_unmatched w.kind)) [
    | inl t ↦ absurd (k (is_unmatched_sound w.kind t))
    | inr f ↦ ground (arith, u, f)
  ]
  is_recased_from w (u, inr k) = ground (arith, u, k)

  eqb_same : (a b : List ℕ) → a ≡ b → eqb a b ≡ true
  eqb_same a b e = subst (λ x. eqb a x ≡ true) e (eqb_refl a)

  same_word_to : (w g : SqlWord) → same_word to_upper fold w g ≡ true → SameWord w g
  same_word_to w g h =
      let q : w.quote_style ≡ g.quote_style = ground (arith, h) in
      elim (Bool-cases (is_recased w)) [
        | inl t ↦ (q, inl (is_recased_to w t, eqb_sound _ _ (ground (arith, h, t))))
        | inr f ↦ (q, inr (eqb_sound _ _ (ground (arith, h, f))))
      ]

  same_word_from : (w g : SqlWord) → SameWord w g → same_word to_upper fold w g ≡ true
  same_word_from w g (q, inr e) = ground (arith, q, eqb_same _ _ e, eqb_same _ _ (ap fold e))
  same_word_from w g (q, inl (r, e)) = ground (arith, q, is_recased_from w r, eqb_same _ _ e)

  pub same_value_iff : (v u : Value) → (same_value to_upper fold v u ≡ true) ↔ SameValue v u
  same_value_iff (word w) (word g) = (same_word_to w g, same_word_from w g)
  same_value_iff (word w) (text g) = (λ h. ground arith, λ h. absurd h)
  same_value_iff (text w) (word g) = (λ h. ground arith, λ h. absurd h)
  same_value_iff (text w) (text g) =
      (eqb_sound w g, λ h. subst (λ x. eqb w x ≡ true) h (eqb_refl w))
