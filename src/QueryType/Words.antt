-- ===== src/QueryType/Words.antt =====
-- internal/database/query_type.go: the words of a statement.
use sqls.Base.{
  Bool, Bool-cases, List, [], ap, arith, false, has_prefix, inl, inr, length, refl, sym, true, ℕ,
  ◌++◌, ◌<◌, ◌==◌, ◌||◌, ◌∙◌, ◌∷◌, ◌≡◌,
}
use sqls.QueryType.Split.{
  split, split_any, split_multi_sep, append_all, cons_first, among, single_bytes,
}

split_any-ext :
    (p q : ℕ → Bool) (s : List ℕ) → ((c : ℕ) → p c ≡ q c) → split_any p s ≡ split_any q s
unfolding split_any
split_any-ext p q [] e = refl
split_any-ext p q (c ∷ s) e = rw (e c, split_any-ext p q s e) refl

-- An occurrence of a separator of one byte is a byte that is the separator.
has_prefix-single : (sep c : ℕ) (s : List ℕ) → has_prefix (sep ∷ []) (c ∷ s) ≡ (c == sep)
has_prefix-single sep c s = ground arith

split_any-split : (sep : ℕ) (s : List ℕ) → split (sep ∷ []) s ≡ split_any (λ c. c == sep) s
unfolding split_any
split_any-split sep [] = refl
split_any-split sep (c ∷ s) = rw (has_prefix-single sep c s) (elim (Bool-cases (c == sep)) [
  | inl t ↦ rw (t, split_any-split sep s) refl
  | inr f ↦ rw (f, split_any-split sep s) refl
])

split_any-never : (s : List ℕ) → s ∷ [] ≡ split_any (λ c. false) s
unfolding split_any
split_any-never [] = refl
split_any-never (c ∷ s) = ap (cons_first c) (split_any-never s)

append_all-ext :
    (f g : List ℕ → List (List ℕ)) (rs : List (List ℕ))
    → ((r : List ℕ) → f r ≡ g r)
    → append_all f rs ≡ append_all g rs
append_all-ext f g [] e = refl
append_all-ext f g (r ∷ rs) e = rw (e r, append_all-ext f g rs e) refl

cons_first-append :
    (c : ℕ) (p : ℕ → Bool) (w : List ℕ) (rest : List (List ℕ))
    → cons_first c (split_any p w ++ rest) ≡ cons_first c (split_any p w) ++ rest
unfolding split_any
cons_first-append c p [] rest = refl
cons_first-append c p (d ∷ w) rest = elim (Bool-cases (p d)) [
  | inl t ↦ rw t refl
  | inr f ↦ rw f (go (split_any p w))
]
  where
    go :
        (ws : List (List ℕ))
        → cons_first c (cons_first d ws ++ rest) ≡ cons_first c (cons_first d ws) ++ rest
    go [] = refl
    go (v ∷ ws) = refl

-- A piece is not empty of pieces.
append_all-cons_first :
    (c : ℕ) (p q : ℕ → Bool) (s : List ℕ)
    → p c ≡ false
    → append_all (split_any p) (cons_first c (split_any q s))
      ≡ cons_first c (append_all (split_any p) (split_any q s))
unfolding split_any
append_all-cons_first c p q s h = go (split_any q s)
  where
    go :
        (ws : List (List ℕ))
        → append_all (split_any p) (cons_first c ws) ≡ cons_first c (append_all (split_any p) ws)
    go [] = rw h refl
    go (w ∷ ws) = rw h (sym (cons_first-append c p w (append_all (split_any p) ws)))

-- There is a piece.
pub split_any-pieces : (q : ℕ → Bool) (s : List ℕ) → 0 < length (split_any q s)
unfolding split_any
split_any-pieces q [] = omega arith
split_any-pieces q (c ∷ s) = elim (Bool-cases (q c)) [
  | inl t ↦ rw t (omega arith)
  | inr f ↦ rw f (go (split_any q s))
]
  where
    go : (ws : List (List ℕ)) → 0 < length (cons_first c ws)
    go [] = omega arith
    go (w ∷ ws) = omega arith

append_all-ends :
    (c : ℕ) (p : ℕ → Bool) (ws : List (List ℕ))
    → p c ≡ true
    → 0 < length ws
    → append_all (split_any p) (cons_first c ws) ≡ [] ∷ append_all (split_any p) ws
unfolding split_any
append_all-ends c p [] t h = absurd (omega arith)
append_all-ends c p (w ∷ ws) t h = rw t refl

append_all-split_any :
    (p q : ℕ → Bool) (s : List ℕ)
    → append_all (split_any p) (split_any q s) ≡ split_any (λ c. q c || p c) s
unfolding split_any
append_all-split_any p q [] = refl
append_all-split_any p q (c ∷ s) = elim (Bool-cases (q c)) [
  | inl t ↦ rw t (ap (λ ws. [] ∷ ws) (append_all-split_any p q s))
  | inr f ↦ elim (Bool-cases (p c)) [
    | inl t ↦
        rw (f, t)
          (append_all-ends c p (split_any q s) t (split_any-pieces q s)
            ∙ ap (λ ws. [] ∷ ws) (append_all-split_any p q s))
    | inr g ↦
        rw (f, g) (append_all-cons_first c p q s g ∙ ap (cons_first c) (append_all-split_any p q s))
  ]
]

or_false : (b : Bool) → b ≡ (b || false)
or_false true = refl
or_false false = refl

-- For every text and list of separators of one byte, `splitMultiSep`, which splits at one separator
-- after the other, gives the pieces of one pass that ends a piece at any of the separators.
pub split_multi_sep-split_any :
    (s seps : List ℕ) → split_multi_sep s (single_bytes seps) ≡ split_any (among seps) s
unfolding split_multi_sep
split_multi_sep-split_any s [] = split_any-never s
split_multi_sep-split_any s (sep ∷ []) =
    split_any-split sep s ∙ split_any-ext _ _ s (λ c. or_false (c == sep))
split_multi_sep-split_any s (sep ∷ next ∷ seps) =
    append_all-ext _ _ (split (sep ∷ []) s) (λ r. split_multi_sep-split_any r (next ∷ seps))
    ∙ ap (append_all (split_any (among (next ∷ seps)))) (split_any-split sep s)
    ∙ append_all-split_any (among (next ∷ seps)) (λ c. c == sep) s
