-- ===== src/QueryType/Results.antt =====
-- internal/database/query_type.go: the results of `QueryExecType`.
use sqls.Base.{
  Bool, Bool-cases, List, Option, [], arith, codes, eqb, false, if◌then◌else◌, inl, inr, is_empty,
  leb, length, none, not, refl, some, subst, suc, sym, true, zero, ℕ, ◌&&◌, ◌<◌, ◌↔◌, ◌∷◌, ◌≡◌, ◌≤◌,
  ◌⊎◌,
}
use sqls.QueryParams.Trivia.{trim_leading_trivia}
use sqls.QueryType.Split.{split_any, among}
use sqls.QueryType.Words.{split_any-pieces, split_multi_sep-split_any}
use sqls.QueryType.Kind.{
  in_exec_map, in_query_map, longest_match, join, prefix, exec_kind, first_word, has_equals,
  query_kind, second_is, separators, kind_of_words, normalize, query_exec_type, match_or,
}

-- A type that is a prefix of the words in `execMap`, and no longer prefix is in it.
abbrev pub IsLongest : ℕ → List (List ℕ) → List ℕ → Type 0
IsLongest n ws typ =
    (i : ℕ) × (0 < i)
    × (i ≤ n)
    × (typ ≡ join (prefix i ws))
    × (in_exec_map typ ≡ true)
    × ((j : ℕ) → i < j → j ≤ n → in_exec_map (join (prefix j ws)) ≡ false)

abbrev pub NoMatch : ℕ → List (List ℕ) → Type 0
NoMatch n ws = (j : ℕ) → 0 < j → j ≤ n → in_exec_map (join (prefix j ws)) ≡ false

-- The test of a round.
abbrev Matched : ℕ → List (List ℕ) → Option (List ℕ) → Type 0
Matched n ws none = NoMatch n ws
Matched n ws (some typ) = IsLongest n ws typ

Matched-suc :
    (n : ℕ) (ws : List (List ℕ)) (o : Option (List ℕ))
    → Matched n ws o
    → in_exec_map (join (prefix (suc n) ws)) ≡ false
    → Matched (suc n) ws o
Matched-suc n ws none m f = λ j a b. elim (Bool-cases (leb j n)) [
  | inl low ↦ m j a (ground (arith, low))
  | inr top ↦
      subst (λ k. in_exec_map (join (prefix k ws)) ≡ false) {x = suc n} {y = j}
        (ground (arith, top, b)) f
]
Matched-suc n ws (some typ) (i, a, b, e, t, m) f = (
  i,
  a,
  omega arith,
  e,
  t,
  (λ j c d. elim (Bool-cases (leb j n)) [
    | inl low ↦ m j c (ground (arith, low))
    | inr top ↦
        subst (λ k. in_exec_map (join (prefix k ws)) ≡ false) {x = suc n} {y = j}
          (ground (arith, top, d)) f
  ]),
)

longest_match-Matched : (n : ℕ) (ws : List (List ℕ)) → Matched n ws (longest_match n ws)
unfolding longest_match
longest_match-Matched zero ws = λ j a b. absurd (omega arith)
longest_match-Matched (suc n) ws = elim (Bool-cases (in_exec_map (join (prefix (suc n) ws)))) [
  | inl t ↦ rw t (suc n, omega arith, omega arith, refl, t, (λ j a b. absurd (omega arith)))
  | inr f ↦ rw f (Matched-suc n ws (longest_match n ws) (longest_match-Matched n ws) f)
]

-- The longest prefix of the words that `execMap` has, or else the first word.
abbrev pub IsNamed : List ℕ → List (List ℕ) → List ℕ → Type 0
IsNamed pref ws typ = IsLongest (length ws) ws typ ⊎ (NoMatch (length ws) ws × (typ ≡ pref))

match_or-IsNamed :
    (pref : List ℕ) (n : ℕ) (ws : List (List ℕ)) (o : Option (List ℕ))
    → Matched n ws o
    → IsLongest n ws (match_or pref o).0 ⊎ (NoMatch n ws × ((match_or pref o).0 ≡ pref))
match_or-IsNamed pref n ws none m = inr (m, refl)
match_or-IsNamed pref n ws (some typ) m = inl m

match_or-false : (pref : List ℕ) (o : Option (List ℕ)) → (match_or pref o).1 ≡ false
match_or-false pref none = refl
match_or-false pref (some typ) = refl

-- The tests for a query.
query_tests :
    (x y z : List ℕ) (a b c : Bool)
    → ((if◌then◌else◌ {A = List ℕ × Bool} a (x, false) (if b then (y, not c) else (z, true))).1
        ≡ true)
      ↔ ((a ≡ false) × (b ≡ true → c ≡ false))
query_tests x y z true b c = (λ h. cc, λ (p, q). cc)
query_tests x y z false true true = (λ h. cc, λ (p, q). cc (q refl))
query_tests x y z false true false = (λ h. (refl, λ e. refl), λ h. refl)
query_tests x y z false false c = (λ h. (refl, λ e. cc), λ h. refl)

module _ (trim_space to_upper : List ℕ → List ℕ) where
  -- The words of a text, and the first of them that is not blank, in upper case.
  abbrev pub words_of : List ℕ → List (List ℕ)
  words_of text = split_any (among separators) (trim_leading_trivia text)

  abbrev pub leading : List ℕ → List ℕ
  leading text = first_word trim_space to_upper (words_of text)

  -- What makes a statement a query.
  pub record IsQuery (text sqlstr : List ℕ) : Type 0 where
    pub some_text : is_empty (trim_leading_trivia text) ≡ false
    pub listed : in_query_map (leading text) ≡ true
    pub not_into :
        (eqb (leading text) (codes "SELECT") && second_is (codes "INTO") (words_of text)) ≡ false
    pub plain : eqb (leading text) (codes "PRAGMA") ≡ true → has_equals sqlstr ≡ false

  query_kind_iff :
      (pref : List ℕ) (sp : List (List ℕ)) (sqlstr : List ℕ)
      → ((query_kind trim_space to_upper pref sp sqlstr).1 ≡ true) ↔ (
          ((eqb pref (codes "SELECT") && second_is (codes "INTO") sp) ≡ false)
          × (eqb pref (codes "PRAGMA") ≡ true → has_equals sqlstr ≡ false))
  query_kind_iff pref sp sqlstr =
      query_tests _ _ _ (eqb pref (codes "SELECT") && second_is (codes "INTO") sp)
        (eqb pref (codes "PRAGMA")) (has_equals sqlstr)

  exec_kind-false :
      (pref : List ℕ) (sp : List (List ℕ)) → (exec_kind trim_space to_upper pref sp).1 ≡ false
  unfolding exec_kind
  exec_kind-false pref sp =
      let words = normalize pref sp in match_or-false pref (longest_match (length words) words)

  -- The results for words.
  kind_of_words_iff :
      (e : Bool) (ws : List (List ℕ)) (sqlstr : List ℕ)
      → 0 < length ws
      → ((if e then (codes "EXEC", false) else kind_of_words trim_space to_upper ws sqlstr).1
          ≡ true)
        ↔ ((e ≡ false)
            × (in_query_map (first_word trim_space to_upper ws) ≡ true)
            × ((eqb (first_word trim_space to_upper ws) (codes "SELECT")
                  && second_is (codes "INTO") ws)
                ≡ false)
            × (eqb (first_word trim_space to_upper ws) (codes "PRAGMA") ≡ true
                → has_equals sqlstr ≡ false))
  unfolding kind_of_words
  kind_of_words_iff true ws sqlstr h = (λ k. cc, λ (a, b, c, d). cc)
  kind_of_words_iff false [] sqlstr h = absurd (omega arith)
  kind_of_words_iff false (w ∷ ws) sqlstr h =
      let pref = first_word trim_space to_upper (w ∷ ws) in
      elim (Bool-cases (in_query_map pref)) [
        | inl t ↦
            let k = query_kind_iff pref (w ∷ ws) sqlstr in
            rw t (λ q. let (c, d) = k.0 q in (refl, refl, c, d), λ (a, b, c, d). k.1 (c, d))
        | inr f ↦ rw f (λ q. cc (exec_kind-false pref (w ∷ ws), q), λ (a, b, c, d). cc)
      ]

  -- `QueryExecType` takes a statement for a query exactly where, behind its leading comments, there
  -- is text whose first word that is not blank, in upper case, is in `queryMap`, the statement is
  -- not `SELECT` with `INTO` as its next piece, and, for a `PRAGMA`, the second argument has no
  -- `=`. The pieces are those of one pass over the text that ends a piece at every space, tab and
  -- line feed.
  pub query_exec_type_iff :
      (text sqlstr : List ℕ)
      → ((query_exec_type trim_space to_upper text sqlstr).1 ≡ true) ↔ IsQuery text sqlstr
  unfolding query_exec_type
  query_exec_type_iff text sqlstr =
      let trimmed = trim_leading_trivia text in
      let k =
        kind_of_words_iff (is_empty trimmed) (words_of text) sqlstr
          (split_any-pieces (among separators) trimmed) in
      subst
        (λ ws.
          ((if is_empty trimmed
              then (codes "EXEC", false)
              else kind_of_words trim_space to_upper ws sqlstr).1
            ≡ true)
          ↔ IsQuery text sqlstr)
        (sym (split_multi_sep-split_any trimmed separators))
        (
          λ q.
              let (a, b, c, d) = k.0 q in
              record { some_text = a; listed = b; not_into = c; plain = d },
          λ i. k.1 (i.some_text, i.listed, i.not_into, i.plain),
        )

  -- The type of a statement that is no query.
  exec_kind-IsNamed :
      (pref : List ℕ) (sp : List (List ℕ))
      → IsNamed pref (normalize pref sp) (exec_kind trim_space to_upper pref sp).0
  unfolding exec_kind
  exec_kind-IsNamed pref sp =
      let words = normalize pref sp in
      match_or-IsNamed pref (length words) words (longest_match (length words) words)
        (longest_match-Matched (length words) words)

  kind_of_words-IsNamed :
      (ws : List (List ℕ)) (sqlstr : List ℕ)
      → 0 < length ws
      → in_query_map (first_word trim_space to_upper ws) ≡ false
      → IsNamed
          (first_word trim_space to_upper ws)
          (normalize (first_word trim_space to_upper ws) ws)
          (kind_of_words trim_space to_upper ws sqlstr).0
  unfolding kind_of_words
  kind_of_words-IsNamed [] sqlstr h b = absurd (omega arith)
  kind_of_words-IsNamed (w ∷ ws) sqlstr h b =
      rw b (exec_kind-IsNamed (first_word trim_space to_upper (w ∷ ws)) (w ∷ ws))

  -- For a statement that is not empty and whose first word is not in `queryMap`, the type that
  -- `QueryExecType` gives is a prefix of the normalized words that `execMap` has, while it has no
  -- longer prefix; or no prefix is there and the type is the first word.
  pub query_exec_type-IsNamed :
      (text sqlstr : List ℕ)
      → is_empty (trim_leading_trivia text) ≡ false
      → in_query_map (leading text) ≡ false
      → IsNamed
          (leading text)
          (normalize (leading text) (words_of text))
          (query_exec_type trim_space to_upper text sqlstr).0
  unfolding query_exec_type
  query_exec_type-IsNamed text sqlstr a b =
      let trimmed = trim_leading_trivia text in
      subst
        (λ ws.
          IsNamed (leading text) (normalize (leading text) (words_of text))
            (if◌then◌else◌ {A = List ℕ × Bool} (is_empty trimmed) (codes "EXEC", false)
              (kind_of_words trim_space to_upper ws sqlstr)).0)
        (sym (split_multi_sep-split_any trimmed separators))
        (rw a (
          kind_of_words-IsNamed (words_of text) sqlstr (split_any-pieces (among separators) trimmed)
            b))
