-- ===== src/Token/Reprint.antt =====
-- token/lexer.go: `next` splits its input into the text of the token and the rest.
use sqls.Base.{
  List, [], ap, append_assoc, arith, drop_while, false, head_is, if_cases, if◌then◌else◌, length,
  not, refl, skip, subst, take_while-append-drop_while, true, ℕ, ◌&&◌, ◌++◌, ◌==◌, ◌||◌, ◌∙◌, ◌∷◌,
  ◌≡◌,
}
use sqls.Dialect.Rules.{Dialect}
use sqls.Token.Kind.{div, national_string_literal, number, single_quoted_string}
use sqls.Token.Word.{make_keyword, make_word, matching_end_quote, word_string}
use sqls.Token.Quoted.{delimited_loop}
use sqls.Token.Step.{
  Tokenizer, Outcome, flat, next_bang, next_colon, next_comment, next_greater, next_less,
  next_minus, or_false, is_digit, next_dollar, next_escape, next_quoted, number_run, preserves,
}
use sqls.Token.Lexer.{next_delimited, next_other, next_symbol, next_word, single_kind, next_rune}
use sqls.Token.Verbatim.{delimited_loop-verbatim, has_cr, has_cr-skip, number_run-verbatim}
use sqls.Token.Lossless.{
  Splits, IsVerbatim, next_comment-Splits, next_dollar-Splits, skip_head, next_escape-Splits,
  next_national-Splits, next_quoted-Splits,
}

-- A branch that is taken at the rune `c`.
at_rune :
    (c r : ℕ) (rest : List ℕ) (x : Outcome × Tokenizer)
    → (r == c) ≡ true
    → Splits (c ∷ rest) x
    → Splits (r ∷ rest) x
at_rune c r rest x e h = ground arith

module _ (t : Tokenizer) (rest : List ℕ) where
  next_minus-Splits : Splits (b'-' ∷ rest) (next_minus t rest)
  unfolding next_minus
  next_minus-Splits =
      if_cases (Splits (b'-' ∷ rest)) (head_is b'-' rest) _ _
        (λ e. ap (◌∷◌ b'-') (
          ap (◌∷◌ b'-') (take_while-append-drop_while (λ c. not (c == b'\n')) (skip rest))
          ∙ skip_head b'-' rest e))
        (λ _. refl)

  next_bang-Splits : Splits (b'!' ∷ rest) (next_bang t rest)
  unfolding next_bang
  next_bang-Splits =
      if_cases (Splits (b'!' ∷ rest)) (head_is b'=' rest) _ _
        (λ e. ap (◌∷◌ b'!') (skip_head b'=' rest e)) (λ _. refl)

  next_less-Splits : Splits (b'<' ∷ rest) (next_less t rest)
  unfolding next_less
  next_less-Splits =
      if_cases (Splits (b'<' ∷ rest)) (head_is b'=' rest) _ _
        (λ e. ap (◌∷◌ b'<') (skip_head b'=' rest e))
        (λ _.
          if_cases (Splits (b'<' ∷ rest)) (head_is b'>' rest) _ _
            (λ e. ap (◌∷◌ b'<') (skip_head b'>' rest e)) (λ _. refl))

  next_greater-Splits : Splits (b'>' ∷ rest) (next_greater t rest)
  unfolding next_greater
  next_greater-Splits =
      if_cases (Splits (b'>' ∷ rest)) (head_is b'=' rest) _ _
        (λ e. ap (◌∷◌ b'>') (skip_head b'=' rest e)) (λ _. refl)

  next_colon-Splits : Splits (b':' ∷ rest) (next_colon t rest)
  unfolding next_colon
  next_colon-Splits =
      if_cases (Splits (b':' ∷ rest)) (head_is b':' rest) _ _
        (λ e. ap (◌∷◌ b':') (skip_head b':' rest e)) (λ _. refl)

  next_slash-Splits :
      has_cr rest ≡ false
      → Splits
          (b'/' ∷ rest)
          (if head_is b'*' rest then next_comment t (skip rest) else flat t div (b'/' ∷ []) 1 rest)
  next_slash-Splits h =
      if_cases (Splits (b'/' ∷ rest)) (head_is b'*' rest) _ _
        (λ e.
          subst (λ x. Splits (b'/' ∷ x) (next_comment t (skip rest))) (skip_head b'*' rest e)
            (next_comment-Splits t (skip rest) (has_cr-skip rest h)))
        (λ _. refl)

  single-Splits : (r : ℕ) → Splits (r ∷ rest) (flat t (single_kind r) (r ∷ []) 1 rest)
  single-Splits r = ground arith

  next_symbol-Splits :
      (d : Dialect) (r : ℕ) → has_cr rest ≡ false → Splits (r ∷ rest) (next_symbol d t r rest)
  unfolding next_symbol
  next_symbol-Splits d r h =
      let P = Splits (r ∷ rest) in
      if_cases P (r == b'-') _ _ (λ e. at_rune b'-' r rest (next_minus t rest) e next_minus-Splits)
        (λ _.
          if_cases P (r == b'/') _ _
            (λ e.
              at_rune b'/' r rest
                (if head_is b'*' rest
                  then next_comment t (skip rest)
                  else flat t div (b'/' ∷ []) 1 rest)
                e (next_slash-Splits h))
            (λ _.
              if_cases P (r == b'!') _ _
                (λ e. at_rune b'!' r rest (next_bang t rest) e next_bang-Splits)
                (λ _.
                  if_cases P (r == b'<') _ _
                    (λ e. at_rune b'<' r rest (next_less t rest) e next_less-Splits)
                    (λ _.
                      if_cases P (r == b'>') _ _
                        (λ e. at_rune b'>' r rest (next_greater t rest) e next_greater-Splits)
                        (λ _.
                          if_cases P (r == b':') _ _
                            (λ e. at_rune b':' r rest (next_colon t rest) e next_colon-Splits)
                            (λ _.
                              if_cases P (r == b'$' && or_false d.supports_dollar_quoted_strings) _
                                _
                                (λ e.
                                  at_rune b'$' r rest (next_dollar t rest) (ground arith)
                                    (next_dollar-Splits t rest))
                                (λ _. single-Splits r)))))))

module _ (up : List ℕ → List ℕ) (d : Dialect) (v : IsVerbatim d) (t : Tokenizer) (r : ℕ)
    (rest : List ℕ) where
  make_keyword-string : (s : List ℕ) → word_string (make_keyword up d s 0) ≡ s
  unfolding make_keyword make_word word_string
  make_keyword-string s = ground arith

  next_word-Splits : Splits (r ∷ rest) (next_word up d t r rest)
  unfolding next_word
  next_word-Splits =
      ap (λ x. x ++ drop_while d.is_identifier_part rest) (make_keyword-string _)
      ∙ ap (◌∷◌ r) (take_while-append-drop_while d.is_identifier_part rest)

  make_word-string_plain : (s : List ℕ) → word_string (make_word up s 0) ≡ s
  unfolding make_word word_string
  make_word-string_plain s = refl

  make_word-string_quoted :
      (s : List ℕ)
      → (r == b'"' || r == b'[' || r == b'`') ≡ true
      → word_string (make_word up s r) ≡ r ∷ s ++ matching_end_quote r ∷ []
  unfolding make_word word_string
  make_word-string_quoted s h = rw h

  next_delimited-Splits :
      d.is_delimited_identifier_start r ≡ true → Splits (r ∷ rest) (next_delimited up d t r rest)
  unfolding next_delimited
  next_delimited-Splits h = rw v.whole (
      let end = matching_end_quote r in
      let s = delimited_loop end true rest in
      let e = delimited_loop-verbatim end rest in
      if_cases (Splits (r ∷ rest)) s.closed _ _
        (λ c.
          ap (λ x. x ++ s.left) (make_word-string_quoted s.str (v.quotes r h))
          ∙ ap (◌∷◌ r) (append_assoc s.str (end ∷ []) s.left ∙ rw c at e))
        (λ c. ap (λ x. x ++ s.left) (make_word-string_plain (r ∷ s.str)) ∙ ap (◌∷◌ r) (rw c at e)))

  -- A quote behind the rune.
  behind_quote :
      (x : Outcome × Tokenizer)
      → head_is b'\'' rest ≡ true
      → Splits (r ∷ b'\'' ∷ skip rest) x
      → Splits (r ∷ rest) x
  behind_quote x e h = subst (λ s. Splits (r ∷ s) x) (skip_head b'\'' rest e) h

  number-Splits : Splits (r ∷ rest) (
      flat t number
        (number_run false (r ∷ rest)).0
        (length (number_run false (r ∷ rest)).0)
        (number_run false (r ∷ rest)).1)
  number-Splits = number_run-verbatim false (r ∷ rest)

  -- The case of the rune `N`.
  next_national-or_word :
      (r == b'N') ≡ true
      → Splits (r ∷ rest) (
          if head_is b'\'' rest
          then next_quoted national_string_literal b'\'' (preserves d) t 1 (skip rest)
          else next_word up d t b'N' rest)
  next_national-or_word e = rw v.escapes (
      if_cases (Splits (r ∷ rest)) (head_is b'\'' rest) _ _
        (λ q.
          at_rune b'N' r rest (next_quoted national_string_literal b'\'' true t 1 (skip rest)) e (
            subst
              (λ s.
                Splits (b'N' ∷ s) (next_quoted national_string_literal b'\'' true t 1 (skip rest)))
              (skip_head b'\'' rest q) (next_national-Splits t (skip rest))))
        (λ _.
          subst (λ c. Splits (r ∷ rest) (next_word up d t c rest)) (ground arith) next_word-Splits))

  next_other-Splits : has_cr rest ≡ false → Splits (r ∷ rest) (next_other up d t r rest)
  unfolding next_other
  next_other-Splits h =
      let P = Splits (r ∷ rest) in
      if_cases P (r == b'N') _ _ next_national-or_word (λ _.
        if_cases P ((r == b'E' || r == b'e') && or_false d.supports_escape_string_literals) _ _
          (λ _.
            if_cases P (head_is b'\'' rest) _ _
              (λ q.
                behind_quote (next_escape r t (skip rest)) q (next_escape-Splits r t (skip rest)))
              (λ _. next_word-Splits))
          (λ _.
            if_cases P (d.is_identifier_start r) _ _ (λ _. next_word-Splits)
              (λ _.
                if_cases P (r == b'\'') _ _
                  (λ e. rw v.escapes (
                    at_rune b'\'' r rest (next_quoted single_quoted_string b'\'' true t 0 rest) e
                      (next_quoted-Splits t 0 b'\'' rest)))
                  (λ _.
                    if_cases P (r == b'"' && not (d.is_delimited_identifier_start r)) _ _
                      (λ e.
                        at_rune b'"' r rest (next_quoted single_quoted_string b'"' true t 0 rest)
                          (ground arith) (next_quoted-Splits t 0 b'"' rest))
                      (λ _.
                        if_cases P (d.is_delimited_identifier_start r) _ _ next_delimited-Splits
                          (λ _.
                            if_cases P (is_digit r) _ _ (λ _. number-Splits)
                              (λ _. next_symbol-Splits t rest d r h)))))))

  pub next_rune-Splits : has_cr (r ∷ rest) ≡ false → Splits (r ∷ rest) (next_rune up d t r rest)
  unfolding next_rune
  next_rune-Splits h =
      let P = Splits (r ∷ rest) in
      if_cases P (r == b' ') _ _ (λ e. ground arith)
        (λ _.
          if_cases P (r == b'\t') _ _ (λ e. ground arith)
            (λ _.
              if_cases P (r == b'\n') _ _ (λ e. ground arith)
                (λ _.
                  if_cases P (r == b'\r') _ _ (λ e. absurd (ground arith))
                    (λ _. next_other-Splits (ground arith)))))
