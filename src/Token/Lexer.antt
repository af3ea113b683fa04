-- ===== src/Token/Lexer.antt =====
-- token/lexer.go: `next`, in the order of its cases.
use sqls.Base.{
  List, [], drop_while, false, head_is, if◌then◌else◌, length, not, skip, take_while, true, ℕ, ◌&&◌,
  ◌+◌, ◌==◌, ◌||◌, ◌∷◌,
}
use sqls.Dialect.Rules.{Dialect}
use sqls.Token.Kind.{
  Kind, ampersand, backslash, caret, char, comma, div, eq, l_brace, l_bracket, l_paren, mod_sign,
  mult, national_string_literal, number, period, plus, r_brace, r_bracket, r_paren, semicolon,
  single_quoted_string, sql_keyword, whitespace,
}
use sqls.Token.Word.{make_keyword, make_word, matching_end_quote, word}
use sqls.Token.Quoted.{delimited_loop}
use sqls.Token.Step.{
  Tokenizer, Outcome, eof, flat, is_digit, newline, next_bang, next_colon, next_comment,
  next_dollar, next_dollar_body, next_escape, next_greater, next_less, next_minus, next_quoted,
  number_run, or_false, preserves, token,
}

-- The tokens of one rune whatever follows, and the kind of any other rune. `?` is a `Char` whether
-- or not the dialect has it as a placeholder.
abbrev pub single_kind : ℕ → Kind
single_kind r =
    if r == b'('
    then l_paren
    else if r == b')'
    then r_paren
    else if r == b','
    then comma
    else if r == b'+'
    then plus
    else if r == b'*'
    then mult
    else if r == b'%'
    then mod_sign
    else if r == b'^'
    then caret
    else if r == b'='
    then eq
    else if r == b'.'
    then period
    else if r == b';'
    then semicolon
    else if r == b'\\'
    then backslash
    else if r == b'['
    then l_bracket
    else if r == b']'
    then r_bracket
    else if r == b'&'
    then ampersand
    else if r == b'{'
    then l_brace
    else if r == b'}'
    then r_brace
    else char

-- The cases of `next` from `'('` on.
unfoldable pub next_symbol : Dialect → Tokenizer → ℕ → List ℕ → Outcome × Tokenizer
next_symbol d t r rest =
    if r == b'-'
    then next_minus t rest
    else if r == b'/'
    then (if head_is b'*' rest then next_comment t (skip rest) else flat t div (b'/' ∷ []) 1 rest)
    else if r == b'!'
    then next_bang t rest
    else if r == b'<'
    then next_less t rest
    else if r == b'>'
    then next_greater t rest
    else if r == b':'
    then next_colon t rest
    else if r == b'$' && or_false d.supports_dollar_quoted_strings
    then next_dollar t rest
    else flat t (single_kind r) (r ∷ []) 1 rest

module _ (to_upper : List ℕ → List ℕ) (d : Dialect) where
  -- `tokenizeWord` and `makeKeyword`
  unfoldable pub next_word : Tokenizer → ℕ → List ℕ → Outcome × Tokenizer
  next_word t r rest =
      let str = r ∷ take_while d.is_identifier_part rest in
      (
        token sql_keyword (word (make_keyword to_upper d str 0)),
        record {
          input = drop_while d.is_identifier_part rest;
          line = t.line;
          col = t.col + length str;
        },
      )

  -- `tokenizeDelimitedIdentifier`
  unfoldable pub next_delimited : Tokenizer → ℕ → List ℕ → Outcome × Tokenizer
  next_delimited t r rest =
      let s =
        delimited_loop (matching_end_quote r) (or_false d.scans_whole_delimited_identifier) rest in
      if s.closed
      then (
        token sql_keyword (word (make_word to_upper s.str r)),
        record { input = s.left; line = t.line; col = t.col + (2 + length s.str) },
      )
      else (
        token sql_keyword (word (make_word to_upper (r ∷ s.str) 0)),
        record { input = s.left; line = t.line; col = t.col + (1 + length s.str) },
      )

  -- The cases of `next` for words, literals and numbers.
  unfoldable pub next_other : Tokenizer → ℕ → List ℕ → Outcome × Tokenizer
  next_other t r rest =
      let digits = number_run false (r ∷ rest) in
      if r == b'N'
      then (if head_is b'\'' rest
          then next_quoted national_string_literal b'\'' (preserves d) t 1 (skip rest)
          else next_word t b'N' rest)
      else if (r == b'E' || r == b'e') && or_false d.supports_escape_string_literals
      then (if head_is b'\'' rest then next_escape r t (skip rest) else next_word t r rest)
      else if d.is_identifier_start r
      then next_word t r rest
      else if r == b'\''
      then next_quoted single_quoted_string b'\'' (preserves d) t 0 rest
      else if r == b'"' && not (d.is_delimited_identifier_start r)
      then next_quoted single_quoted_string b'"' true t 0 rest
      else if d.is_delimited_identifier_start r
      then next_delimited t r rest
      else if is_digit r
      then flat t number digits.0 (length digits.0) digits.1
      else next_symbol d t r rest

  -- `next` at the rune `r` with `rest` behind it.
  unfoldable pub next_rune : Tokenizer → ℕ → List ℕ → Outcome × Tokenizer
  next_rune t r rest =
      if r == b' '
      then flat t whitespace (b' ' ∷ []) 1 rest
      else if r == b'\t'
      then flat t whitespace (b'\t' ∷ []) 1 rest
      else if r == b'\n'
      then newline t (b'\n' ∷ []) rest
      else if r == b'\r'
      then newline t (b'\n' ∷ []) (if head_is b'\n' rest then skip rest else rest)
      else next_other t r rest

  abbrev pub next_from : Tokenizer → List ℕ → Outcome × Tokenizer
  next_from t [] = (eof, t)
  next_from t (r ∷ rest) = next_rune t r rest

  -- `(*Tokenizer).next`
  unfoldable pub next : Tokenizer → Outcome × Tokenizer
  unfolding next_rune next_other next_symbol next_word next_delimited next_quoted next_escape
      next_comment next_dollar next_dollar_body next_minus next_bang next_less next_greater
      next_colon
  next t = next_from t t.input
