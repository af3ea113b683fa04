-- ===== src/Token/Step.antt =====
-- token/lexer.go: the state of the tokenizer, the results of `next`, and the cases of `next` that look
-- behind the rune. The scanner is the list of the runes that it has still to give; its EOF is the end
-- of that list. An error of `next` is a constructor of `Outcome` of its own.
use sqls.Base.{
  Bool, List, Option, [], drop_while, false, head_is, if◌then◌else◌, length, none, not, skip, some,
  take_while, true, within, ℕ, ◌&&◌, ◌++◌, ◌+◌, ◌==◌, ◌||◌, ◌∷◌,
}
use sqls.Dialect.Rules.{Dialect}
use sqls.Token.Kind.{
  Kind, char, colon, comment, double_colon, gt, gt_eq, lt, lt_eq, minus, multiline_comment, neq,
  single_quoted_string, whitespace,
}
use sqls.Token.Word.{Value, text}
use sqls.Token.Quoted.{
  Cursor, Moved, comment_loop, dollar_loop, escape_loop, quoted_loop, quoted_text,
}

pub record Tokenizer : Type 0 where
  pub input : List ℕ
  pub line : ℕ
  pub col : ℕ

-- The results of `next`: a token, `io.EOF`, an unclosed comment with its text, an illegal sequence.
pub data Outcome : Type 0 where
  token : Kind → Value → Outcome
  eof illegal_sequence : Outcome
  unclosed_comment : List ℕ → Outcome

abbrev pub or_false : Option Bool → Bool
or_false none = false
or_false (some b) = b

-- `tokenizeSingleQuotedString`: the choice of `preserve`.
unfoldable pub preserves : Dialect → Bool
preserves d = elim d.preserves_quoted_string_escapes [
  | none ↦ not (d.is_delimited_identifier_start b'"')
  | some p ↦ p
]

abbrev pub is_digit : ℕ → Bool
is_digit r = within b'0' b'9' r

-- The loop over the runes of a number, and what it leaves; the flag is `hasE`.
unfoldable pub number_run : Bool → List ℕ → List ℕ × List ℕ
number_run has_e [] = ([], [])
number_run has_e (n ∷ []) =
    if is_digit n || n == b'.'
    then (n ∷ [], [])
    else if not has_e && (n == b'e' || n == b'E')
    then (n ∷ [], [])
    else ([], n ∷ [])
number_run has_e (n ∷ s ∷ rest) =
    let same = number_run has_e (s ∷ rest) in
    let unsigned = number_run true (s ∷ rest) in
    let signed = number_run true rest in
    if is_digit n || n == b'.'
    then (n ∷ same.0, same.1)
    else if not has_e && (n == b'e' || n == b'E')
    then (if s == b'+' || s == b'-'
        then (n ∷ s ∷ signed.0, signed.1)
        else (n ∷ unsigned.0, unsigned.1))
    else ([], n ∷ s ∷ rest)

-- The runes of the text as one token, `cols` columns wide.
abbrev pub flat : Tokenizer → Kind → List ℕ → ℕ → List ℕ → Outcome × Tokenizer
flat t kind str cols left =
    (token kind (text str), record { input = left; line = t.line; col = t.col + cols })

abbrev pub newline : Tokenizer → List ℕ → List ℕ → Outcome × Tokenizer
newline t str left =
    (token whitespace (text str), record { input = left; line = t.line + 1; col = 0 })

abbrev pub moved : Kind → List ℕ → Moved → Outcome × Tokenizer
moved kind str r =
    (token kind (text str), record { input = r.left; line = r.cursor.line; col = r.cursor.col })

abbrev pub cursor_at : Tokenizer → ℕ → Cursor
cursor_at t cols = record { line = t.line; col = t.col + cols; last_was_cr = false }

-- `tokenizeQuotedString` behind `cols` columns of the token, `rest` being behind the quote.
unfoldable pub next_quoted : Kind → ℕ → Bool → Tokenizer → ℕ → List ℕ → Outcome × Tokenizer
next_quoted kind quote preserve t cols rest =
    let r = quoted_loop quote preserve rest in
    flat t kind (quoted_text quote r) (cols + 1 + r.cols) r.left

-- `tokenizeEscapeQuotedString` behind the prefix `e`.
unfoldable pub next_escape : ℕ → Tokenizer → List ℕ → Outcome × Tokenizer
next_escape e t rest =
    let r = escape_loop (cursor_at t 2) rest in
    let body = if r.closed then r.str ++ b'\'' ∷ [] else r.str in
    moved single_quoted_string (e ∷ b'\'' ∷ body) r

-- `tokenizeMultilineComment`
unfoldable pub next_comment : Tokenizer → List ℕ → Outcome × Tokenizer
next_comment t rest =
    let r = comment_loop false (cursor_at t 2) rest in
    if r.closed
    then moved multiline_comment r.str r
    else (unclosed_comment r.str, (moved multiline_comment r.str r).1)

abbrev pub is_dollar_tag_start : ℕ → Bool
is_dollar_tag_start r = r == b'_' || within b'a' b'z' r || within b'A' b'Z' r

abbrev pub is_dollar_tag_part : ℕ → Bool
is_dollar_tag_part r = is_dollar_tag_start r || is_digit r

-- `tokenizeDollarQuotedString` behind the opening delimiter.
unfoldable pub next_dollar_body : Tokenizer → List ℕ → List ℕ → Outcome × Tokenizer
next_dollar_body t delimiter rest =
    let r = dollar_loop delimiter [] (cursor_at t (length delimiter)) rest in
    let body = if r.closed then r.str ++ delimiter else r.str in
    moved single_quoted_string (delimiter ++ body) r

-- `tokenizeDollarQuotedString` behind the first `$`.
unfoldable pub next_dollar : Tokenizer → List ℕ → Outcome × Tokenizer
next_dollar t [] = flat t char (b'$' ∷ []) 1 []
next_dollar t (first ∷ rest) =
    let tag = take_while is_dollar_tag_part (first ∷ rest) in
    let behind = drop_while is_dollar_tag_part (first ∷ rest) in
    if first == b'$'
    then next_dollar_body t (b'$' ∷ b'$' ∷ []) rest
    else if is_dollar_tag_start first
    then (if head_is b'$' behind
        then next_dollar_body t (b'$' ∷ tag ++ b'$' ∷ []) (skip behind)
        else flat t char (b'$' ∷ tag) (1 + length tag) behind)
    else flat t char (b'$' ∷ []) 1 (first ∷ rest)

-- `case r == '-'`, `'!'`, `'<'`, `'>'` and `':'`, with what is behind the rune.
unfoldable pub next_minus : Tokenizer → List ℕ → Outcome × Tokenizer
next_minus t rest =
    let body = take_while (λ c. not (c == b'\n')) (skip rest) in
    if head_is b'-' rest
    then flat t comment body (length body + 2) (drop_while (λ c. not (c == b'\n')) (skip rest))
    else flat t minus (b'-' ∷ []) 1 rest

unfoldable pub next_bang : Tokenizer → List ℕ → Outcome × Tokenizer
next_bang t rest =
    if head_is b'=' rest
    then flat t neq (b'!' ∷ b'=' ∷ []) 2 (skip rest)
    else (illegal_sequence, record t { input = rest })

unfoldable pub next_less : Tokenizer → List ℕ → Outcome × Tokenizer
next_less t rest =
    if head_is b'=' rest
    then flat t lt_eq (b'<' ∷ b'=' ∷ []) 2 (skip rest)
    else if head_is b'>' rest
    then flat t neq (b'<' ∷ b'>' ∷ []) 2 (skip rest)
    else flat t lt (b'<' ∷ []) 1 rest

unfoldable pub next_greater : Tokenizer → List ℕ → Outcome × Tokenizer
next_greater t rest =
    if head_is b'=' rest
    then flat t gt_eq (b'>' ∷ b'=' ∷ []) 2 (skip rest)
    else flat t gt (b'>' ∷ []) 1 rest

unfoldable pub next_colon : Tokenizer → List ℕ → Outcome × Tokenizer
next_colon t rest =
    if head_is b':' rest
    then flat t double_colon (b':' ∷ b':' ∷ []) 2 (skip rest)
    else flat t colon (b':' ∷ []) 1 rest
