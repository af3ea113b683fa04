-- ===== src/Token/Lossless.antt =====
-- token/lexer.go: printing the tokens again gives the text. It holds for the dialects that preserve
-- escapes and scan whole identifiers, and for texts without carriage returns, of which the tokens
-- keep no trace.
use sqls.Base.{
  Bool, List, [], ap, append_assoc, arith, drop_while, false, head_is, if_cases, if◌then◌else◌,
  length, refl, skip, subst, take_while, take_while-append-drop_while, true, ℕ, ◌++◌, ◌==◌, ◌||◌,
  ◌∙◌, ◌∷◌, ◌≡◌,
}
use sqls.Dialect.Rules.{Dialect}
use sqls.Token.Kind.{
  Kind, comment, multiline_comment, national_string_literal, single_quoted_string,
}
use sqls.Token.Word.{Value, text, word, word_string}
use sqls.Token.Quoted.{comment_loop, dollar_loop, escape_loop, quoted_loop, Scanned, quoted_text}
use sqls.Token.Step.{
  Tokenizer, Outcome, cursor_at, eof, illegal_sequence, next_comment, next_dollar, next_dollar_body,
  next_escape, next_quoted, or_false, preserves, token, unclosed_comment, is_dollar_tag_part,
  is_dollar_tag_start,
}
use sqls.Token.Verbatim.{
  closer, comment_loop-verbatim, escape_loop-verbatim, has_cr, closing, dollar_loop-verbatim,
  quoted_loop-verbatim,
}

-- The source text of a token: `SQLWord.String` for a word, the marks that `next` drops of a comment
-- and of a national string, and the token's own text.
abbrev pub spelling : Kind → Value → List ℕ
spelling k (word w) = word_string w
spelling comment (text s) = b'-' ∷ b'-' ∷ s
spelling multiline_comment (text s) = b'/' ∷ b'*' ∷ s ++ closer
spelling national_string_literal (text s) = b'N' ∷ s
spelling _ (text s) = s

-- What an outcome prints.
abbrev pub spelling_of : Outcome → List ℕ
spelling_of (token k v) = spelling k v
spelling_of eof = []
spelling_of illegal_sequence = b'!' ∷ []
spelling_of (unclosed_comment s) = b'/' ∷ b'*' ∷ s

-- The dialects whose tokens are printed again.
pub record IsVerbatim (d : Dialect) : Type 0 where
  pub escapes : preserves d ≡ true
  pub whole : or_false d.scans_whole_delimited_identifier ≡ true
  pub quotes :
      (r : ℕ)
      → d.is_delimited_identifier_start r ≡ true
      → (r == b'"' || r == b'[' || r == b'`') ≡ true

-- The runes `r ∷ rest` are those of the outcome and those left.
abbrev pub Splits : List ℕ → Outcome × Tokenizer → Type 0
Splits s r = spelling_of r.0 ++ r.1.input ≡ s

-- The loops give their closing delimiter back as a part of the text.
pub closed-append :
    (closed : Bool) (str q left : List ℕ)
    → (if closed then str ++ q else str) ++ left ≡ str ++ closing closed q left
closed-append true str q left = append_assoc str q left
closed-append false str q left = refl

quoted_text-append :
    (quote : ℕ) (r : Scanned)
    → quoted_text quote r ++ r.left ≡ quote ∷ r.str ++ closing r.closed (quote ∷ []) r.left
quoted_text-append quote r = ground (arith, append_assoc r.str (quote ∷ []) r.left)

pub next_quoted-Splits :
    (t : Tokenizer) (cols quote : ℕ) (rest : List ℕ)
    → Splits (quote ∷ rest) (next_quoted single_quoted_string quote true t cols rest)
unfolding next_quoted
next_quoted-Splits t cols quote rest =
    quoted_text-append quote (quoted_loop quote true rest)
    ∙ ap (◌∷◌ quote) (quoted_loop-verbatim quote rest)

pub next_national-Splits :
    (t : Tokenizer) (rest : List ℕ)
    → Splits (b'N' ∷ b'\'' ∷ rest) (next_quoted national_string_literal b'\'' true t 1 rest)
unfolding next_quoted
next_national-Splits t rest = ap (◌∷◌ b'N') (
    quoted_text-append b'\'' (quoted_loop b'\'' true rest)
    ∙ ap (◌∷◌ b'\'') (quoted_loop-verbatim b'\'' rest))

pub next_escape-Splits :
    (e : ℕ) (t : Tokenizer) (rest : List ℕ) → Splits (e ∷ b'\'' ∷ rest) (next_escape e t rest)
unfolding next_escape
next_escape-Splits e t rest =
    let r = escape_loop (cursor_at t 2) rest in
    ap (λ x. e ∷ b'\'' ∷ x)
      (closed-append r.closed r.str (b'\'' ∷ []) r.left ∙ escape_loop-verbatim (cursor_at t 2) rest)

pub next_comment-Splits :
    (t : Tokenizer) (rest : List ℕ)
    → has_cr rest ≡ false
    → Splits (b'/' ∷ b'*' ∷ rest) (next_comment t rest)
unfolding next_comment
next_comment-Splits t rest h =
    let r = comment_loop false (cursor_at t 2) rest in
    let e = comment_loop-verbatim false (cursor_at t 2) rest h in
    if_cases (Splits (b'/' ∷ b'*' ∷ rest)) r.closed _ _
      (λ c. ap (λ x. b'/' ∷ b'*' ∷ x) (append_assoc r.str closer r.left ∙ rw c at e))
      (λ c. ap (λ x. b'/' ∷ b'*' ∷ x) (rw c at e))

next_dollar_body-Splits :
    (t : Tokenizer) (delimiter rest : List ℕ)
    → Splits (delimiter ++ rest) (next_dollar_body t delimiter rest)
unfolding next_dollar_body
next_dollar_body-Splits t delimiter rest =
    let r = dollar_loop delimiter [] (cursor_at t (length delimiter)) rest in
    append_assoc delimiter _ r.left
    ∙ ap (◌++◌ delimiter) (
        closed-append r.closed r.str delimiter r.left
        ∙ dollar_loop-verbatim delimiter [] (cursor_at t (length delimiter)) rest)

pub skip_head : (c : ℕ) (s : List ℕ) → head_is c s ≡ true → c ∷ skip s ≡ s
skip_head c [] h = cc
skip_head c (x ∷ s) h = ground arith

pub next_dollar-Splits : (t : Tokenizer) (rest : List ℕ) → Splits (b'$' ∷ rest) (next_dollar t rest)
unfolding next_dollar
next_dollar-Splits t [] = refl
next_dollar-Splits t (first ∷ rest) =
    let P = Splits (b'$' ∷ first ∷ rest) in
    let tag = take_while is_dollar_tag_part (first ∷ rest) in
    let behind = drop_while is_dollar_tag_part (first ∷ rest) in
    let all = take_while-append-drop_while is_dollar_tag_part (first ∷ rest) in
    if_cases P (first == b'$') _ _
      (λ e.
        subst (λ x. Splits (b'$' ∷ x ∷ rest) (next_dollar_body t (b'$' ∷ b'$' ∷ []) rest))
          (ground arith) (next_dollar_body-Splits t (b'$' ∷ b'$' ∷ []) rest))
      (λ _.
        if_cases P (is_dollar_tag_start first) _ _
          (λ _.
            if_cases P (head_is b'$' behind) _ _
              (λ e.
                next_dollar_body-Splits t (b'$' ∷ tag ++ b'$' ∷ []) (skip behind)
                ∙ ap (◌∷◌ b'$') (
                    append_assoc tag (b'$' ∷ []) (skip behind)
                    ∙ ap (◌++◌ tag) (skip_head b'$' behind e)
                    ∙ all))
              (λ _. ap (◌∷◌ b'$') all))
          (λ _. refl))
