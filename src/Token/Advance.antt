-- ===== src/Token/Advance.antt =====
-- token/lexer.go: each case of `next` takes a rune at least and moves the position forward. This file
-- has the cases of quoted text, comments and symbols.
use sqls.Base.{
  Bool, List, [], arith, drop_while, false, head_is, if_cases, if_intro, inl, inr, length,
  length-drop_while, length-skip, not, refl, skip, ℕ, ◌&&◌, ◌<◌, ◌==◌, ◌∷◌, ◌≡◌, ◌≤◌, ◌⊎◌,
}
use sqls.Dialect.Rules.{Dialect}
use sqls.Token.Kind.{
  Kind, char, colon, comment, div, double_colon, gt, gt_eq, lt, lt_eq, minus, multiline_comment,
  neq, single_quoted_string,
}
use sqls.Token.Quoted.{Moved, comment_loop}
use sqls.Token.Loops.{
  Reads, comment_loop-Reads, dollar_loop-Reads, escape_loop-Reads, quoted_loop-le,
  comment_loop-unclosed,
}
use sqls.Token.Step.{
  Tokenizer, Outcome, cursor_at, eof, flat, illegal_sequence, is_dollar_tag_part,
  is_dollar_tag_start, moved, newline, next_bang, next_colon, next_comment, next_dollar,
  next_dollar_body, next_escape, next_greater, next_less, next_minus, next_quoted, or_false, token,
  unclosed_comment,
}
use sqls.Token.Lexer.{next_symbol, single_kind}

abbrev pub Lt : Tokenizer → Tokenizer → Type 0
Lt t u = (t.line < u.line) ⊎ ((t.line ≡ u.line) × (t.col < u.col))

-- A token lies between two positions, the first before the second; an unclosed comment leaves no
-- input.
abbrev pub Moves : Tokenizer → Outcome → Tokenizer → Type 0
Moves t (token k v) u = Lt t u
Moves t (unclosed_comment s) u = Lt t u × (u.input ≡ [])
Moves t illegal_sequence u = Unit
Moves t eof u = ⊥

pub record Advances (t : Tokenizer) (rest : List ℕ) (r : Outcome × Tokenizer) : Type 0 where
  pub shrinks : length r.1.input ≤ length rest
  pub moves : Moves t r.0 r.1

pub flat-Advances :
    (t : Tokenizer) (kind : Kind) (str : List ℕ) (cols : ℕ) (left rest : List ℕ)
    → 0 < cols
    → length left ≤ length rest
    → Advances t rest (flat t kind str cols left)
flat-Advances t kind str cols left rest h k = record {
  shrinks = k;
  moves = inr (refl, omega arith);
}

pub newline-Advances :
    (t : Tokenizer) (str left rest : List ℕ)
    → length left ≤ length rest
    → Advances t rest (newline t str left)
newline-Advances t str left rest k = record { shrinks = k; moves = inl (omega arith) }

-- Behind an opening of `cols` columns and a loop.
Reads-Lt :
    (t : Tokenizer) (cols : ℕ) (s : List ℕ) (r : Moved)
    → 0 < cols
    → Reads (cursor_at t cols) s r
    → (t.line < r.cursor.line) ⊎ ((t.line ≡ r.cursor.line) × (t.col < r.cursor.col))
Reads-Lt t cols s r h k = ground (arith, k.forward.moves)

moved-Advances :
    (t : Tokenizer) (kind : Kind) (str : List ℕ) (cols : ℕ) (s rest : List ℕ) (r : Moved)
    → 0 < cols
    → length s ≤ length rest
    → Reads (cursor_at t cols) s r
    → Advances t rest (moved kind str r)
moved-Advances t kind str cols s rest r h l k = record {
  shrinks = omega (arith, k.shrinks);
  moves = Reads-Lt t cols s r h k;
}

pub next_quoted-Advances :
    (kind : Kind) (quote : ℕ) (preserve : Bool) (t : Tokenizer) (cols : ℕ) (s rest : List ℕ)
    → length s ≤ length rest
    → Advances t rest (next_quoted kind quote preserve t cols s)
unfolding next_quoted
next_quoted-Advances kind quote preserve t cols s rest h =
    flat-Advances t kind _ _ _ rest (omega arith) (omega (arith, quoted_loop-le quote preserve s))

pub next_escape-Advances :
    (e : ℕ) (t : Tokenizer) (s rest : List ℕ)
    → length s ≤ length rest
    → Advances t rest (next_escape e t s)
unfolding next_escape
next_escape-Advances e t s rest h =
    moved-Advances t single_quoted_string _ 2 s rest _ (omega arith) h
      (escape_loop-Reads (cursor_at t 2) s (λ e. cc))

next_comment-Advances :
    (t : Tokenizer) (s rest : List ℕ) → length s ≤ length rest → Advances t rest (next_comment t s)
unfolding next_comment
next_comment-Advances t s rest h =
    let r = comment_loop false (cursor_at t 2) s in
    let k = comment_loop-Reads false (cursor_at t 2) s refl in
    if_cases (Advances t rest) r.closed _ _
      (λ _. moved-Advances t multiline_comment r.str 2 s rest r (omega arith) h k)
      (λ e. record {
        shrinks = omega (arith, k.shrinks);
        moves = (Reads-Lt t 2 s r (omega arith) k, comment_loop-unclosed false (cursor_at t 2) s e);
      })

next_dollar_body-Advances :
    (t : Tokenizer) (delimiter s rest : List ℕ)
    → 0 < length delimiter
    → length s ≤ length rest
    → Advances t rest (next_dollar_body t delimiter s)
unfolding next_dollar_body
next_dollar_body-Advances t delimiter s rest p h =
    moved-Advances t single_quoted_string _ (length delimiter) s rest _ p h
      (dollar_loop-Reads delimiter [] (cursor_at t (length delimiter)) s (λ e. cc))

next_dollar-Advances : (t : Tokenizer) (rest : List ℕ) → Advances t rest (next_dollar t rest)
unfolding next_dollar
next_dollar-Advances t [] = flat-Advances t char _ 1 [] [] (omega arith) (omega arith)
next_dollar-Advances t (first ∷ rest) =
    let P = Advances t (first ∷ rest) in
    let le = length-drop_while is_dollar_tag_part (first ∷ rest) in
    if_intro P (first == b'$') _ _
      (next_dollar_body-Advances t _ rest _ (omega arith) (omega arith))
      (if_intro P (is_dollar_tag_start first) _ _
        (if_intro P (head_is b'$' (drop_while is_dollar_tag_part (first ∷ rest))) _ _
          (next_dollar_body-Advances t _ _ _ (omega arith)
            (omega (arith, le, length-skip (drop_while is_dollar_tag_part (first ∷ rest)))))
          (flat-Advances t char _ _ _ _ (omega arith) le))
        (flat-Advances t char _ 1 _ _ (omega arith) (omega arith)))

module _ (t : Tokenizer) (rest : List ℕ) where
  one-Advances : (kind : Kind) (str : List ℕ) → Advances t rest (flat t kind str 1 rest)
  one-Advances kind str = flat-Advances t kind str 1 rest rest (omega arith) (omega arith)

  two-Advances : (kind : Kind) (str : List ℕ) → Advances t rest (flat t kind str 2 (skip rest))
  two-Advances kind str =
      flat-Advances t kind str 2 (skip rest) rest (omega arith) (length-skip rest)

  next_minus-Advances : Advances t rest (next_minus t rest)
  unfolding next_minus
  next_minus-Advances =
      if_intro (Advances t rest) (head_is b'-' rest) _ _
        (flat-Advances t comment _ _ _ rest (omega arith)
          (omega (arith, length-drop_while (λ c. not (c == b'\n')) (skip rest), length-skip rest)))
        (one-Advances minus (b'-' ∷ []))

  next_bang-Advances : Advances t rest (next_bang t rest)
  unfolding next_bang
  next_bang-Advances =
      if_intro (Advances t rest) (head_is b'=' rest) _ _ (two-Advances neq _)
        (record { shrinks = omega arith; moves = tt })

  next_less-Advances : Advances t rest (next_less t rest)
  unfolding next_less
  next_less-Advances =
      if_intro (Advances t rest) (head_is b'=' rest) _ _ (two-Advances lt_eq _) (
        if_intro (Advances t rest) (head_is b'>' rest) _ _ (two-Advances neq _) (one-Advances lt _))

  next_greater-Advances : Advances t rest (next_greater t rest)
  unfolding next_greater
  next_greater-Advances =
      if_intro (Advances t rest) (head_is b'=' rest) _ _ (two-Advances gt_eq _) (one-Advances gt _)

  next_colon-Advances : Advances t rest (next_colon t rest)
  unfolding next_colon
  next_colon-Advances =
      if_intro (Advances t rest) (head_is b':' rest) _ _ (two-Advances double_colon _)
        (one-Advances colon _)

  pub next_symbol-Advances : (d : Dialect) (r : ℕ) → Advances t rest (next_symbol d t r rest)
  unfolding next_symbol
  next_symbol-Advances d r =
      let P = Advances t rest in
      if_intro P (r == b'-') _ _ next_minus-Advances (
        if_intro P (r == b'/') _ _
          (if_intro P (head_is b'*' rest) _ _
            (next_comment-Advances t (skip rest) rest (length-skip rest)) (one-Advances div _))
          (if_intro P (r == b'!') _ _ next_bang-Advances (
            if_intro P (r == b'<') _ _ next_less-Advances (
              if_intro P (r == b'>') _ _ next_greater-Advances (
                if_intro P (r == b':') _ _ next_colon-Advances (
                  if_intro P (r == b'$' && or_false d.supports_dollar_quoted_strings) _ _
                    (next_dollar-Advances t rest) (one-Advances (single_kind r) _)))))))
