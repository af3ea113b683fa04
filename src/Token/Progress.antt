-- ===== src/Token/Progress.antt =====
-- token/lexer.go: `next` takes a rune at least and moves the position forward, and `Tokenize` stops.
use sqls.Base.{
  List, [], arith, false, head_is, if_cases, if_intro, inr, length, length-drop_while, length-skip,
  not, refl, skip, true, ℕ, ◌&&◌, ◌<◌, ◌==◌, ◌||◌, ◌∷◌, ◌≡◌, ◌≢◌, ◌≤◌,
}
use sqls.Dialect.Rules.{Dialect}
use sqls.Token.Kind.{number}
use sqls.Token.Word.{matching_end_quote}
use sqls.Token.Quoted.{delimited_loop}
use sqls.Token.Loops.{delimited_loop-le, number_run-le}
use sqls.Token.Step.{Tokenizer, is_digit, number_run, or_false}
use sqls.Token.Lexer.{next_delimited, next_other, next_rune, next_word, next, next_from}
use sqls.Token.Advance.{
  Advances, flat-Advances, newline-Advances, next_escape-Advances, next_quoted-Advances,
  next_symbol-Advances, Moves,
}

-- A number has a digit at least.
number_run-pos :
    (r : ℕ) (rest : List ℕ) → is_digit r ≡ true → 0 < length (number_run false (r ∷ rest)).0
unfolding number_run
number_run-pos r [] e = ground arith
number_run-pos r (s ∷ rest) e = ground arith

module _ (up : List ℕ → List ℕ) (d : Dialect) (t : Tokenizer) (r : ℕ) (rest : List ℕ) where
  next_word-Advances : Advances t rest (next_word up d t r rest)
  unfolding next_word
  next_word-Advances = record {
    shrinks = length-drop_while d.is_identifier_part rest;
    moves = inr (refl, omega arith);
  }

module _ (up : List ℕ → List ℕ) (d : Dialect) (t : Tokenizer) (r : ℕ) (rest : List ℕ) where
  next_delimited-Advances : Advances t rest (next_delimited up d t r rest)
  unfolding next_delimited
  next_delimited-Advances =
      let whole = or_false d.scans_whole_delimited_identifier in
      let s = delimited_loop (matching_end_quote r) whole rest in
      let le = delimited_loop-le (matching_end_quote r) whole rest in
      if_intro (Advances t rest) s.closed _ _
        (record { shrinks = le; moves = inr (refl, omega arith) })
        (record { shrinks = le; moves = inr (refl, omega arith) })

  next_other-Advances : Advances t rest (next_other up d t r rest)
  unfolding next_other
  next_other-Advances =
      let P = Advances t rest in
      let le = length-skip rest in
      if_intro P (r == b'N') _ _
        (if_intro P (head_is b'\'' rest) _ _ (next_quoted-Advances _ _ _ t _ (skip rest) rest le)
          (next_word-Advances up d t b'N' rest))
        (if_intro P ((r == b'E' || r == b'e') && or_false d.supports_escape_string_literals) _ _
          (if_intro P (head_is b'\'' rest) _ _ (next_escape-Advances r t (skip rest) rest le)
            (next_word-Advances up d t r rest))
          (if_intro P (d.is_identifier_start r) _ _ (next_word-Advances up d t r rest) (
            if_intro P (r == b'\'') _ _ (next_quoted-Advances _ _ _ t _ rest rest (omega arith)) (
              if_intro P (r == b'"' && not (d.is_delimited_identifier_start r)) _ _
                (next_quoted-Advances _ _ _ t _ rest rest (omega arith))
                (if_intro P (d.is_delimited_identifier_start r) _ _ next_delimited-Advances (
                  if_cases P (is_digit r) _ _
                    (λ e.
                      flat-Advances t number _ _ _ rest (number_run-pos r rest e)
                        (omega (arith, number_run-pos r rest e, number_run-le false (r ∷ rest))))
                    (λ e. next_symbol-Advances t rest d r)))))))

  pub next_rune-Advances : Advances t rest (next_rune up d t r rest)
  unfolding next_rune
  next_rune-Advances =
      let P = Advances t rest in
      if_intro P (r == b' ') _ _ (flat-Advances t _ _ 1 rest rest (omega arith) (omega arith)) (
        if_intro P (r == b'\t') _ _ (flat-Advances t _ _ 1 rest rest (omega arith) (omega arith)) (
          if_intro P (r == b'\n') _ _ (newline-Advances t _ rest rest (omega arith)) (
            if_intro P (r == b'\r') _ _
              (newline-Advances t _ _ rest (
                if_intro (λ x. length x ≤ length rest) (head_is b'\n' rest) (skip rest) rest
                  (length-skip rest) (omega arith)))
              next_other-Advances)))

-- On input that is not empty, `next` leaves fewer runes, never returns EOF, and moves the position
-- forward unless it meets an illegal sequence; behind an unclosed comment it leaves no rune.
pub next-Moves :
    (up : List ℕ → List ℕ) (d : Dialect) (t : Tokenizer)
    → t.input ≢ []
    → (length (next up d t).1.input < length t.input) × Moves t (next up d t).0 (next up d t).1
unfolding next
next-Moves up d t h = go t.input h
  where
    go :
        (s : List ℕ)
        → s ≢ []
        → (length (next_from up d t s).1.input < length s)
          × Moves t (next_from up d t s).0 (next_from up d t s).1
    go [] k = absurd (k refl)
    go (r ∷ rest) k =
        let a = next_rune-Advances up d t r rest in (omega (arith, a.shrinks), a.moves)
