-- ===== src/Token/Loops.antt =====
-- token/lexer.go: the loops over quoted text leave no more than they are given, and move the position
-- forward.
use sqls.Base.{
  Bool, List, [], arith, false, if_intro, length, refl, true, ℕ, ◌&&◌, ◌++◌, ◌+◌, ◌<◌, ◌==◌, ◌∷◌,
  ◌≡◌, ◌≤◌, ◌⊎◌,
}
use sqls.Token.Step.{number_run}
use sqls.Token.Quoted.{
  Cursor, Moved, advance_quoted_rune, delimited_loop, escape_loop, quoted_loop, add, comment_cursor,
  comment_loop, comment_part, dollar_loop, halt, shed, star_if,
}

-- Positions, by line and column.
abbrev pub Le : ℕ → ℕ → ℕ → ℕ → Type 0
Le l c l' c' = (l < l') ⊎ ((l ≡ l') × (c ≤ c'))

pub quoted_loop-le :
    (quote : ℕ) (preserve : Bool) (s : List ℕ)
    → length (quoted_loop quote preserve s).left ≤ length s
unfolding quoted_loop
quoted_loop-le quote preserve [] = omega arith
quoted_loop-le quote preserve (n ∷ []) = ground arith
quoted_loop-le quote preserve (n ∷ m ∷ rest) =
    ground (arith, quoted_loop-le quote preserve rest, quoted_loop-le quote preserve (m ∷ rest))

pub delimited_loop-le :
    (end : ℕ) (whole : Bool) (s : List ℕ) → length (delimited_loop end whole s).left ≤ length s
unfolding delimited_loop
delimited_loop-le end whole [] = omega arith
delimited_loop-le end whole (n ∷ []) = ground arith
delimited_loop-le end whole (n ∷ m ∷ rest) =
    ground (arith, delimited_loop-le end whole rest, delimited_loop-le end whole (m ∷ rest))

-- Behind a carriage return the column is 0, so that the line feed after it may keep the line.
abbrev pub IsAligned : Cursor → Type 0
IsAligned t = t.last_was_cr ≡ true → t.col ≡ 0

pub record Forward (t u : Cursor) : Type 0 where
  pub moves : Le t.line t.col u.line u.col
  pub aligned : IsAligned u

advance-Forward : (r : ℕ) (t : Cursor) → IsAligned t → Forward t (advance_quoted_rune r t)
unfolding advance_quoted_rune
advance-Forward r t h = record { moves = ground arith; aligned = ground arith }

Forward-trans : {t u v : Cursor} → Forward t u → Forward u v → Forward t v
Forward-trans p q = record { moves = ground (arith, p.moves, q.moves); aligned = q.aligned }

pub record Reads (t : Cursor) (s : List ℕ) (r : Moved) : Type 0 where
  pub shrinks : length r.left ≤ length s
  pub forward : Forward t r.cursor

Reads-halt :
    (closed : Bool) {t u : Cursor} (left s : List ℕ)
    → Forward t u
    → length left ≤ length s
    → Reads t s (halt closed u left)
Reads-halt closed left s f h = record { shrinks = h; forward = f }

Reads-add :
    (runes : List ℕ) {t u : Cursor} {s s' : List ℕ} (r : Moved)
    → Forward t u
    → length s ≤ length s'
    → Reads u s r
    → Reads t s' (add runes r)
Reads-add runes r f h k = record {
  shrinks = omega (arith, k.shrinks);
  forward = Forward-trans f k.forward;
}

Forward-refl : {t : Cursor} → IsAligned t → Forward t t
Forward-refl h = record { moves = ground arith; aligned = h }

pub escape_loop-Reads : (t : Cursor) (s : List ℕ) → IsAligned t → Reads t s (escape_loop t s)
unfolding escape_loop
escape_loop-Reads t [] h = Reads-halt false [] [] (Forward-refl h) (omega arith)
escape_loop-Reads t (n ∷ []) h =
    let f = advance-Forward n t h in
    if_intro (Reads t (n ∷ [])) (n == b'\'') _ _ (Reads-halt true [] (n ∷ []) f (omega arith)) (
      Reads-add (n ∷ []) _ f (omega arith)
        (Reads-halt false [] [] (Forward-refl f.aligned) (omega arith)))
escape_loop-Reads t (n ∷ m ∷ rest) h =
    let P = Reads t (n ∷ m ∷ rest) in
    let f = advance-Forward n t h in
    let g = advance-Forward m (advance_quoted_rune n t) f.aligned in
    let q = advance-Forward b'\'' (advance_quoted_rune n t) f.aligned in
    if_intro P (n == b'\\') _ _
      (Reads-add (n ∷ m ∷ []) {s = rest} _ (Forward-trans f g) (omega arith)
        (escape_loop-Reads (advance_quoted_rune m (advance_quoted_rune n t)) rest g.aligned))
      (if_intro P (n == b'\'') _ _
        (if_intro P (m == b'\'') _ _
          (Reads-add (b'\'' ∷ b'\'' ∷ []) {s = rest} _ (Forward-trans f q) (omega arith) (
            escape_loop-Reads (advance_quoted_rune b'\'' (advance_quoted_rune n t)) rest q.aligned))
          (Reads-halt true (m ∷ rest) (n ∷ m ∷ rest) f (omega arith)))
        (Reads-add (n ∷ []) {s = m ∷ rest} _ f (omega arith)
          (escape_loop-Reads (advance_quoted_rune n t) (m ∷ rest) f.aligned)))

pub dollar_loop-Reads :
    (delimiter pending : List ℕ) (t : Cursor) (s : List ℕ)
    → IsAligned t
    → Reads t s (dollar_loop delimiter pending t s)
unfolding dollar_loop
dollar_loop-Reads delimiter pending t [] h =
    Reads-add pending {s = []} _ (Forward-refl h) (omega arith)
      (Reads-halt false [] [] (Forward-refl h) (omega arith))
dollar_loop-Reads delimiter pending t (r ∷ rest) h =
    let f = advance-Forward r t h in
    let k = shed delimiter (pending ++ r ∷ []) in
    if_intro (Reads t (r ∷ rest)) (length k.1 == length delimiter) _ _
      (Reads-add k.0 {s = rest} _ f (omega arith)
        (Reads-halt true rest rest (Forward-refl f.aligned) (omega arith)))
      (Reads-add k.0 {s = rest} _ f (omega arith)
        (dollar_loop-Reads delimiter k.1 (advance_quoted_rune r t) rest f.aligned))

comment_cursor-Forward :
    (n : ℕ) (t : Cursor)
    → t.last_was_cr ≡ false
    → Forward t (comment_cursor n t) × ((comment_cursor n t).last_was_cr ≡ false)
comment_cursor-Forward n t h =
    (record { moves = ground arith; aligned = ground arith }, ground arith)

pub comment_loop-Reads :
    (may : Bool) (t : Cursor) (s : List ℕ)
    → t.last_was_cr ≡ false
    → Reads t s (comment_loop may t s)
unfolding comment_loop
comment_loop-Reads may t [] h =
    Reads-add (star_if may) {s = []} _ (Forward-refl (λ e. cc)) (omega arith)
      (Reads-halt false [] [] (Forward-refl (λ e. cc)) (omega arith))
comment_loop-Reads may t (n ∷ []) h =
    let (f, g) = comment_cursor-Forward n t h in
    if_intro (Reads t (n ∷ [])) (may && n == b'/') _ _ (Reads-halt true [] (n ∷ []) f (omega arith))
      (Reads-add (comment_part may n) {s = []} _ f (omega arith)
        (comment_loop-Reads (n == b'*') (comment_cursor n t) [] g))
comment_loop-Reads may t (n ∷ m ∷ rest) h =
    let (f, g) = comment_cursor-Forward n t h in
    if_intro (Reads t (n ∷ m ∷ rest)) (may && n == b'/') _ _
      (Reads-halt true (m ∷ rest) (n ∷ m ∷ rest) f (omega arith))
      (if_intro (Reads t (n ∷ m ∷ rest)) (n == b'\r' && m == b'\n') _ _
        (Reads-add (comment_part may n) {s = rest} _ f (omega arith)
          (comment_loop-Reads false (comment_cursor n t) rest g))
        (Reads-add (comment_part may n) {s = m ∷ rest} _ f (omega arith)
          (comment_loop-Reads (n == b'*') (comment_cursor n t) (m ∷ rest) g)))

pub number_run-le :
    (has_e : Bool) (s : List ℕ)
    → length (number_run has_e s).0 + length (number_run has_e s).1 ≡ length s
unfolding number_run
number_run-le has_e [] = omega arith
number_run-le has_e (n ∷ []) = ground arith
number_run-le has_e (n ∷ s ∷ rest) =
    ground (
      arith,
      number_run-le has_e (s ∷ rest),
      number_run-le true (s ∷ rest),
      number_run-le true rest,
    )

-- An unclosed comment leaves nothing.
pub comment_loop-unclosed :
    (may : Bool) (t : Cursor) (s : List ℕ)
    → (comment_loop may t s).closed ≡ false
    → (comment_loop may t s).left ≡ []
unfolding comment_loop
comment_loop-unclosed may t [] h = refl
comment_loop-unclosed may t (n ∷ []) h =
    ground (arith, comment_loop-unclosed (n == b'*') (comment_cursor n t) [])
comment_loop-unclosed may t (n ∷ m ∷ rest) h = ground (
  arith,
  comment_loop-unclosed (n == b'*') (comment_cursor n t) (m ∷ rest),
  comment_loop-unclosed false (comment_cursor n t) rest,
)
