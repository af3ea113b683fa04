-- ===== src/Language/Lines.antt =====
-- language/positions.go: the loops over the lines of `ByteOffset` and `PositionAt` undo each other.
use sqls.Base.{
  Bool, Bool-cases, List, Option, Option-cases, [], ap, arith, false, head_is, if◌then◌else◌, inl,
  inr, leb, length, ltb, none, refl, some, subst, suc, sym, true, zero, ℕ, ◌+◌, ◌-◌, ◌<◌, ◌==◌, ◌∙◌,
  ◌∷◌, ◌≡◌, ◌≢◌, ◌≤◌,
}
use sqls.Language.Utf8.{from, decode_rune}
use sqls.Language.Runes.{from-add}
use sqls.Language.Positions.{
  delimiter_in, next_line_delimiter, line_end, next_line_start, is_rune_boundary, err_position,
  line_of, line_start, ok, out_of_fuel,
}

ascii_boundary : (c : ℕ) (cs : List ℕ) → c < 128 → is_rune_boundary (c ∷ cs) ≡ true
unfolding decode_rune
ascii_boundary c cs l = ground arith

at_start :
    (c : ℕ) (cs : List ℕ) (i d : ℕ)
    → i ≡ d
    → c < 128
    → is_rune_boundary (from (d - i) (c ∷ cs)) ≡ true
at_start c cs i d e l =
    subst (λ n. is_rune_boundary (from n (c ∷ cs)) ≡ true) {x = zero} {y = d - i} (omega (arith, e))
      (ascii_boundary c cs l)

head_is-length : (c : ℕ) (cs : List ℕ) → head_is c cs ≡ true → 1 ≤ length cs
head_is-length c [] h = cc
head_is-length c (d ∷ cs) h = omega arith

delimiter_in-bounds :
    (cs : List ℕ) (i d l : ℕ)
    → delimiter_in cs i ≡ some (d, l)
    → (i ≤ d) × (1 ≤ l) × (d + l ≤ i + length cs) × (is_rune_boundary (from (d - i) cs) ≡ true)
delimiter_in-bounds [] i d l h = cc
delimiter_in-bounds (c ∷ cs) i d l h = elim (Bool-cases (c == b'\n')) [
  | inl feed ↦
      let (there, one) : (i ≡ d) × (1 ≡ l) = (ground (arith, h, feed), ground (arith, h, feed)) in
      (
        omega (arith, there),
        omega (arith, one),
        omega (arith, there, one),
        at_start c cs i d there (ground (arith, feed)),
      )
  | inr plain ↦ elim (Bool-cases (c == b'\r')) [
    | inl return ↦
        let there : i ≡ d = ground (arith, h, plain, return) in
        let size : (if head_is b'\n' cs then 2 else 1) ≡ l = ground (arith, h, plain, return) in
        (
          omega (arith, there),
          if_size (head_is b'\n' cs) l size,
          most l there size,
          at_start c cs i d there (ground (arith, return)),
        )
    | inr other ↦
        let (a, b, e, u) = delimiter_in-bounds cs (i + 1) d l (ground (arith, h, plain, other)) in
        (
          omega arith,
          b,
          omega arith,
          subst (λ n. is_rune_boundary (from n (c ∷ cs)) ≡ true) {x = suc (d - (i + 1))} {y = d - i}
              (omega arith) u,
        )
  ]
]
  where
    if_size : (b : Bool) (m : ℕ) → (if b then 2 else 1) ≡ m → 1 ≤ m
    if_size true m e = omega (arith, e)
    if_size false m e = omega (arith, e)

    most : (m : ℕ) → i ≡ d → (if head_is b'\n' cs then 2 else 1) ≡ m → d + m ≤ i + length (c ∷ cs)
    most m there e = elim (Bool-cases (head_is b'\n' cs)) [
      | inl t ↦ ground (arith, there, e, t, head_is-length b'\n' cs t)
      | inr f ↦ ground (arith, there, e, f)
    ]

length-from : (s : ℕ) (text : List ℕ) → s ≤ length text → s + length (from s text) ≡ length text
length-from zero text h = omega arith
length-from (suc s) [] h = omega arith
length-from (suc s) (c ∷ cs) h = omega (arith, length-from s cs (omega arith))

from-length : (text : List ℕ) → from (length text) text ≡ []
from-length [] = refl
from-length (c ∷ cs) = from-length cs

-- The end of a line and the start of the next, where the line starts at `s` and ends at `delim`.
pub record LineBounds (text : List ℕ) (s : ℕ) (delim : Option (ℕ × ℕ)) : Type 0 where
  pub after_start : s ≤ line_end text delim
  pub ends : line_end text delim ≤ next_line_start text delim
  pub inside : next_line_start text delim ≤ length text
  pub moves : line_end text delim < length text → s < next_line_start text delim
  pub boundary : is_rune_boundary (from (line_end text delim) text) ≡ true

bounds_of :
    (text : List ℕ) (s : ℕ) (delim : Option (ℕ × ℕ))
    → s ≤ length text
    → next_line_delimiter text s ≡ delim
    → LineBounds text s delim
unfolding next_line_delimiter
bounds_of text s none h e = record {
  after_start = h;
  ends = omega arith;
  inside = omega arith;
  moves = λ l. absurd (omega arith);
  boundary = subst (λ x. is_rune_boundary x ≡ true) (sym (from-length text)) refl;
}
bounds_of text s (some (d, l)) h e =
    let (a, b, m, u) = delimiter_in-bounds (from s text) s d l e in
    record {
      after_start = a;
      ends = omega arith;
      inside = omega (arith, m, length-from s text h);
      moves = λ k. omega arith;
      boundary =
          subst (λ x. is_rune_boundary x ≡ true)
            (sym (from-add s (d - s) text)
              ∙ ap (λ n. from n text) {x = s + (d - s)} {y = d} (omega arith))
            u;
    }

pub line_bounds :
    (text : List ℕ) (s : ℕ) → s ≤ length text → LineBounds text s (next_line_delimiter text s)
line_bounds text s h = bounds_of text s (next_line_delimiter text s) h refl

delimiter_size : (text : List ℕ) (s d m : ℕ) → next_line_delimiter text s ≡ some (d, m) → 1 ≤ m
unfolding next_line_delimiter
delimiter_size text s d m e = (delimiter_in-bounds (from s text) s d m e).1

module _ (text : List ℕ) where
  abbrev pub end_of : ℕ → ℕ
  end_of s = line_end text (next_line_delimiter text s)

  abbrev pub next_of : ℕ → ℕ
  next_of s = next_line_start text (next_line_delimiter text s)

  -- A round of each loop.
  pub line_of-here :
      (f o line s : ℕ) → leb o (end_of s) ≡ true → line_of (suc f) text o line s ≡ ok (line, s)
  unfolding line_of
  line_of-here f o line s l = rw (line_of, l) refl

  pub line_of-inside :
      (f o line s : ℕ)
      → leb o (end_of s) ≡ false
      → ltb o (next_of s) ≡ true
      → line_of (suc f) text o line s ≡ err_position
  unfolding line_of
  line_of-inside f o line s l k = rw (line_of, l, k) refl

  pub line_of-next :
      (f o line s : ℕ)
      → leb o (end_of s) ≡ false
      → ltb o (next_of s) ≡ false
      → line_of (suc f) text o line s ≡ line_of f text o (line + 1) (next_of s)
  unfolding line_of
  line_of-next f o line s l k = rw (line_of, l, k) refl

  pub line_of-empty : (o line s : ℕ) → line_of 0 text o line s ≡ out_of_fuel
  unfolding line_of
  line_of-empty o line s = refl

  pub line_start-zero : (s : ℕ) → line_start zero text s ≡ ok s
  unfolding line_start
  line_start-zero s = refl

  line_start-some :
      (n s d m : ℕ)
      → next_line_delimiter text s ≡ some (d, m)
      → line_start (suc n) text s ≡ line_start n text (d + m)
  unfolding line_start
  line_start-some n s d m e = rw (line_start, e) refl

  line_start-stuck :
      (n s : ℕ) → next_line_delimiter text s ≡ none → line_start (suc n) text s ≡ err_position
  unfolding line_start
  line_start-stuck n s e = rw (line_start, e) refl

  -- A line that does not end the text has a next one.
  pub line_start-next :
      (n s : ℕ) → end_of s < length text → line_start (suc n) text s ≡ line_start n text (next_of s)
  line_start-next n s l = elim (Option-cases (next_line_delimiter text s)) [
    | inl e ↦ absurd (omega (arith, ap (line_end text) e))
    | inr ((d, m), e) ↦
        line_start-some n s d m e ∙ ap (λ x. line_start n text (next_line_start text x)) (sym e)
  ]

  pub line_start-last :
      (n s st : ℕ)
      → line_start (suc n) text s ≡ ok st
      → (line_start n text (next_of s) ≡ ok st) × (end_of s < next_of s)
  line_start-last n s st h = elim (Option-cases (next_line_delimiter text s)) [
    | inl e ↦ cc (h, line_start-stuck n s e)
    | inr ((d, m), e) ↦ (
      sym (line_start-some n s d m e ∙ ap (λ x. line_start n text (next_line_start text x)) (sym e))
          ∙ h,
      omega (arith, ap (line_end text) e, ap (next_line_start text) e, delimiter_size text s d m e),
    )
  ]

  pub line_start-ends : (n s : ℕ) → line_start n text s ≢ out_of_fuel
  line_start-ends zero s h = cc (line_start-zero s, h)
  line_start-ends (suc n) s h = elim (Option-cases (next_line_delimiter text s)) [
    | inl e ↦ cc (line_start-stuck n s e, h)
    | inr ((d, m), e) ↦ line_start-ends n (d + m) (sym (line_start-some n s d m e) ∙ h)
  ]
