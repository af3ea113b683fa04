-- ===== src/Language/RoundTrip.antt =====
-- language/positions.go: `ByteOffset` and `PositionAt` undo each other.
use sqls.Base.{
  Bool, Bool-cases, List, [], ap, arith, false, if◌then◌else◌, inl, inr, length, ltb, not, refl,
  subst, suc, true, zero, ℕ, ◌+◌, ◌-◌, ◌<◌, ◌↔◌, ◌∙◌, ◌∷◌, ◌≡◌, ◌≤◌,
}
use sqls.Language.Utf8.{from, decode_rune}
use sqls.Language.Runes.{starts}
use sqls.Base.Ints.{pos, negsuc, ℤ}
use sqls.Language.Positions.{
  line_and_column, offset_at, column_of, is_rune_boundary, is_rune_error, line_of, ok, Answer,
  and_then, err_position, line_start, out_of_fuel, offset_of_column, Position, byte_offset,
  position_at,
}
use sqls.Language.ColumnSteps.{ok-injective}
use sqls.Language.Columns.{column_of-offset, offset_of_column-column}
use sqls.Language.Lines.{line_bounds, end_of}
use sqls.Language.Starts.{line_of-start, start-line_of, line_start-inside}

pub is_rune_boundary-starts : (cs : List ℕ) → is_rune_boundary cs ≡ true → starts cs ≡ true
is_rune_boundary-starts [] h = refl
is_rune_boundary-starts (c ∷ cs) h = ground (arith, h)

is_rune_boundary-from :
    (text : List ℕ) (o n : ℕ)
    → is_rune_boundary (from o text) ≡ true
    → o < length text
    → is_rune_error (decode_rune (from o text)) ≡ false
is_rune_boundary-from [] o n h l = absurd (omega arith)
is_rune_boundary-from (c ∷ cs) zero n h l = ground (arith, h)
is_rune_boundary-from (c ∷ cs) (suc o) n h l = is_rune_boundary-from cs o n h (omega arith)

starts-is_rune_boundary :
    (cs : List ℕ)
    → is_rune_error (decode_rune cs) ≡ false
    → starts cs ≡ true
    → is_rune_boundary cs ≡ true
starts-is_rune_boundary [] e h = refl
starts-is_rune_boundary (c ∷ cs) e h = ground (arith, e, h)

whole_at :
    (text : List ℕ) (o end : ℕ)
    → o ≤ end
    → is_rune_boundary (from end text) ≡ true
    → (o < end
        → (is_rune_error (decode_rune (from o text)) ≡ false) × (starts (from o text) ≡ true))
    → is_rune_boundary (from o text) ≡ true
whole_at text o end h e f = elim (Bool-cases (ltb o end)) [
  | inl l ↦ let (a, b) = f (ground (arith, l)) in starts-is_rune_boundary (from o text) a b
  | inr l ↦
      subst (λ n. is_rune_boundary (from n text) ≡ true) {x = end} {y = o} (ground (arith, l)) e
]

pub and_then-ok :
    {A B : Type 0} (x : Answer A) (f : A → Answer B) (b : B)
    → and_then x f ≡ ok b
    → (a : A) × (x ≡ ok a) × (f a ≡ ok b)
and_then-ok (ok a) f b h = (a, refl, h)
and_then-ok err_position f b h = cc
and_then-ok out_of_fuel f b h = cc

if_ok :
    {A : Type 0} (b : Bool) (x : Answer A) (a : A)
    → (if b then err_position else x) ≡ ok a
    → (b ≡ false) × (x ≡ ok a)
if_ok true x a h = cc
if_ok false x a h = (refl, h)

-- What makes `PositionAt` give a line and a column.
record Located (text : List ℕ) (o line column : ℕ) : Type 0 where
  inside : o ≤ length text
  whole : is_rune_boundary (from o text) ≡ true
  start : ℕ
  found : line_of (suc (length text)) text o 0 0 ≡ ok (line, start)
  measured : column_of (suc (length text)) text o 0 start ≡ ok column

measure : List ℕ → ℕ → ℕ × ℕ → Answer (ℕ × ℕ)
measure text o p =
    and_then (column_of (suc (length text)) text o 0 p.1) (λ column. ok (p.0, column))

Located-measure :
    (text : List ℕ) (o line column : ℕ) (p : ℕ × ℕ)
    → o ≤ length text
    → is_rune_boundary (from o text) ≡ true
    → line_of (suc (length text)) text o 0 0 ≡ ok p
    → measure text o p ≡ ok (line, column)
    → Located text o line column
unfolding measure
Located-measure text o line column (ln, st) a b c h =
    let (col, m, e) = and_then-ok (column_of (suc (length text)) text o 0 st) _ (line, column) h in
    let same : (ln, col) ≡ (line, column) = ok-injective _ _ e in
    record {
      inside = a;
      whole = b;
      start = st;
      found = c ∙ ap (λ (q : ℕ × ℕ). ok (q.0, st)) same;
      measured = m ∙ ap (λ (q : ℕ × ℕ). ok q.1) same;
    }

line_and_column-Located :
    (text : List ℕ) (o line column : ℕ)
    → line_and_column text o ≡ ok (line, column)
    → Located text o line column
unfolding line_and_column measure
line_and_column-Located text o line column h =
    let (inside, h₁) = if_ok (ltb (length text) o) _ (line, column) h in
    let (whole, h₂) = if_ok (not (is_rune_boundary (from o text))) _ (line, column) h₁ in
    let (p, found, h₃) =
      and_then-ok (line_of (suc (length text)) text o 0 0) (measure text o) (line, column) h₂ in
    Located-measure text o line column p (ground (arith, inside)) (ground (arith, whole)) found h₃

Located-line_and_column :
    (text : List ℕ) (o line column : ℕ)
    → Located text o line column
    → line_and_column text o ≡ ok (line, column)
unfolding line_and_column
Located-line_and_column text o line column l =
    rw (not_less (length text) o l.inside, l.whole, l.found, l.measured) refl
  where
    not_less : (m n : ℕ) → n ≤ m → ltb m n ≡ false
    not_less m n h = ground arith

pub line_and_column-offset :
    (text : List ℕ) (o line column : ℕ)
    → line_and_column text o ≡ ok (line, column)
    → offset_at text line column ≡ ok o
unfolding offset_at
line_and_column-offset text o line column h =
    let l = line_and_column-Located text o line column h in
    let (_, w) =
      line_of-start text (suc (length text)) o 0 0 line l.start (omega arith) l.inside l.found in
    let bounds = line_bounds text l.start (omega (arith, w.from_start, l.inside)) in
    let (_, off) =
      column_of-offset (suc (length text)) (suc (length text)) text o column (end_of text l.start) 0
        l.start w.from_start w.to_end (is_rune_boundary-starts (from o text) l.whole)
        (λ k. is_rune_boundary-from text o 0 l.whole (omega (arith, k, bounds.ends, bounds.inside)))
        (omega (arith, bounds.ends, bounds.inside)) l.measured in
    ap
      (λ x.
        and_then x
          (λ start. offset_of_column (suc (length text)) text column (end_of text start) 0 start))
      (ap (λ n. line_start n text 0) {x = line} {y = line - 0} (omega arith) ∙ w.found)
    ∙ off

pub offset-line_and_column :
    (text : List ℕ) (o line column : ℕ)
    → offset_at text line column ≡ ok o
    → line_and_column text o ≡ ok (line, column)
unfolding offset_at
offset-line_and_column text o line column h =
    let (st, found, h₁) = and_then-ok (line_start line text 0) _ o h in
    let bounds = line_bounds text st (line_start-inside text line 0 st (omega arith) found) in
    let (a, b, fine, measured) =
      offset_of_column-column (suc (length text)) (suc (length text)) text o column (end_of text st)
        0 st bounds.after_start
        (is_rune_boundary-starts (from (end_of text st) text) bounds.boundary)
        (omega (arith, bounds.ends, bounds.inside)) h₁ in
    let (_, _, line_found) =
      start-line_of text line (suc (length text)) o 0 0 st (omega arith) (omega arith) found a b in
    Located-line_and_column text o line column (record {
      inside = omega (arith, b, bounds.ends, bounds.inside);
      whole = whole_at text o (end_of text st) b bounds.boundary fine;
      start = st;
      found = line_found ∙ ap (λ n. ok (n, st)) {x = 0 + line} {y = line} (omega arith);
      measured = measured;
    })

position_at-offset :
    (text : List ℕ) (offset : ℕ) (p : Position)
    → position_at text (pos offset) ≡ ok p
    → byte_offset text p ≡ ok offset
unfolding position_at byte_offset
position_at-offset text offset p h =
    let ((line, column), e, f) = and_then-ok (line_and_column text offset) _ p h in
    subst (λ q. byte_offset text q ≡ ok offset) (ok-injective _ p f)
      (line_and_column-offset text offset line column e)

byte_offset-position :
    (text : List ℕ) (offset : ℕ) (line column : ℤ)
    → byte_offset text (record { line = line; utf16_column = column }) ≡ ok offset
    → position_at text (pos offset) ≡ ok (record { line = line; utf16_column = column })
unfolding position_at byte_offset
byte_offset-position text offset (negsuc n) column h = cc
byte_offset-position text offset (pos line) (negsuc n) h = cc
byte_offset-position text offset (pos line) (pos column) h =
    ap (λ x. and_then x (λ (l, c). ok (record { line = pos l; utf16_column = pos c })))
      (offset-line_and_column text offset line column h)

-- For every text, offset and position: `PositionAt` gives the position for the offset exactly where
-- `ByteOffset` gives the offset for the position, whatever line endings, invalid bytes and runes
-- beyond U+FFFF the text has.
pub position_at-byte_offset :
    (text : List ℕ) (offset : ℕ) (p : Position)
    → (position_at text (pos offset) ≡ ok p) ↔ (byte_offset text p ≡ ok offset)
position_at-byte_offset text offset p =
    (position_at-offset text offset p, byte_offset-position text offset p.line p.utf16_column)
