-- ===== src/Language/Errors.antt =====
-- language/positions.go: when the conversions refuse.
use sqls.Base.{
  Bool, List, arith, false, if◌then◌else◌, inl, inr, length, ltb, not, refl, suc, true, ℕ, ◌↔◌, ◌≡◌,
  ◌≢◌, ◌⊎◌,
}
use sqls.Language.Utf8.{from}
use sqls.Base.Ints.{negsuc, pos, ℤ}
use sqls.Language.Positions.{
  position_at, byte_offset, line_and_column, offset_at, line_start, Answer, Position, and_then,
  err_position, ok, out_of_fuel, column_of, is_rune_boundary, line_of,
}
use sqls.Language.Columns.{offset_of_column-ends, column_of-ends}
use sqls.Language.Lines.{line_bounds, end_of, line_start-ends}
use sqls.Language.Starts.{line_start-inside, line_of-ends}
use sqls.Language.RoundTrip.{position_at-byte_offset}

Answer-cases :
    {A : Type 0} (x : Answer A) → ((a : A) × (x ≡ ok a)) ⊎ (x ≡ err_position) ⊎ (x ≡ out_of_fuel)
Answer-cases (ok a) = inl (a, refl)
Answer-cases err_position = inr (inl refl)
Answer-cases out_of_fuel = inr (inr refl)

and_then-ends :
    {A B : Type 0} (x : Answer A) (f : A → Answer B)
    → x ≢ out_of_fuel
    → ((a : A) → x ≡ ok a → f a ≢ out_of_fuel)
    → and_then x f ≢ out_of_fuel
and_then-ends (ok a) f h k e = k a refl e
and_then-ends err_position f h k e = cc
and_then-ends out_of_fuel f h k e = h refl

if_ends :
    {A : Type 0} (b : Bool) (x : Answer A)
    → (b ≡ false → x ≢ out_of_fuel)
    → (if b then err_position else x) ≢ out_of_fuel
if_ends true x h e = cc
if_ends false x h e = h refl e

offset_at-ends : (text : List ℕ) (line column : ℕ) → offset_at text line column ≢ out_of_fuel
unfolding offset_at
offset_at-ends text line column =
    and_then-ends (line_start line text 0) _ (line_start-ends text line 0) (λ st found.
      let bounds = line_bounds text st (line_start-inside text line 0 st (omega arith) found) in
      offset_of_column-ends (suc (length text)) text column (end_of text st) 0 st (omega arith)
        (omega (arith, bounds.ends, bounds.inside)))

byte_offset-ends :
    (text : List ℕ) (line column : ℤ)
    → byte_offset text (record { line = line; utf16_column = column }) ≢ out_of_fuel
unfolding byte_offset
byte_offset-ends text (negsuc n) column h = cc
byte_offset-ends text (pos line) (negsuc n) h = cc
byte_offset-ends text (pos line) (pos column) h = offset_at-ends text line column h

line_and_column-ends : (text : List ℕ) (o : ℕ) → line_and_column text o ≢ out_of_fuel
unfolding line_and_column
line_and_column-ends text o = if_ends (ltb (length text) o) _ (λ inside.
    if_ends (not (is_rune_boundary (from o text))) _ (λ whole.
      and_then-ends (line_of (suc (length text)) text o 0 0) _
        (line_of-ends text (suc (length text)) o 0 0 (omega arith) (ground (arith, inside))
          (omega arith))
        (λ p found.
          and_then-ends (column_of (suc (length text)) text o 0 p.1) _
            (column_of-ends (suc (length text)) text o 0 p.1 (omega arith) (ground (arith, inside)))
            (λ c measured. λ e. cc))))

position_at-ends : (text : List ℕ) (z : ℤ) → position_at text z ≢ out_of_fuel
unfolding position_at
position_at-ends text (negsuc n) h = cc
position_at-ends text (pos o) h =
    and_then-ends (line_and_column text o) _ (line_and_column-ends text o) (λ p e f. cc) h

-- `ByteOffset` returns `ErrPosition` for a position exactly where no offset of the text has that
-- position: no position is moved to one nearby, and no position of an offset is refused.
pub byte_offset-refuses :
    (text : List ℕ) (p : Position)
    → (byte_offset text p ≡ err_position) ↔ ((offset : ℕ) → position_at text (pos offset) ≢ ok p)
byte_offset-refuses text p = (
  λ h offset e. cc ((position_at-byte_offset text offset p).0 e, h),
  λ none_has. elim (Answer-cases (byte_offset text p)) [
    | inl (o, e) ↦ absurd (none_has o ((position_at-byte_offset text o p).1 e))
    | inr (inl e) ↦ e
    | inr (inr e) ↦ absurd (byte_offset-ends text p.line p.utf16_column e)
  ],
)

-- `PositionAt` returns `ErrPosition` for an offset exactly where no position has that offset; its
-- loops end on every text.
pub position_at-refuses :
    (text : List ℕ) (offset : ℕ)
    → (position_at text (pos offset) ≡ err_position)
      ↔ ((p : Position) → byte_offset text p ≢ ok offset)
position_at-refuses text offset = (
  λ h p e. cc ((position_at-byte_offset text offset p).1 e, h),
  λ none_has. elim (Answer-cases (position_at text (pos offset))) [
    | inl (p, e) ↦ absurd (none_has p ((position_at-byte_offset text offset p).0 e))
    | inr (inl e) ↦ e
    | inr (inr e) ↦ absurd (position_at-ends text (pos offset) e)
  ],
)
