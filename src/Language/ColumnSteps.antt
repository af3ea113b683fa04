-- ===== src/Language/ColumnSteps.antt =====
-- language/positions.go: single steps of the loops over the columns of a line.
use sqls.Base.{
  ==_iff, Bool-cases, List, Option-cases, ap, arith, false, inl, inr, ltb, none, refl, some, suc,
  true, ℕ, ◌+◌, ◌<◌, ◌==◌, ◌≡◌, ◌≤◌,
}
use sqls.Language.Utf8.{from, decode_rune}
use sqls.Language.Positions.{
  offset_of_column, column_of, width, err_position, is_rune_error, ok, out_of_fuel,
}

-- A round of each loop.

pub column_of-here :
    (f : ℕ) (text : List ℕ) (o col a : ℕ)
    → ltb a o ≡ false
    → column_of (suc f) text o col a ≡ ok col
unfolding column_of
column_of-here f text o col a l = rw (column_of, l) refl

pub column_of-empty : (text : List ℕ) (o col a : ℕ) → column_of 0 text o col a ≡ out_of_fuel
unfolding column_of
column_of-empty text o col a = refl

pub column_of-bad :
    (f : ℕ) (text : List ℕ) (o col a : ℕ)
    → ltb a o ≡ true
    → decode_rune (from a text) ≡ none
    → column_of (suc f) text o col a ≡ err_position
unfolding column_of
column_of-bad f text o col a l d = rw (column_of, l, d) refl

pub column_of-next :
    (f : ℕ) (text : List ℕ) (o col a r n : ℕ)
    → ltb a o ≡ true
    → decode_rune (from a text) ≡ some (r, n)
    → column_of (suc f) text o col a ≡ column_of f text o (col + width r) (a + n)
unfolding column_of
column_of-next f text o col a r n l d = rw (column_of, l, d) refl

pub offset_of_column-end :
    (f : ℕ) (text : List ℕ) (c end col a : ℕ)
    → ltb a end ≡ false
    → (col == c) ≡ true
    → offset_of_column (suc f) text c end col a ≡ ok a
unfolding offset_of_column
offset_of_column-end f text c end col a l e = rw (offset_of_column, l, e) refl

pub offset_of_column-short :
    (f : ℕ) (text : List ℕ) (c end col a : ℕ)
    → ltb a end ≡ false
    → (col == c) ≡ false
    → offset_of_column (suc f) text c end col a ≡ err_position
unfolding offset_of_column
offset_of_column-short f text c end col a l e = rw (offset_of_column, l, e) refl

pub offset_of_column-empty :
    (text : List ℕ) (c end col a : ℕ) → offset_of_column 0 text c end col a ≡ out_of_fuel
unfolding offset_of_column
offset_of_column-empty text c end col a = refl

pub offset_of_column-bad :
    (f : ℕ) (text : List ℕ) (c end col a : ℕ)
    → ltb a end ≡ true
    → decode_rune (from a text) ≡ none
    → offset_of_column (suc f) text c end col a ≡ err_position
unfolding offset_of_column
offset_of_column-bad f text c end col a l d = rw (offset_of_column, l, d) refl

pub offset_of_column-found :
    (f : ℕ) (text : List ℕ) (c end col a r n : ℕ)
    → ltb a end ≡ true
    → decode_rune (from a text) ≡ some (r, n)
    → (col == c) ≡ true
    → offset_of_column (suc f) text c end col a ≡ ok a
unfolding offset_of_column
offset_of_column-found f text c end col a r n l d e = rw (offset_of_column, l, d, e) refl

pub offset_of_column-inside :
    (f : ℕ) (text : List ℕ) (c end col a r n : ℕ)
    → ltb a end ≡ true
    → decode_rune (from a text) ≡ some (r, n)
    → (col == c) ≡ false
    → ltb c (col + width r) ≡ true
    → offset_of_column (suc f) text c end col a ≡ err_position
unfolding offset_of_column
offset_of_column-inside f text c end col a r n l d e i = rw (offset_of_column, l, d, e, i) refl

pub offset_of_column-next :
    (f : ℕ) (text : List ℕ) (c end col a r n : ℕ)
    → ltb a end ≡ true
    → decode_rune (from a text) ≡ some (r, n)
    → (col == c) ≡ false
    → ltb c (col + width r) ≡ false
    → offset_of_column (suc f) text c end col a
      ≡ offset_of_column f text c end (col + width r) (a + n)
unfolding offset_of_column
offset_of_column-next f text c end col a r n l d e i = rw (offset_of_column, l, d, e, i) refl

pub ok-injective : {A : Type 0} (x y : A) → ok x ≡ ok y → x ≡ y
ok-injective x y h = cc

-- The column that is looked for.
pub target-found :
    (g : ℕ) (text : List ℕ) (o c end : ℕ)
    → o ≤ end
    → (o < end → is_rune_error (decode_rune (from o text)) ≡ false)
    → offset_of_column (suc g) text c end c o ≡ ok o
target-found g text o c end lo d = elim (Bool-cases (ltb o end)) [
  | inr l ↦ offset_of_column-end g text c end c o l ((==_iff c c).1 refl)
  | inl l ↦ elim (Option-cases (decode_rune (from o text))) [
    | inl bad ↦ cc (d (ground (arith, l)), ap is_rune_error bad)
    | inr ((r, n), good) ↦ offset_of_column-found g text c end c o r n l good ((==_iff c c).1 refl)
  ]
]
