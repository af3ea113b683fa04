-- ===== src/Language/Positions.antt =====
-- language/positions.go: `ByteOffset`, `PositionAt`, `codePointColumnToUTF16` and `nextLineDelimiter`. A
-- text is the list of its bytes. A loop runs on fuel.
use sqls.Base.{
  Bool, List, Option, [], false, head_is, if◌then◌else◌, leb, length, ltb, none, not, some, suc,
  true, zero, ℕ, ◌&&◌, ◌+◌, ◌==◌, ◌∷◌,
}
use sqls.Base.Ints.{ℤ, pos, negsuc}
use sqls.Language.Utf8.{from, rune_start, decode_rune}

-- language/language.go: `Position`
pub record Position : Type 0 where
  pub line : ℤ
  pub utf16_column : ℤ

-- The results of a conversion; `out_of_fuel` is the model's own.
pub data Answer {ℓ} (A : Type ℓ) : Type ℓ where
  ok : A → Answer A
  err_position out_of_fuel : Answer A

-- An error is passed on.
abbrev pub and_then {ℓ κ} : {A : Type ℓ} {B : Type κ} → Answer A → (A → Answer B) → Answer B
and_then (ok a) f = f a
and_then err_position f = err_position
and_then out_of_fuel f = out_of_fuel

-- `nextLineDelimiter`, on the text from the offset `i` on.
abbrev pub delimiter_in : List ℕ → ℕ → Option (ℕ × ℕ)
delimiter_in [] i = none
delimiter_in (c ∷ cs) i =
    if c == b'\n'
    then some (i, 1)
    else if c == b'\r'
    then some (i, if head_is b'\n' cs then 2 else 1)
    else delimiter_in cs (i + 1)

unfoldable pub next_line_delimiter : List ℕ → ℕ → Option (ℕ × ℕ)
next_line_delimiter text start = delimiter_in (from start text) start

-- `lineEnd` and `nextLineStart`
abbrev pub line_end : List ℕ → Option (ℕ × ℕ) → ℕ
line_end text none = length text
line_end text (some (delim, len)) = delim

abbrev pub next_line_start : List ℕ → Option (ℕ × ℕ) → ℕ
next_line_start text none = length text
next_line_start text (some (delim, len)) = delim + len

-- UTF-16 code units of a rune.
abbrev pub width : ℕ → ℕ
width r = if ltb 65535 r then 2 else 1

-- The start of the line that many lines further on.
unfoldable pub line_start : ℕ → List ℕ → ℕ → Answer ℕ
line_start zero text start = ok start
line_start (suc n) text start = elim (next_line_delimiter text start) [
  | none ↦ err_position
  | some (delim, len) ↦ line_start n text (delim + len)
]

-- The loop over the columns of `ByteOffset`.
unfoldable pub offset_of_column : ℕ → List ℕ → ℕ → ℕ → ℕ → ℕ → Answer ℕ
offset_of_column zero text target end column offset = out_of_fuel
offset_of_column (suc fuel) text target end column offset =
    if not (ltb offset end)
    then (if column == target then ok offset else err_position)
    else elim (decode_rune (from offset text)) [
      | none ↦ err_position
      | some (r, size) ↦ elim (column == target) [
        | true ↦ ok offset
        | false ↦ elim (ltb target (column + width r)) [
          | true ↦ err_position
          | false ↦ offset_of_column fuel text target end (column + width r) (offset + size)
        ]
      ]
    ]

-- `ByteOffset` for a line and a column that are not negative.
unfoldable pub offset_at : List ℕ → ℕ → ℕ → Answer ℕ
unfolding line_start offset_of_column
offset_at text line column = and_then (line_start line text 0) (λ start.
    offset_of_column (suc (length text)) text column
      (line_end text (next_line_delimiter text start)) 0 start)

unfoldable pub byte_offset : List ℕ → Position → Answer ℕ
unfolding offset_at
byte_offset text p = elim p.line [
  | negsuc n ↦ err_position
  | pos line ↦ elim p.utf16_column [
    | negsuc n ↦ err_position
    | pos column ↦ offset_at text line column
  ]
]

abbrev pub is_rune_error : Option (ℕ × ℕ) → Bool
is_rune_error none = true
is_rune_error (some r) = false

-- The tests of `PositionAt` before its loops.
abbrev pub is_rune_boundary : List ℕ → Bool
is_rune_boundary [] = true
is_rune_boundary (c ∷ cs) = rune_start c && not (is_rune_error (decode_rune (c ∷ cs)))

-- The loop over the lines of `PositionAt`: the line and its start.
unfoldable pub line_of : ℕ → List ℕ → ℕ → ℕ → ℕ → Answer (ℕ × ℕ)
line_of zero text offset line start = out_of_fuel
line_of (suc fuel) text offset line start =
    let delim = next_line_delimiter text start in
    let next = next_line_start text delim in
    elim (leb offset (line_end text delim)) [
      | true ↦ ok (line, start)
      | false ↦ elim (ltb offset next) [
        | true ↦ err_position
        | false ↦ line_of fuel text offset (line + 1) next
      ]
    ]

-- The loop over the columns of `PositionAt`.
unfoldable pub column_of : ℕ → List ℕ → ℕ → ℕ → ℕ → Answer ℕ
column_of zero text target column offset = out_of_fuel
column_of (suc fuel) text target column offset =
    if not (ltb offset target) then ok column else elim (decode_rune (from offset text)) [
      | none ↦ err_position
      | some (r, size) ↦ column_of fuel text target (column + width r) (offset + size)
    ]

-- `PositionAt` for an offset that is not negative: the line and the column.
unfoldable pub line_and_column : List ℕ → ℕ → Answer (ℕ × ℕ)
unfolding line_of column_of
line_and_column text offset =
    if ltb (length text) offset
    then err_position
    else if not (is_rune_boundary (from offset text))
    then err_position
    else and_then (line_of (suc (length text)) text offset 0 0) (λ (line, start).
      and_then (column_of (suc (length text)) text offset 0 start) (λ column. ok (line, column)))

unfoldable pub position_at : List ℕ → ℤ → Answer Position
unfolding line_and_column
position_at text (negsuc n) = err_position
position_at text (pos offset) =
    and_then (line_and_column text offset)
      (λ (line, column). ok (record { line = pos line; utf16_column = pos column }))

-- The loop over the code points of `codePointColumnToUTF16`.
unfoldable pub utf16_of_code_point : ℕ → List ℕ → ℕ → ℕ → ℕ → ℕ → ℕ → Answer ℕ
utf16_of_code_point zero text target end points column offset = out_of_fuel
utf16_of_code_point (suc fuel) text target end points column offset =
    if not (ltb offset end)
    then (if points == target then ok column else err_position)
    else elim (points == target) [
      | true ↦ ok column
      | false ↦ elim (decode_rune (from offset text)) [
        | none ↦ err_position
        | some (r, size) ↦
            utf16_of_code_point fuel text target end (points + 1) (column + width r) (offset + size)
      ]
    ]

unfoldable pub code_point_column_to_utf16 : List ℕ → ℤ → ℤ → Answer ℕ
unfolding line_start utf16_of_code_point
code_point_column_to_utf16 text (negsuc n) column = err_position
code_point_column_to_utf16 text (pos line) (negsuc n) = err_position
code_point_column_to_utf16 text (pos line) (pos column) =
    and_then (line_start line text 0) (λ start.
      utf16_of_code_point (suc (length text)) text column
        (line_end text (next_line_delimiter text start)) 0 0 start)
