-- ===== src/Tests/Language.antt =====
-- language/positions.go: a text with a carriage return, a letter of two bytes and one of two code units.
use sqls.Base.{List, [], refl, ℕ, ◌↔◌, ◌∷◌, ◌≡◌, ◌≢◌}
use sqls.Language.Utf8.{decode_rune}
use sqls.Language.Positions.{
  position_at, byte_offset, line_and_column, offset_at, line_of, line_start, column_of,
  offset_of_column, next_line_delimiter, Position, err_position, ok, code_point_column_to_utf16,
  utf16_of_code_point,
}
use sqls.Base.Ints.{pos}
use sqls.Language.RoundTrip.{position_at-byte_offset}
use sqls.Language.CodePoints.{code_point_column_to_utf16_iff, IsColumn}
use sqls.Language.Errors.{byte_offset-refuses, position_at-refuses}

-- "é\r\n😀b" in UTF-8
abbrev text : List ℕ
text = 195 ∷ 169 ∷ 13 ∷ 10 ∷ 240 ∷ 159 ∷ 152 ∷ 128 ∷ 98 ∷ []

abbrev behind_face : Position
behind_face = record { line = pos 1; utf16_column = pos 2 }

-- Between the two code units.
abbrev inside_face : Position
inside_face = record { line = pos 1; utf16_column = pos 1 }

offset-behind_face : byte_offset text behind_face ≡ ok 8
unfolding byte_offset offset_at line_start offset_of_column next_line_delimiter decode_rune
offset-behind_face = refl

offset-inside_face : byte_offset text inside_face ≡ err_position
unfolding byte_offset offset_at line_start offset_of_column next_line_delimiter decode_rune
offset-inside_face = refl

position-end : position_at text (pos 9) ≡ ok (record { line = pos 1; utf16_column = pos 3 })
unfolding position_at line_and_column line_of column_of next_line_delimiter decode_rune
position-end = refl

position-feed : position_at text (pos 3) ≡ err_position
unfolding position_at line_and_column line_of column_of next_line_delimiter decode_rune
position-feed = refl

position_at-byte_offset_example :
    (position_at text (pos 8) ≡ ok behind_face) ↔ (byte_offset text behind_face ≡ ok 8)
position_at-byte_offset_example = position_at-byte_offset text 8 behind_face

byte_offset-refuses_example :
    (byte_offset text inside_face ≡ err_position)
    ↔ ((offset : ℕ) → position_at text (pos offset) ≢ ok inside_face)
byte_offset-refuses_example = byte_offset-refuses text inside_face

position_at-refuses_example :
    (position_at text (pos 3) ≡ err_position) ↔ ((p : Position) → byte_offset text p ≢ ok 3)
position_at-refuses_example = position_at-refuses text 3

column-b : code_point_column_to_utf16 text (pos 1) (pos 1) ≡ ok 2
unfolding code_point_column_to_utf16 line_start utf16_of_code_point next_line_delimiter decode_rune
column-b = refl

-- In front of a byte that starts no rune `codePointColumnToUTF16` gives a column that `ByteOffset`
-- refuses.
column-invalid :
    (code_point_column_to_utf16 (255 ∷ []) (pos 0) (pos 0) ≡ ok 0)
    × (byte_offset (255 ∷ []) (record { line = pos 0; utf16_column = pos 0 }) ≡ err_position)
unfolding code_point_column_to_utf16 utf16_of_code_point byte_offset offset_at line_start
    offset_of_column next_line_delimiter decode_rune
column-invalid = (refl, refl)

code_point_column_to_utf16_iff_example :
    (code_point_column_to_utf16 text (pos 1) (pos 1) ≡ ok 2) ↔ IsColumn text (pos 1) (pos 1) 2
code_point_column_to_utf16_iff_example = code_point_column_to_utf16_iff text (pos 1) (pos 1) 2
