-- ===== src/Language/CodePoints.antt =====
-- language/positions.go: the columns that `codePointColumnToUTF16` gives.
use sqls.Base.{
  ==_iff, Bool-cases, List, Option-cases, ap, arith, false, if◌then◌else◌, inl, inr, length, ltb,
  none, refl, some, subst, suc, sym, true, zero, ℕ, ◌&&◌, ◌+◌, ◌<◌, ◌==◌, ◌↔◌, ◌∙◌, ◌≡◌, ◌≤◌,
}
use sqls.Language.Utf8.{from, decode_rune}
use sqls.Language.Runes.{starts, decode_rune-starts, decode_rune-bound}
use sqls.Base.Ints.{negsuc, pos, ℤ}
use sqls.Language.Positions.{
  utf16_of_code_point, code_point_column_to_utf16, byte_offset, offset_at, and_then, err_position,
  is_rune_error, line_start, offset_of_column, ok, out_of_fuel, width, Answer,
}
use sqls.Language.ColumnSteps.{
  ok-injective, offset_of_column-bad, offset_of_column-end, offset_of_column-found,
  offset_of_column-next, offset_of_column-bad,
}
use sqls.Language.Lines.{line_bounds, end_of}
use sqls.Language.Starts.{line_start-inside}
use sqls.Language.RoundTrip.{and_then-ok, is_rune_boundary-starts}

module _ (text : List ℕ) (end : ℕ) where
  -- `j` code points of the line lead from the offset `a`, at the column `col`, to the offset `o`, at
  -- the column `c`: each is decoded in front of the end of the line, and adds its UTF-16 code units.
  abbrev pub Leads : ℕ → ℕ → ℕ → ℕ → ℕ → Type 0
  Leads zero col a c o = (col ≡ c) × (a ≡ o) × (o ≤ end)
  Leads (suc j) col a c o =
      (r : ℕ) × (n : ℕ) × (a < end)
      × (decode_rune (from a text) ≡ some (r, n))
      × Leads j (col + width r) (a + n) c o

  -- What `ByteOffset` gives at the column of the offset `o`.
  abbrev pub offset_or_error : ℕ → Answer ℕ
  offset_or_error o =
      if ltb o end && is_rune_error (decode_rune (from o text)) then err_position else ok o

module _ (text : List ℕ) (k end : ℕ) where
  -- A round of the loop.
  points-empty : (p col a : ℕ) → utf16_of_code_point 0 text k end p col a ≡ out_of_fuel
  unfolding utf16_of_code_point
  points-empty p col a = refl

  points-end :
      (f p col a : ℕ)
      → ltb a end ≡ false
      → (p == k) ≡ true
      → utf16_of_code_point (suc f) text k end p col a ≡ ok col
  unfolding utf16_of_code_point
  points-end f p col a l e = rw (utf16_of_code_point, l, e) refl

  points-short :
      (f p col a : ℕ)
      → ltb a end ≡ false
      → (p == k) ≡ false
      → utf16_of_code_point (suc f) text k end p col a ≡ err_position
  unfolding utf16_of_code_point
  points-short f p col a l e = rw (utf16_of_code_point, l, e) refl

  points-found :
      (f p col a : ℕ)
      → ltb a end ≡ true
      → (p == k) ≡ true
      → utf16_of_code_point (suc f) text k end p col a ≡ ok col
  unfolding utf16_of_code_point
  points-found f p col a l e = rw (utf16_of_code_point, l, e) refl

  points-bad :
      (f p col a : ℕ)
      → ltb a end ≡ true
      → (p == k) ≡ false
      → decode_rune (from a text) ≡ none
      → utf16_of_code_point (suc f) text k end p col a ≡ err_position
  unfolding utf16_of_code_point
  points-bad f p col a l e d = rw (utf16_of_code_point, l, e, d) refl

  points-next :
      (f p col a r n : ℕ)
      → ltb a end ≡ true
      → (p == k) ≡ false
      → decode_rune (from a text) ≡ some (r, n)
      → utf16_of_code_point (suc f) text k end p col a
        ≡ utf16_of_code_point f text k end (p + 1) (col + width r) (a + n)
  unfolding utf16_of_code_point
  points-next f p col a r n l e d = rw (utf16_of_code_point, l, e, d) refl

  points-Leads :
      (f p j col a c : ℕ)
      → p + j ≡ k
      → a ≤ end
      → starts (from end text) ≡ true
      → utf16_of_code_point f text k end p col a ≡ ok c
      → (o : ℕ) × Leads text end j col a c o
  points-Leads zero p j col a c q le s h = cc (points-empty p col a, h)
  points-Leads (suc f) p zero col a c q le s h =
      let here : (p == k) ≡ true = (==_iff p k).1 (omega (arith, q)) in
      let same : col ≡ c = elim (Bool-cases (ltb a end)) [
        | inl more ↦ ok-injective col c (sym (points-found f p col a more here) ∙ h)
        | inr stop ↦ ok-injective col c (sym (points-end f p col a stop here) ∙ h)
      ] in
      (a, (same, refl, le))
  points-Leads (suc f) p (suc j) col a c q le s h =
      let other : (p == k) ≡ false = ground (arith, q) in
      elim (Bool-cases (ltb a end)) [
        | inr stop ↦ cc (points-short f p col a stop other, h)
        | inl more ↦ elim (Option-cases (decode_rune (from a text))) [
          | inl bad ↦ cc (points-bad f p col a more other bad, h)
          | inr ((r, n), good) ↦
              let (o, rest) =
                points-Leads f (p + 1) j (col + width r) (a + n) c (omega (arith, q))
                  (decode_rune-bound text a end r n good (ground (arith, more)) s) s
                  (sym (points-next f p col a r n more other good) ∙ h) in
              (o, (r, n, ground (arith, more), good, rest))
        ]
      ]

  Leads-points :
      (f p j col a c o : ℕ)
      → p + j ≡ k
      → end < f + a
      → Leads text end j col a c o
      → utf16_of_code_point f text k end p col a ≡ ok c
  Leads-points zero p zero col a c o q l (same, at, inside) = absurd (omega (arith, at))
  Leads-points zero p (suc j) col a c o q l (r, n, before, good, rest) = absurd (omega arith)
  Leads-points (suc f) p zero col a c o q l (same, at, inside) =
      let here : (p == k) ≡ true = (==_iff p k).1 (omega (arith, q)) in
      elim (Bool-cases (ltb a end)) [
        | inl more ↦ points-found f p col a more here ∙ ap ok same
        | inr stop ↦ points-end f p col a stop here ∙ ap ok same
      ]
  Leads-points (suc f) p (suc j) col a c o q l (r, n, before, good, rest) =
      let (_, size) = decode_rune-starts (from a text) r n good in
      points-next f p col a r n (ground (arith, before)) (ground (arith, q)) good
      ∙ Leads-points f (p + 1) j (col + width r) (a + n) c o (omega (arith, q))
          (omega (arith, size)) rest

  Leads-offset :
      (g j col a c o : ℕ)
      → end < g + a
      → Leads text end j col a c o
      → (col ≤ c) × (offset_of_column g text c end col a ≡ offset_or_error text end o)
  Leads-offset zero zero col a c o l (same, at, inside) = absurd (omega (arith, at))
  Leads-offset zero (suc j) col a c o l (r, n, before, good, rest) = absurd (omega arith)
  Leads-offset (suc g) zero col a c o l (same, at, inside) = (
    omega (arith, same),
    subst (λ x. offset_of_column (suc g) text c end col a ≡ offset_or_error text end x) at
        (elim (Bool-cases (ltb a end)) [
          | inr stop ↦
              offset_of_column-end g text c end col a stop ((==_iff col c).1 same) ∙ rw stop refl
          | inl more ↦ elim (Option-cases (decode_rune (from a text))) [
            | inl bad ↦ offset_of_column-bad g text c end col a more bad ∙ rw (more, bad) refl
            | inr ((r, n), good) ↦
                offset_of_column-found g text c end col a r n more good ((==_iff col c).1 same)
                ∙ rw (more, good) refl
          ]
        ]),
  )
  Leads-offset (suc g) (suc j) col a c o l (r, n, before, good, rest) =
      let (_, size) = decode_rune-starts (from a text) r n good in
      let (least, found) =
        Leads-offset g j (col + width r) (a + n) c o (omega (arith, size)) rest in
      (
        ground (arith, least),
        offset_of_column-next g text c end col a r n (ground (arith, before)) good
              (ground (arith, least)) (ground (arith, least))
            ∙ found,
      )

-- `c` is the column of an offset `o` which that many code points of that line reach from its start,
-- and `ByteOffset` gives `o` there, or an error where a byte of the line at `o` starts no rune.
abbrev pub IsColumn : List ℕ → ℤ → ℤ → ℕ → Type 0
IsColumn text (pos line) (pos k) c =
    (st : ℕ) × (o : ℕ) × (line_start line text 0 ≡ ok st)
    × Leads text (end_of text st) k 0 st c o
    × (byte_offset text (record { line = pos line; utf16_column = pos c })
        ≡ offset_or_error text (end_of text st) o)
IsColumn text _ _ c = ⊥

-- `codePointColumnToUTF16` gives a column exactly where the line exists and has that many code points,
-- each of them valid UTF-8, in front of its end: the column is the sum of their UTF-16 code units. At
-- that column `ByteOffset` gives the offset behind those code points, or an error where a byte of the
-- line stands at that offset and starts no rune.
pub code_point_column_to_utf16_iff :
    (text : List ℕ) (line column : ℤ) (c : ℕ)
    → (code_point_column_to_utf16 text line column ≡ ok c) ↔ IsColumn text line column c
unfolding code_point_column_to_utf16 byte_offset offset_at
code_point_column_to_utf16_iff text (negsuc n) column c = (λ h. cc, λ h. absurd h)
code_point_column_to_utf16_iff text (pos line) (negsuc n) c = (λ h. cc, λ h. absurd h)
code_point_column_to_utf16_iff text (pos line) (pos k) c = (
  λ h.
      let (st, found, h₁) = and_then-ok (line_start line text 0) _ c h in
      let bounds = line_bounds text st (line_start-inside text line 0 st (omega arith) found) in
      let (o, reached) =
        points-Leads text k (end_of text st) (suc (length text)) 0 k 0 st c (omega arith)
          bounds.after_start (is_rune_boundary-starts (from (end_of text st) text) bounds.boundary)
          h₁ in
      let fuel : end_of text st < suc (length text) + st =
        omega (arith, bounds.ends, bounds.inside) in
      (
        st,
        o,
        found,
        reached,
        ap
              (λ x.
                and_then x (λ start.
                  offset_of_column (suc (length text)) text c (end_of text start) 0 start))
              found
            ∙ (Leads-offset text k (end_of text st) (suc (length text)) k 0 st c o fuel reached).1,
      ),
  λ (st, o, found, reached, _).
      let bounds = line_bounds text st (line_start-inside text line 0 st (omega arith) found) in
      let fuel : end_of text st < suc (length text) + st =
        omega (arith, bounds.ends, bounds.inside) in
      ap
        (λ x.
          and_then x
            (λ start. utf16_of_code_point (suc (length text)) text k (end_of text start) 0 0 start))
        found
      ∙ Leads-points text k (end_of text st) (suc (length text)) 0 k 0 st c o (omega arith) fuel
          reached,
)
