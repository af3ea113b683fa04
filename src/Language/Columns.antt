-- ===== src/Language/Columns.antt =====
-- language/positions.go: the loops over the columns of `ByteOffset` and `PositionAt` undo each other.
use sqls.Base.{
  ==_iff, Bool-cases, List, Option-cases, ap, arith, false, inl, inr, ltb, refl, subst, suc, sym,
  true, zero, ℕ, ◌+◌, ◌<◌, ◌==◌, ◌∙◌, ◌≡◌, ◌≢◌, ◌≤◌,
}
use sqls.Language.Utf8.{from, decode_rune}
use sqls.Language.Runes.{starts, decode_rune-starts, decode_rune-bound}
use sqls.Language.Positions.{offset_of_column, column_of, width, is_rune_error, ok, out_of_fuel}
use sqls.Language.ColumnSteps.{
  column_of-here, column_of-bad, column_of-empty, column_of-next, offset_of_column-bad,
  offset_of_column-empty, offset_of_column-end, offset_of_column-found, offset_of_column-inside,
  offset_of_column-next, offset_of_column-short, ok-injective, target-found,
}

-- What `PositionAt` measures, `ByteOffset` finds.
pub column_of-offset :
    (f g : ℕ) (text : List ℕ) (o c end col a : ℕ)
    → a ≤ o
    → o ≤ end
    → starts (from o text) ≡ true
    → (o < end → is_rune_error (decode_rune (from o text)) ≡ false)
    → end < g + a
    → column_of f text o col a ≡ ok c
    → (col ≤ c) × (offset_of_column g text c end col a ≡ ok o)
column_of-offset zero g text o c end col a le lo s d fuel h = cc (column_of-empty text o col a, h)
column_of-offset (suc f) zero text o c end col a le lo s d fuel h = absurd (omega arith)
column_of-offset (suc f) (suc g) text o c end col a le lo s d fuel h = elim (Bool-cases (ltb a o)) [
  | inr stop ↦
      let same : col ≡ c = ok-injective col c (sym (column_of-here f text o col a stop) ∙ h) in
      let there : a ≡ o = ground (arith, stop, le) in
      (
        omega (arith, same),
        subst (λ x. offset_of_column (suc g) text c end x a ≡ ok o) (sym same)
            (subst (λ x. offset_of_column (suc g) text c end c x ≡ ok o) (sym there)
              (target-found g text o c end lo d)),
      )
  | inl more ↦ elim (Option-cases (decode_rune (from a text))) [
    | inl bad ↦ cc (column_of-bad f text o col a more bad, h)
    | inr ((r, n), good) ↦
        let bound = decode_rune-bound text a o r n good (ground (arith, more)) s in
        let (_, size) = decode_rune-starts (from a text) r n good in
        let (least, found) =
          column_of-offset f g text o c end (col + width r) (a + n) bound lo s d (omega arith)
            (sym (column_of-next f text o col a r n more good) ∙ h) in
        (
          ground (arith, least),
          offset_of_column-next g text c end col a r n (ground (arith, more)) good
                (ground (arith, least)) (ground (arith, least))
              ∙ found,
        )
  ]
]

-- What `ByteOffset` finds, `PositionAt` measures.
pub offset_of_column-column :
    (g f : ℕ) (text : List ℕ) (o c end col a : ℕ)
    → a ≤ end
    → starts (from end text) ≡ true
    → end < f + a
    → offset_of_column g text c end col a ≡ ok o
    → (a ≤ o)
      × (o ≤ end)
      × (o < end
          → (is_rune_error (decode_rune (from o text)) ≡ false) × (starts (from o text) ≡ true))
      × (column_of f text o col a ≡ ok c)
offset_of_column-column zero f text o c end col a le s fuel h =
    cc (offset_of_column-empty text c end col a, h)
offset_of_column-column (suc g) zero text o c end col a le s fuel h = absurd (omega arith)
offset_of_column-column (suc g) (suc f) text o c end col a le s fuel h =
    elim (Bool-cases (ltb a end)) [
      | inr stop ↦ elim (Bool-cases (col == c)) [
        | inl same ↦
            let there : a ≡ o =
              ok-injective a o (sym (offset_of_column-end g text c end col a stop same) ∙ h) in
            (
              omega (arith, there),
              omega (arith, there, le),
              (λ l. absurd (ground (arith, stop, l, there))),
              column_of-here f text o col a (ground (arith, there)) ∙ ap ok ((==_iff col c).0 same),
            )
        | inr other ↦ cc (offset_of_column-short g text c end col a stop other, h)
      ]
      | inl more ↦ elim (Option-cases (decode_rune (from a text))) [
        | inl bad ↦ cc (offset_of_column-bad g text c end col a more bad, h)
        | inr ((r, n), good) ↦ elim (Bool-cases (col == c)) [
          | inl same ↦
              let there : a ≡ o =
                ok-injective a o
                  (sym (offset_of_column-found g text c end col a r n more good same) ∙ h) in
              (
                omega (arith, there),
                omega (arith, le, there),
                (λ l. (
                  subst (λ x. is_rune_error (decode_rune (from x text)) ≡ false) there
                      (rw good refl),
                  subst (λ x. starts (from x text) ≡ true) there
                      (decode_rune-starts (from a text) r n good).0,
                )),
                column_of-here f text o col a (ground (arith, there))
                    ∙ ap ok ((==_iff col c).0 same),
              )
          | inr other ↦ elim (Bool-cases (ltb c (col + width r))) [
            | inl i ↦ cc (offset_of_column-inside g text c end col a r n more good other i, h)
            | inr i ↦
                let (_, size) = decode_rune-starts (from a text) r n good in
                let (least, most, fine, found) =
                  offset_of_column-column g f text o c end (col + width r) (a + n)
                    (decode_rune-bound text a end r n good (ground (arith, more)) s) s (omega arith)
                    (sym (offset_of_column-next g text c end col a r n more good other i) ∙ h) in
                (
                  omega arith,
                  most,
                  fine,
                  column_of-next f text o col a r n (ground (arith, least, size)) good ∙ found,
                )
          ]
        ]
      ]
    ]

pub column_of-ends :
    (f : ℕ) (text : List ℕ) (o col a : ℕ)
    → 0 < f
    → o < f + a
    → column_of f text o col a ≢ out_of_fuel
column_of-ends zero text o col a some_fuel fuel h = absurd (omega arith)
column_of-ends (suc f) text o col a some_fuel fuel h = elim (Bool-cases (ltb a o)) [
  | inr stop ↦ cc (column_of-here f text o col a stop, h)
  | inl more ↦ elim (Option-cases (decode_rune (from a text))) [
    | inl bad ↦ cc (column_of-bad f text o col a more bad, h)
    | inr ((r, n), good) ↦
        let (_, size) = decode_rune-starts (from a text) r n good in
        column_of-ends f text o (col + width r) (a + n) (ground (arith, more)) (omega arith)
          (sym (column_of-next f text o col a r n more good) ∙ h)
  ]
]

pub offset_of_column-ends :
    (g : ℕ) (text : List ℕ) (c end col a : ℕ)
    → 0 < g
    → end < g + a
    → offset_of_column g text c end col a ≢ out_of_fuel
offset_of_column-ends zero text c end col a some_fuel fuel h = absurd (omega arith)
offset_of_column-ends (suc g) text c end col a some_fuel fuel h = elim (Bool-cases (ltb a end)) [
  | inr stop ↦ elim (Bool-cases (col == c)) [
    | inl same ↦ cc (offset_of_column-end g text c end col a stop same, h)
    | inr other ↦ cc (offset_of_column-short g text c end col a stop other, h)
  ]
  | inl more ↦ elim (Option-cases (decode_rune (from a text))) [
    | inl bad ↦ cc (offset_of_column-bad g text c end col a more bad, h)
    | inr ((r, n), good) ↦ elim (Bool-cases (col == c)) [
      | inl same ↦ cc (offset_of_column-found g text c end col a r n more good same, h)
      | inr other ↦ elim (Bool-cases (ltb c (col + width r))) [
        | inl i ↦ cc (offset_of_column-inside g text c end col a r n more good other i, h)
        | inr i ↦
            let (_, size) = decode_rune-starts (from a text) r n good in
            offset_of_column-ends g text c end (col + width r) (a + n) (ground (arith, more))
              (omega arith)
              (sym (offset_of_column-next g text c end col a r n more good other i) ∙ h)
      ]
    ]
  ]
]
