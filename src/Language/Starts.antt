-- ===== src/Language/Starts.antt =====
-- language/positions.go: the line that `PositionAt` finds for an offset is the line that `ByteOffset` seeks.
use sqls.Base.{
  Bool-cases, List, ap, arith, inl, inr, leb, length, ltb, subst, suc, sym, zero, ℕ, ◌+◌, ◌-◌, ◌<◌,
  ◌∙◌, ◌≡◌, ◌≢◌, ◌≤◌,
}
use sqls.Language.Positions.{line_of, line_start, ok, out_of_fuel, Answer}
use sqls.Language.ColumnSteps.{ok-injective}
use sqls.Language.Lines.{
  line_bounds, end_of, next_of, line_of-inside, line_of-next, line_of-empty, line_start-next,
  line_start-last, line_of-here, line_start-zero,
}

module _ (text : List ℕ) where
  -- The line that holds an offset.
  pub record Holds (o n s st : ℕ) : Type 0 where
    pub found : line_start n text s ≡ ok st
    pub from_start : st ≤ o
    pub to_end : o ≤ end_of text st

  pub line_of-start :
      (f o line s ln st : ℕ)
      → s ≤ o
      → o ≤ length text
      → line_of f text o line s ≡ ok (ln, st)
      → (line ≤ ln) × Holds o (ln - line) s st
  line_of-start zero o line s ln st a b h = cc (line_of-empty text o line s, h)
  line_of-start (suc f) o line s ln st a b h = elim (Bool-cases (leb o (end_of text s))) [
    | inl here ↦
        let same : ◌≡◌ {A = Answer (ℕ × ℕ)} (ok (line, s)) (ok (ln, st)) =
          sym (line_of-here text f o line s here) ∙ h in
        let (same_line, same_start) : (line ≡ ln) × (s ≡ st) = (cc same, cc same) in
        (
          omega (arith, same_line),
          record {
            found =
                ap (λ n. line_start n text s) {x = ln - line} {y = zero} (omega (arith, same_line))
                ∙ line_start-zero text s
                ∙ ap ok same_start;
            from_start = omega (arith, same_start);
            to_end = subst (λ x. o ≤ end_of text x) same_start (ground (arith, here));
          },
        )
    | inr later ↦ elim (Bool-cases (ltb o (next_of text s))) [
      | inl inside ↦ cc (line_of-inside text f o line s later inside, h)
      | inr beyond ↦
          let (more, rest) =
            line_of-start f o (line + 1) (next_of text s) ln st (ground (arith, beyond)) b
              (sym (line_of-next text f o line s later beyond) ∙ h) in
          (
            omega arith,
            record {
              found =
                  ap (λ n. line_start n text s) {x = ln - line} {y = suc (ln - (line + 1))}
                    (omega arith)
                  ∙ line_start-next text (ln - (line + 1)) s (ground (arith, later, b))
                  ∙ rest.found;
              from_start = rest.from_start;
              to_end = rest.to_end;
            },
          )
    ]
  ]

  pub start-line_of :
      (n f o line s st : ℕ)
      → s ≤ length text
      → length text < f + s
      → line_start n text s ≡ ok st
      → st ≤ o
      → o ≤ end_of text st
      → (s ≤ st) × (st ≤ length text) × (line_of f text o line s ≡ ok (line + n, st))
  start-line_of n zero o line s st a fuel h b c = absurd (omega arith)
  start-line_of zero (suc f) o line s st a fuel h b c =
      let same : s ≡ st = cc (sym (line_start-zero text s) ∙ h) in
      (
        omega (arith, same),
        omega (arith, same),
        line_of-here text f o line s (ground (arith, subst (λ x. o ≤ end_of text x) (sym same) c))
            ∙ ap (λ x. ok (x, s)) {x = line} {y = line + 0} (omega arith)
            ∙ ap (λ x. ok (line + 0, x)) same,
      )
  start-line_of (suc n) (suc f) o line s st a fuel h b c =
      let (rest, moves) = line_start-last text n s st h in
      let bounds = line_bounds text s a in
      let (later, inside, found) =
        start-line_of n f o (line + 1) (next_of text s) st bounds.inside
          (omega (arith, bounds.after_start)) rest b c in
      (
        omega (arith, bounds.after_start),
        inside,
        line_of-next text f o line s (ground (arith, moves, later, b)) (ground (arith, later, b))
            ∙ found
            ∙ ap (λ m. ok (m, st)) {x = line + 1 + n} {y = line + suc n} (omega arith),
      )

  pub line_of-ends :
      (f o line s : ℕ)
      → s ≤ length text
      → o ≤ length text
      → length text < f + s
      → line_of f text o line s ≢ out_of_fuel
  line_of-ends zero o line s a b fuel h = absurd (omega arith)
  line_of-ends (suc f) o line s a b fuel h = elim (Bool-cases (leb o (end_of text s))) [
    | inl here ↦ cc (line_of-here text f o line s here, h)
    | inr later ↦ elim (Bool-cases (ltb o (next_of text s))) [
      | inl inside ↦ cc (line_of-inside text f o line s later inside, h)
      | inr beyond ↦
          let bounds = line_bounds text s a in
          line_of-ends f o (line + 1) (next_of text s) bounds.inside b
            (omega (arith, bounds.moves (ground (arith, later, b))))
            (sym (line_of-next text f o line s later beyond) ∙ h)
    ]
  ]

  pub line_start-inside :
      (n s st : ℕ) → s ≤ length text → line_start n text s ≡ ok st → st ≤ length text
  line_start-inside zero s st a h =
      omega (arith, ok-injective s st (sym (line_start-zero text s) ∙ h))
  line_start-inside (suc n) s st a h =
      line_start-inside n (next_of text s) st (line_bounds text s a).inside
        (line_start-last text n s st h).0
