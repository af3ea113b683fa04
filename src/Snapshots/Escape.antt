-- ===== src/Snapshots/Escape.antt =====
-- internal/handler/snapshot_store.go: what the escaped names promise to a filesystem.
use sqls.Base.{
  All, Bool-cases, List, [], ap, arith, false, if◌then◌else◌, inl, inr, leb, length, refl, sym,
  true, ℕ, ◌%◌, ◌*◌, ◌+◌, ◌-◌, ◌/◌, ◌<◌, ◌==◌, ◌||◌, ◌∙◌, ◌∷◌, ◌≡◌, ◌≤◌,
}
use sqls.Snapshots.Names.{escape_snapshot_name, is_plain, hex_digit}

abbrev pub IsByte : ℕ → Type 0
IsByte c = c < 256

-- A reading of escaped names that knows nothing of how they are made.
abbrev hex_value : ℕ → ℕ
hex_value d = if leb d b'9' then d - b'0' else d - b'A' + 10

unescape : List ℕ → List ℕ
unescape [] = []
unescape (p ∷ []) = p ∷ []
unescape (p ∷ h ∷ []) = p ∷ unescape (h ∷ [])
unescape (p ∷ h ∷ l ∷ rest) =
    if p == b'%'
    then (16 * hex_value h + hex_value l) ∷ unescape rest
    else p ∷ unescape (h ∷ l ∷ rest)

unescape-plain :
    (c : ℕ) (rest : List ℕ) → (c == b'%') ≡ false → unescape (c ∷ rest) ≡ c ∷ unescape rest
unfolding unescape
unescape-plain c [] h = refl
unescape-plain c (d ∷ []) h = refl
unescape-plain c (d ∷ e ∷ rest) h = rw h refl

hex_value-hex_digit : (d : ℕ) → d < 16 → hex_value (hex_digit d) ≡ d
hex_value-hex_digit d h = ground arith

unescape-escaped :
    (c : ℕ) (rest : List ℕ)
    → IsByte c
    → unescape (b'%' ∷ hex_digit (c / 16) ∷ hex_digit (c % 16) ∷ rest) ≡ c ∷ unescape rest
unfolding unescape
unescape-escaped c rest h =
    ap (λ d. d ∷ unescape rest)
      (omega (
        arith,
        hex_value-hex_digit (c / 16) (omega arith),
        hex_value-hex_digit (c % 16) (omega arith),
      ))

unescape-escape : (name : List ℕ) → All IsByte name → unescape (escape_snapshot_name name) ≡ name
unfolding escape_snapshot_name unescape
unescape-escape [] h = refl
unescape-escape (c ∷ cs) h = elim (Bool-cases (is_plain c)) [
  | inl plain ↦ rw plain (
      unescape-plain c (escape_snapshot_name cs) (ground arith)
      ∙ ap (λ s. c ∷ s) (unescape-escape cs h.1))
  | inr other ↦
      rw other (
        unescape-escaped c (escape_snapshot_name cs) h.0 ∙ ap (λ s. c ∷ s) (unescape-escape cs h.1))
]

-- Two names, as lists of bytes, whose results of `escapeSnapshotName` are the same are the same
-- name.
pub escape_snapshot_name-injective :
    (a b : List ℕ)
    → All IsByte a
    → All IsByte b
    → escape_snapshot_name a ≡ escape_snapshot_name b
    → a ≡ b
escape_snapshot_name-injective a b ha hb e =
    sym (unescape-escape a ha) ∙ ap unescape e ∙ unescape-escape b hb

-- The bytes of an escaped name: `/`, `\`, `:`, quotes and NUL are not among them.
abbrev pub IsSafe : ℕ → Type 0
IsSafe c = (is_plain c || c == b'%') ≡ true

hex_digit-IsSafe : (d : ℕ) → d < 16 → IsSafe (hex_digit d)
hex_digit-IsSafe d h = ground arith

-- The result of `escapeSnapshotName` for a list of bytes has no byte but ASCII letters, digits,
-- `.`, `_`, `-` and `%`, is at least as long as the name and at most three times as long.
pub escape_snapshot_name-bounds :
    (name : List ℕ)
    → All IsByte name
    → All IsSafe (escape_snapshot_name name)
      × (length name ≤ length (escape_snapshot_name name))
      × (length (escape_snapshot_name name) ≤ 3 * length name)
unfolding escape_snapshot_name
escape_snapshot_name-bounds [] h = (tt, omega arith, omega arith)
escape_snapshot_name-bounds (c ∷ cs) h =
    let (safe, least, most) = escape_snapshot_name-bounds cs h.1 in
    elim (Bool-cases (is_plain c)) [
      | inl plain ↦ rw plain ((ground arith, safe), omega arith, omega arith)
      | inr other ↦ rw other (
        (
          refl,
          (
            hex_digit-IsSafe (c / 16) (omega arith),
            (hex_digit-IsSafe (c % 16) (omega arith), safe),
          ),
        ),
        omega arith,
        omega arith,
      )
    ]
