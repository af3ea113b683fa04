-- ===== src/Snapshots/Names.antt =====
-- internal/handler/snapshot_store.go: `escapeSnapshotName`. A name is the list of its bytes.
use sqls.Base.{
  Bool, List, [], if◌then◌else◌, ltb, within, ℕ, ◌%◌, ◌++◌, ◌+◌, ◌-◌, ◌/◌, ◌==◌, ◌||◌, ◌∷◌,
}

-- The bytes that stand for themselves.
abbrev pub is_plain : ℕ → Bool
is_plain c =
    within b'a' b'z' c
    || within b'A' b'Z' c
    || within b'0' b'9' c
    || c == b'.'
    || c == b'_'
    || c == b'-'

-- A digit of `%02X`.
abbrev pub hex_digit : ℕ → ℕ
hex_digit d = if ltb d 10 then b'0' + d else b'A' + (d - 10)

abbrev pub escape_byte : ℕ → List ℕ
escape_byte c = if is_plain c then c ∷ [] else b'%' ∷ hex_digit (c / 16) ∷ hex_digit (c % 16) ∷ []

unfoldable pub escape_snapshot_name : List ℕ → List ℕ
escape_snapshot_name [] = []
escape_snapshot_name (c ∷ cs) = escape_byte c ++ escape_snapshot_name cs
