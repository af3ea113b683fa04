-- ===== src/Catalog/Columns.antt =====
-- catalog/types.go: columns and foreign keys by the tables that they belong to. Pointers to columns that
-- `GenColumnMap` reads are not nil.
use sqls.Base.{
  Bool, List, Option, [], eqb, false, if◌then◌else◌, is_empty, none, not, some, to_upper, true, ℕ,
  ◌&&◌, ◌++◌, ◌∷◌,
}
use sqls.Catalog.Types.{ColumnDesc, ForeignKey}

abbrev pub is_some : {A : Type 0} → Option A → Bool
is_some none = false
is_some (some _) = true

-- `ValidateForeignKey`
abbrev pub pairs_valid : ForeignKey → Bool
pairs_valid [] = true
pairs_valid ((left, right) ∷ pairs) = is_some left && is_some right && pairs_valid pairs

abbrev pub valid_foreign_key : Option ForeignKey → Bool
valid_foreign_key none = false
valid_foreign_key (some key) = not (is_empty key) && pairs_valid key

-- `groups[key] = append(groups[key], v)`
abbrev pub append_value :
    {V : Type 0} → List ℕ → V → List (List ℕ × List V) → List (List ℕ × List V)
append_value k v [] = (k, v ∷ []) ∷ []
append_value k v ((j, vs) ∷ m) =
    if eqb j k then (j, vs ++ v ∷ []) ∷ m else (j, vs) ∷ append_value k v m

-- `ColumnDatabaseKey`, by `strings.ToUpper`.
abbrev pub database_key : (List ℕ → List ℕ) → List ℕ → List ℕ → List ℕ
database_key to_upper db table = to_upper db ++ b'\t' ∷ to_upper table

-- `GenColumnMap`
abbrev pub add_columns :
    (List ℕ → List ℕ)
    → List ColumnDesc
    → List (List ℕ × List ColumnDesc)
    → List (List ℕ × List ColumnDesc)
add_columns to_upper [] m = m
add_columns to_upper (d ∷ ds) m =
    add_columns to_upper ds (append_value (database_key to_upper d.base.schema d.base.table) d m)

unfoldable pub gen_column_map :
    (List ℕ → List ℕ) → List ColumnDesc → List (List ℕ × List ColumnDesc)
gen_column_map to_upper ds = add_columns to_upper ds []

-- `grouped[from][to] = append(grouped[from][to], key)`, with a new inner map where there is none.
abbrev pub add_reference :
    List ℕ
    → List ℕ
    → ForeignKey
    → List (List ℕ × List (List ℕ × List ForeignKey))
    → List (List ℕ × List (List ℕ × List ForeignKey))
add_reference left right key [] = (left, append_value right key []) ∷ []
add_reference left right key ((t, refs) ∷ m) =
    if eqb t left
    then (t, append_value right key refs) ∷ m
    else (t, refs) ∷ add_reference left right key m

-- The tables of the first pair.
abbrev pub first_tables : ForeignKey → List ℕ × List ℕ
first_tables ((some left, some right) ∷ pairs) = (left.table, right.table)
first_tables _ = ([], [])

-- `GroupForeignKeys`: none is its error.
abbrev pub group_keys :
    List (Option ForeignKey)
    → List (List ℕ × List (List ℕ × List ForeignKey))
    → Option (List (List ℕ × List (List ℕ × List ForeignKey)))
group_keys [] grouped = some grouped
group_keys (none ∷ keys) grouped = none
group_keys (some key ∷ keys) grouped =
    let (left, right) = first_tables key in
    let rest =
      group_keys keys (add_reference right left key (add_reference left right key grouped)) in
    if valid_foreign_key (some key) then rest else none

unfoldable pub group_foreign_keys :
    List (Option ForeignKey) → Option (List (List ℕ × List (List ℕ × List ForeignKey)))
group_foreign_keys keys = group_keys keys []
