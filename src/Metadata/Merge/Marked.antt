-- ===== src/Metadata/Merge/Marked.antt =====
-- metadata/merge.go: the marks of primary keys on columns.
use sqls.Base.{
  Bool, List, Option, [], codes, false, if◌then◌else◌, is_empty, none, some, ℕ, ◌||◌, ◌∷◌,
}
use sqls.Catalog.Types.{ColumnDesc}
use sqls.Catalog.Cache.{GoMap, entries_of, find_value}
use sqls.Catalog.Columns.{database_key}
use sqls.Metadata.Merge.Externals.{Externals}

module _ (go : Externals) where
  abbrev any_equal_fold : List (List ℕ) → List ℕ → Bool
  any_equal_fold [] name = false
  any_equal_fold (k ∷ ks) name = go.fold_equal k name || any_equal_fold ks name

  -- The body of the inner loop: the mark of one column.
  abbrev pub mark_key : List (List ℕ) → ColumnDesc → ColumnDesc
  mark_key keys d =
      if is_empty d.base.schema
      then record d { key = if any_equal_fold keys d.base.name then codes "YES" else codes "NO" }
      else d

  abbrev pub mark_columns :
      (ColumnDesc → List (List ℕ)) → List (Option ColumnDesc) → List (Option ColumnDesc)
  mark_columns keys [] = []
  mark_columns keys (none ∷ ds) = none ∷ mark_columns keys ds
  mark_columns keys (some d ∷ ds) = some (mark_key (keys d) d) ∷ mark_columns keys ds

  -- `primaryKeys[table]`
  abbrev pub keys_at : List ℕ → GoMap (List (List ℕ)) → List (List ℕ)
  keys_at table keys = elim (find_value table (entries_of keys)) [ none ↦ [] | some ks ↦ ks ]

  abbrev pub tables_with_keys :
      GoMap (List (List ℕ))
      → List (List ℕ × List (Option ColumnDesc))
      → List (List ℕ × List (Option ColumnDesc))
  tables_with_keys keys [] = []
  tables_with_keys keys ((table, ds) ∷ m) =
      (table, mark_columns (λ d. keys_at table keys) ds) ∷ tables_with_keys keys m

  -- `columnsWithPrimaryKeys`
  abbrev pub columns_with_primary_keys :
      GoMap (List (Option ColumnDesc)) → GoMap (List (List ℕ)) → GoMap (List (Option ColumnDesc))
  columns_with_primary_keys columns keys = some (tables_with_keys keys (entries_of columns))

  -- `ColumnDatabaseKey`
  abbrev pub column_database_key : List ℕ → List ℕ → List ℕ
  column_database_key = database_key go.to_upper

  abbrev pub ids_with_keys :
      GoMap (List (List ℕ))
      → List (List ℕ × List (Option ColumnDesc))
      → List (List ℕ × List (Option ColumnDesc))
  ids_with_keys keys [] = []
  ids_with_keys keys ((id, ds) ∷ m) =
      (id, mark_columns (λ d. keys_at (column_database_key d.base.schema d.base.table) keys) ds)
      ∷ ids_with_keys keys m

  -- `columnsByIDWithPrimaryKeys`
  abbrev pub columns_by_id_with_primary_keys :
      GoMap (List (Option ColumnDesc)) → GoMap (List (List ℕ)) → GoMap (List (Option ColumnDesc))
  columns_by_id_with_primary_keys columns keys = some (ids_with_keys keys (entries_of columns))
