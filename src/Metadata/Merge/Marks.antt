-- ===== src/Metadata/Merge/Marks.antt =====
-- metadata/merge.go: marks of primary keys, put on columns that have some already.
use sqls.Base.{
  Bool-cases, List, Option, [], ap, if_cases, inl, inr, is_empty, none, refl, some, ℕ, ◌∙◌, ◌∷◌,
  ◌≡◌,
}
use sqls.Catalog.Types.{ColumnDesc, ColumnBase}
use sqls.Catalog.Cache.{GoMap, entries_of}
use sqls.Metadata.Merge.Externals.{Externals}
use sqls.Metadata.Merge.Marked.{
  mark_key, column_database_key, columns_by_id_with_primary_keys, columns_with_primary_keys,
  ids_with_keys, keys_at, mark_columns, tables_with_keys,
}

module _ (go : Externals) where
  mark_key-mark_key :
      (new old : List (List ℕ)) (d : ColumnDesc)
      → mark_key go new (mark_key go old d) ≡ mark_key go new d
  mark_key-mark_key new old d = elim (Bool-cases (is_empty d.base.schema)) [
    | inl bare ↦ rw (bare, bare) refl
    | inr qualified ↦ rw (qualified, qualified) refl
  ]

  mark_key-base : (keys : List (List ℕ)) (d : ColumnDesc) → (mark_key go keys d).base ≡ d.base
  mark_key-base keys d =
      if_cases (λ (x : ColumnDesc). x.base ≡ d.base) (is_empty d.base.schema) _ _ (λ h. refl)
        (λ h. refl)

  mark_columns-mark_columns :
      (new : ColumnBase → List (List ℕ)) (old : ColumnDesc → List (List ℕ))
      (ds : List (Option ColumnDesc))
      → mark_columns go (λ d. new d.base) (mark_columns go old ds)
        ≡ mark_columns go (λ d. new d.base) ds
  mark_columns-mark_columns new old [] = refl
  mark_columns-mark_columns new old (none ∷ ds) =
      ap (λ rest. none ∷ rest) (mark_columns-mark_columns new old ds)
  mark_columns-mark_columns new old (some d ∷ ds) =
      ap
        (λ b.
          some (mark_key go (new b) (mark_key go (old d) d))
          ∷ mark_columns go (λ e. new e.base) (mark_columns go old ds))
        (mark_key-base (old d) d)
      ∙ ap (λ e. some e ∷ mark_columns go (λ x. new x.base) (mark_columns go old ds))
          (mark_key-mark_key (new d.base) (old d) d)
      ∙ ap (λ rest. some (mark_key go (new d.base) d) ∷ rest) (mark_columns-mark_columns new old ds)

  tables_with_keys-twice :
      (new old : GoMap (List (List ℕ))) (m : List (List ℕ × List (Option ColumnDesc)))
      → tables_with_keys go new (tables_with_keys go old m) ≡ tables_with_keys go new m
  tables_with_keys-twice new old [] = refl
  tables_with_keys-twice new old ((table, ds) ∷ m) =
      ap (λ e. (table, e) ∷ tables_with_keys go new (tables_with_keys go old m))
        (mark_columns-mark_columns (λ b. keys_at go table new) (λ d. keys_at go table old) ds)
      ∙ ap (λ rest. (table, mark_columns go (λ d. keys_at go table new) ds) ∷ rest)
          (tables_with_keys-twice new old m)

  abbrev keys_of_column : GoMap (List (List ℕ)) → ColumnBase → List (List ℕ)
  keys_of_column keys b = keys_at go (column_database_key go b.schema b.table) keys

  ids_with_keys-twice :
      (new old : GoMap (List (List ℕ))) (m : List (List ℕ × List (Option ColumnDesc)))
      → ids_with_keys go new (ids_with_keys go old m) ≡ ids_with_keys go new m
  ids_with_keys-twice new old [] = refl
  ids_with_keys-twice new old ((id, ds) ∷ m) =
      ap (λ e. (id, e) ∷ ids_with_keys go new (ids_with_keys go old m))
        (mark_columns-mark_columns (keys_of_column new) (λ d. keys_of_column old d.base) ds)
      ∙ ap (λ rest. (id, mark_columns go (λ d. keys_of_column new d.base) ds) ∷ rest)
          (ids_with_keys-twice new old m)

  -- The marks of later keys replace the marks of earlier ones.
  pub columns_with_primary_keys-twice :
      (columns : GoMap (List (Option ColumnDesc))) (old new : GoMap (List (List ℕ)))
      → columns_with_primary_keys go (columns_with_primary_keys go columns old) new
        ≡ columns_with_primary_keys go columns new
  columns_with_primary_keys-twice columns old new =
      ap some (tables_with_keys-twice new old (entries_of columns))

  pub columns_by_id_with_primary_keys-twice :
      (columns : GoMap (List (Option ColumnDesc))) (old new : GoMap (List (List ℕ)))
      → columns_by_id_with_primary_keys go (columns_by_id_with_primary_keys go columns old) new
        ≡ columns_by_id_with_primary_keys go columns new
  columns_by_id_with_primary_keys-twice columns old new =
      ap some (ids_with_keys-twice new old (entries_of columns))
