-- ===== src/Metadata/Merge/Keyed.antt =====
-- metadata/merge.go: columns and primary keys, merged into a combined cache.
use sqls.Base.{
  Bool, Bool-cases, List, Option, [], ap, arith, false, if◌then◌else◌, inl, inr, none, refl, some,
  sym, true, ℕ, ◌||◌, ◌∙◌, ◌∷◌, ◌≡◌,
}
use sqls.Catalog.Types.{ColumnDesc}
use sqls.Catalog.Cache.{
  Cache, MetadataKind, columns_all, columns_current, primary_keys, columns_ready, metadata_ready,
  GoMap,
}
use sqls.Metadata.Merge.Externals.{Externals}
use sqls.Catalog.Columns.{is_some}
use sqls.Metadata.Merge.Marked.{
  mark_key, columns_by_id_with_primary_keys, columns_with_primary_keys,
}
use sqls.Metadata.Merge.Publish.{publish_kind, clone_map, publish_columns, publish_keys}
use sqls.Metadata.Merge.Combined.{
  add, combined, combined_keys, marked_columns, supplied, through, combined_columns,
}
use sqls.Metadata.Merge.Marks.{
  columns_by_id_with_primary_keys-twice, columns_with_primary_keys-twice,
}
use sqls.Metadata.Merge.Columns.{metadata_ready-combined, marked_columns-keys}

supplied-all :
    (all c d : Option Cache) (all_before : Bool)
    → (is_some all || all_before) ≡ true
    → supplied all c all_before ≡ supplied all d all_before
supplied-all (some a) c d b h = refl
supplied-all none c d true h = refl
supplied-all none c d false h = ground arith

supplied-current :
    (all : Option Cache) (c : Cache) (all_before : Bool)
    → (is_some all || all_before) ≡ false
    → supplied all (some c) all_before ≡ some c
supplied-current (some a) c b h = ground arith
supplied-current none c true h = ground arith
supplied-current none c false h = refl

module _ (go : Externals) (g : MetadataKind → Option Cache) (base : Cache) (f : Cache) where
  -- The combined cache with one more fragment, before its category is ready.
  abbrev pub combined_early : MetadataKind → Cache
  combined_early kind = record (combined go (add go kind f g) base) {
    metadata = (combined go g base).metadata;
  }

  -- The combined cache with the columns that a fragment of columns gives.
  unfoldable pub columns_from : Option Cache → Cache
  columns_from s = record (combined go g base) {
    columns_with_parent =
        marked_columns (columns_with_primary_keys go) (combined_keys go g base)
          (through (λ c. c.columns_with_parent) s) base.columns_with_parent
          (is_some (g primary_keys)) (metadata_ready base (primary_keys ∷ [])) (columns_ready base);
    columns_by_id =
        marked_columns (columns_by_id_with_primary_keys go) (combined_keys go g base)
          (through (λ c. c.columns_by_id) s) base.columns_by_id (is_some (g primary_keys))
          (metadata_ready base (primary_keys ∷ [])) (columns_ready base);
  }

  pub publish_columns-combined : publish_columns go f (combined go g base) ≡ columns_from (some f)
  unfolding publish_columns columns_from combined
  publish_columns-combined =
      elim (Bool-cases (is_some (g primary_keys) || metadata_ready base (primary_keys ∷ []))) [
        | inl marked ↦ rw (metadata_ready-combined go g base primary_keys ∙ marked, marked) refl
        | inr bare ↦ rw (metadata_ready-combined go g base primary_keys ∙ bare, bare) refl
      ]

  pub publish_current-combined :
      publish_kind go columns_current f (combined go g base)
      ≡ columns_from (supplied (g columns_all) (some f) (metadata_ready base (columns_all ∷ [])))
  unfolding publish_kind columns_from combined
  publish_current-combined =
      elim (Bool-cases (is_some (g columns_all) || metadata_ready base (columns_all ∷ []))) [
        | inl all_before ↦ rw (metadata_ready-combined go g base columns_all ∙ all_before) (
            ap columns_from (
              supplied-all (g columns_all) (g columns_current) (some f)
                (metadata_ready base (columns_all ∷ [])) all_before))
        | inr no_all ↦ rw (metadata_ready-combined go g base columns_all ∙ no_all) (
            publish_columns-combined
            ∙ ap columns_from (
                sym (
                  supplied-current (g columns_all) f (metadata_ready base (columns_all ∷ []))
                    no_all)))
      ]

  abbrev keys_after : GoMap (List (List ℕ))
  keys_after = clone_map f.primary_key_columns

  -- The combined cache with keys, and these columns.
  with_keys : GoMap (List (Option ColumnDesc)) → GoMap (List (Option ColumnDesc)) → Cache
  with_keys parents ids = record (combined go g base) {
    primary_key_columns = keys_after;
    primary_keys_by_id = f.primary_keys_by_id;
    columns_with_parent = parents;
    columns_by_id = ids;
  }

  columns_ready-combined : columns_ready (combined go g base) ≡ (
      (is_some (g columns_current) || metadata_ready base (columns_current ∷ []))
      || (is_some (g columns_all) || metadata_ready base (columns_all ∷ [])))
  unfolding columns_ready
  columns_ready-combined =
      ap (λ b. b || metadata_ready (combined go g base) (columns_all ∷ []))
        (metadata_ready-combined go g base columns_current)
      ∙ ap (λ b. (is_some (g columns_current) || metadata_ready base (columns_current ∷ [])) || b)
          (metadata_ready-combined go g base columns_all)

  -- Each of the two maps of columns, as `publish_keys` leaves it.
  abbrev remarked :
      (GoMap (List (Option ColumnDesc)) → GoMap (List (List ℕ)) → GoMap (List (Option ColumnDesc)))
      → GoMap (List (Option ColumnDesc))
      → GoMap (List (Option ColumnDesc))
  remarked mark_key columns =
      if columns_ready (combined go g base) then mark_key columns keys_after else columns

  publish_keys-remarked :
      publish_keys go f (combined go g base)
      ≡ with_keys
          (remarked (columns_with_primary_keys go) (combined go g base).columns_with_parent)
          (remarked (columns_by_id_with_primary_keys go) (combined go g base).columns_by_id)
  unfolding publish_keys with_keys combined
  publish_keys-remarked = elim (Bool-cases (columns_ready (combined go g base))) [
    | inl before ↦ rw before refl
    | inr later ↦ rw later refl
  ]

  remarked-combined :
      (mark_key : GoMap (List (Option ColumnDesc))
        → GoMap (List (List ℕ))
        → GoMap (List (Option ColumnDesc)))
      → ((columns : GoMap (List (Option ColumnDesc))) (old new : GoMap (List (List ℕ)))
          → mark_key (mark_key columns old) new ≡ mark_key columns new)
      → (get : Cache → GoMap (List (Option ColumnDesc))) → g primary_keys ≡ none
      → remarked mark_key (combined_columns go mark_key get g base)
        ≡ combined_columns go mark_key get (add go primary_keys f g) base
  unfolding columns_ready
  remarked-combined mark_key twice get fresh =
      rw (columns_ready-combined, fresh)
        (marked_columns-keys mark_key twice get (g columns_all) (g columns_current)
          (metadata_ready base (columns_all ∷ [])) (metadata_ready base (columns_current ∷ []))
          (metadata_ready base (primary_keys ∷ [])) (get base) base.primary_key_columns keys_after)

  pub publish_keys-combined :
      g primary_keys ≡ none → publish_keys go f (combined go g base) ≡ combined_early primary_keys
  unfolding with_keys combined
  publish_keys-combined fresh =
      publish_keys-remarked
      ∙ ap
          (λ parents.
            with_keys parents
              (remarked (columns_by_id_with_primary_keys go) (combined go g base).columns_by_id))
          (remarked-combined (columns_with_primary_keys go) (columns_with_primary_keys-twice go)
            (λ c. c.columns_with_parent) fresh)
      ∙ ap
          (with_keys (
            combined_columns go (columns_with_primary_keys go) (λ c. c.columns_with_parent)
              (add go primary_keys f g) base))
          (remarked-combined (columns_by_id_with_primary_keys go)
            (columns_by_id_with_primary_keys-twice go) (λ c. c.columns_by_id) fresh)
