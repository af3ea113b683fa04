-- ===== src/Tests/Merge.antt =====
-- metadata/merge.go: primary keys and columns, in both orders.
use sqls.Base.{List, [], codes, eqb, false, none, refl, some, to_upper, trim, true, ℕ, ◌∷◌, ◌≡◌}
use sqls.Base.Ints.{pos}
use sqls.Catalog.Types.{ColumnDesc}
use sqls.Metadata.Merge.Publish.{publish_kind, publish_columns, publish_keys, merge_metadata}
use sqls.Catalog.Cache.{
  schemas, relations, columns_current, columns_all, primary_keys, foreign_keys, views, procedures,
  generators, domains, functions, indexes, triggers, system_relations, exceptions, dependencies,
  other_kind, Cache, MetadataKind, columns_all, primary_keys, views, columns_ready, metadata_ready,
}
use sqls.Tests.Samples.{empty_cache}
use sqls.Metadata.Merge.Externals.{Externals}
use sqls.Metadata.Merge.Patch.{MetadataPatch, check_patch}
use sqls.Metadata.Merge.Combined.{combined}
use sqls.Metadata.Merge.Order.{accepted, merge_each, merge_each-in_any_order, patch_of}

-- Go's functions, for ASCII.
abbrev ascii : Externals
ascii = record {
  fold_equal = λ a b. eqb (to_upper a) (to_upper b);
  to_upper = to_upper;
  trim_space = trim;
  sort_indexes = λ l. l;
  sort_triggers = λ l. l;
}

abbrev column : List ℕ → List ℕ → ColumnDesc
column name key = record {
  base = record { schema = []; table = codes "T"; name = name };
  type_text = codes "INTEGER";
  nullability = codes "NO";
  key = key;
  default_value = record { value = []; valid = false };
  extra = [];
  facts = none;
}

abbrev table_key : List ℕ
table_key = codes "\tT"

abbrev patch_with : Cache → MetadataPatch
patch_with c = record { cache = some c; count = pos 1; queries = pos 1; queries_known = true }

abbrev column_patch : MetadataPatch
column_patch = patch_with (record empty_cache {
  columns_with_parent =
      some ((table_key, some (column (codes "A") []) ∷ some (column (codes "B") []) ∷ []) ∷ []);
})

abbrev key_patch : MetadataPatch
key_patch =
    patch_with
      (record empty_cache { primary_key_columns = some ((table_key, codes "b" ∷ []) ∷ []) })

abbrev first_columns : List (MetadataKind × MetadataPatch)
first_columns =
    (columns_all, column_patch) ∷ (views, patch_with empty_cache) ∷ (primary_keys, key_patch) ∷ []

abbrev first_keys : List (MetadataKind × MetadataPatch)
first_keys =
    (primary_keys, key_patch) ∷ (views, patch_with empty_cache) ∷ (columns_all, column_patch) ∷ []

marks-kept :
    (merge_each ascii empty_cache first_keys).columns_with_parent
    ≡ some (
        (
          table_key,
          some (column (codes "A") (codes "NO")) ∷ some (column (codes "B") (codes "YES")) ∷ [],
        )
        ∷ [])
unfolding merge_each merge_metadata publish_kind publish_columns publish_keys check_patch
    metadata_ready columns_ready
marks-kept = refl

same_patches : (k : MetadataKind) → patch_of k first_columns ≡ patch_of k first_keys
same_patches schemas = refl
same_patches relations = refl
same_patches columns_current = refl
same_patches columns_all = refl
same_patches primary_keys = refl
same_patches foreign_keys = refl
same_patches views = refl
same_patches procedures = refl
same_patches generators = refl
same_patches domains = refl
same_patches functions = refl
same_patches indexes = refl
same_patches triggers = refl
same_patches system_relations = refl
same_patches exceptions = refl
same_patches dependencies = refl
same_patches (other_kind _) = refl

merge_each-in_any_order_example :
    (merge_each ascii empty_cache first_columns
      ≡ combined ascii (accepted first_columns) empty_cache)
    × (merge_each ascii empty_cache first_keys ≡ merge_each ascii empty_cache first_columns)
merge_each-in_any_order_example =
    merge_each-in_any_order ascii empty_cache first_columns first_keys (refl, (refl, (refl, tt)))
      (refl, (refl, (refl, tt))) same_patches
