-- ===== src/Metadata/Merge/Combined.antt =====
-- metadata/merge.go: what a set of fragments, one for each category, makes of a cache, without an order.
use sqls.Base.{Bool, List, Option, [], false, if◌then◌else◌, none, some, true, ℕ, ◌&&◌, ◌||◌, ◌∷◌}
use sqls.Catalog.Types.{ColumnDesc, IndexDesc}
use sqls.Catalog.Cache.{
  Cache, CatalogCache, GoMap, MetadataKind, columns_all, columns_current, columns_ready,
  dependencies, domains, exceptions, foreign_keys, functions, generators, indexes, metadata_ready,
  primary_keys, procedures, ready, rebuild_objects, relations, schemas, system_relations, triggers,
  views, same_metadata_kind,
}
use sqls.Metadata.Merge.Externals.{Externals}
use sqls.Catalog.Columns.{is_some}
use sqls.Metadata.Merge.Patch.{catalog_map}
use sqls.Metadata.Merge.Marked.{columns_by_id_with_primary_keys, columns_with_primary_keys}
use sqls.Metadata.Merge.Groups.{index_groups, trigger_groups}
use sqls.Metadata.Merge.Publish.{clone_catalog_header, clone_map}

-- A category's value where its fragment is there, and the old one where it is not.
abbrev pub pick : {A : Type 0} → Option Cache → (Cache → A) → A → A
pick none new old = old
pick (some f) new old = new f

-- The columns of all schemas win over those of the current one, whichever come first.
abbrev pub supplied : Option Cache → Option Cache → Bool → Option Cache
supplied (some f) current all_before = some f
supplied none current true = none
supplied none current false = current

-- Columns with the marks of primary keys: `keys` are the keys after all, with a fragment of keys or
-- not, `keys_before` and `columns_before` what was ready before.
abbrev pub marked_columns :
    (GoMap (List (Option ColumnDesc)) → GoMap (List (List ℕ)) → GoMap (List (Option ColumnDesc)))
    → GoMap (List (List ℕ))
    → Option (GoMap (List (Option ColumnDesc)))
    → GoMap (List (Option ColumnDesc))
    → (new_keys keys_before columns_before : Bool) → GoMap (List (Option ColumnDesc))
marked_columns with_keys keys (some new) old new_keys keys_before columns_before =
    if new_keys || keys_before then with_keys (clone_map new) keys else clone_map new
marked_columns with_keys keys none old new_keys keys_before columns_before =
    if new_keys && columns_before then with_keys old keys else old

abbrev pub through :
    (Cache → GoMap (List (Option ColumnDesc)))
    → Option Cache
    → Option (GoMap (List (Option ColumnDesc)))
through get none = none
through get (some f) = some (get f)

abbrev pub any_category : (MetadataKind → Option Cache) → Bool
any_category g =
    is_some (g views)
    || (is_some (g procedures)
        || (is_some (g generators)
            || (is_some (g domains)
                || (is_some (g functions)
                    || (is_some (g indexes)
                        || (is_some (g triggers)
                            || (is_some (g system_relations) || is_some (g exceptions))))))))

module _ (go : Externals) where
  abbrev table_groups : Cache → GoMap (List (Option IndexDesc))
  table_groups f =
      let groups = catalog_map (λ d. d.indexes_by_table) f in
      if is_some groups
      then clone_map groups
      else index_groups go (clone_map (catalog_map (λ d. d.indexes_map) f))

  abbrev pub categories : (MetadataKind → Option Cache) → CatalogCache → CatalogCache
  categories g c = record {
    views_map = pick (g views) (λ f. clone_map (catalog_map (λ d. d.views_map) f)) c.views_map;
    procedures_map =
        pick (g procedures) (λ f. clone_map (catalog_map (λ d. d.procedures_map) f))
          c.procedures_map;
    generators_map =
        pick (g generators) (λ f. clone_map (catalog_map (λ d. d.generators_map) f))
          c.generators_map;
    domains_map =
        pick (g domains) (λ f. clone_map (catalog_map (λ d. d.domains_map) f)) c.domains_map;
    functions_map =
        pick (g functions) (λ f. clone_map (catalog_map (λ d. d.functions_map) f)) c.functions_map;
    indexes_map =
        pick (g indexes) (λ f. clone_map (catalog_map (λ d. d.indexes_map) f)) c.indexes_map;
    indexes_by_table = pick (g indexes) table_groups c.indexes_by_table;
    triggers_map =
        pick (g triggers) (λ f. clone_map (catalog_map (λ d. d.triggers_map) f)) c.triggers_map;
    triggers_by_table =
        pick (g triggers) (λ f. trigger_groups go (clone_map (catalog_map (λ d. d.triggers_map) f)))
          c.triggers_by_table;
    objects = c.objects;
    views_by_id =
        pick (g views) (λ f. clone_map (catalog_map (λ d. d.views_by_id) f)) c.views_by_id;
    procedures_by_id =
        pick (g procedures) (λ f. clone_map (catalog_map (λ d. d.procedures_by_id) f))
          c.procedures_by_id;
    generators_by_id =
        pick (g generators) (λ f. clone_map (catalog_map (λ d. d.generators_by_id) f))
          c.generators_by_id;
    domains_by_id =
        pick (g domains) (λ f. clone_map (catalog_map (λ d. d.domains_by_id) f)) c.domains_by_id;
    functions_by_id =
        pick (g functions) (λ f. clone_map (catalog_map (λ d. d.functions_by_id) f))
          c.functions_by_id;
    indexes_by_id =
        pick (g indexes) (λ f. clone_map (catalog_map (λ d. d.indexes_by_id) f)) c.indexes_by_id;
    triggers_by_id =
        pick (g triggers) (λ f. clone_map (catalog_map (λ d. d.triggers_by_id) f)) c.triggers_by_id;
    system_relations_by_id =
        pick (g system_relations) (λ f. clone_map (catalog_map (λ d. d.system_relations_by_id) f))
          c.system_relations_by_id;
    exceptions_by_id =
        pick (g exceptions) (λ f. clone_map (catalog_map (λ d. d.exceptions_by_id) f))
          c.exceptions_by_id;
  }

  -- The index of objects is that of all categories, old and new.
  abbrev pub combined_catalog :
      (MetadataKind → Option Cache) → Option CatalogCache → Option CatalogCache
  combined_catalog g catalog =
      if any_category g
      then some (rebuild_objects none (categories g (clone_catalog_header catalog)))
      else catalog

  abbrev pub combined_keys : (MetadataKind → Option Cache) → Cache → GoMap (List (List ℕ))
  combined_keys g base =
      pick (g primary_keys) (λ f. clone_map f.primary_key_columns) base.primary_key_columns

  abbrev pub combined_columns :
      (GoMap (List (Option ColumnDesc)) → GoMap (List (List ℕ)) → GoMap (List (Option ColumnDesc)))
      → (Cache → GoMap (List (Option ColumnDesc)))
      → (MetadataKind → Option Cache)
      → Cache
      → GoMap (List (Option ColumnDesc))
  combined_columns with_keys get g base =
      marked_columns with_keys (combined_keys g base)
        (through get
          (supplied (g columns_all) (g columns_current) (metadata_ready base (columns_all ∷ []))))
        (get base) (is_some (g primary_keys)) (metadata_ready base (primary_keys ∷ []))
        (columns_ready base)

  -- The cache with the fragments that `g` has.
  unfoldable pub combined : (MetadataKind → Option Cache) → Cache → Cache
  combined g base = record {
    default_schema = pick (g schemas) (λ f. f.default_schema) base.default_schema;
    schemas_map = pick (g schemas) (λ f. clone_map f.schemas_map) base.schemas_map;
    schema_tables = pick (g relations) (λ f. clone_map f.schema_tables) base.schema_tables;
    columns_with_parent =
        combined_columns (columns_with_primary_keys go) (λ f. f.columns_with_parent) g base;
    columns_by_id =
        combined_columns (columns_by_id_with_primary_keys go) (λ f. f.columns_by_id) g base;
    foreign_key_map = pick (g foreign_keys) (λ f. clone_map f.foreign_key_map) base.foreign_key_map;
    metadata = λ k. if is_some (g k) then some ready else base.metadata k;
    primary_key_columns = combined_keys g base;
    primary_keys_by_id = pick (g primary_keys) (λ f. f.primary_keys_by_id) base.primary_keys_by_id;
    catalog = combined_catalog g base.catalog;
    dependency_graph = pick (g dependencies) (λ f. f.dependency_graph) base.dependency_graph;
  }

  -- The fragments with one more.
  abbrev pub add :
      MetadataKind → Cache → (MetadataKind → Option Cache) → MetadataKind → Option Cache
  add kind f g k = if same_metadata_kind kind k then some f else g k
