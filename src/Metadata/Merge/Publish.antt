-- ===== src/Metadata/Merge/Publish.antt =====
-- metadata/merge.go: the switch over the categories, and `mergeMetadata`.
use sqls.Base.{Option, [], if◌then◌else◌, none, some, ◌∷◌}
use sqls.Catalog.Cache.{
  Cache, CatalogCache, GoMap, MetadataKind, columns_all, columns_current, dependencies, domains,
  entries_of, exceptions, foreign_keys, functions, generators, indexes, other_kind, primary_keys,
  procedures, relations, schemas, system_relations, triggers, views, columns_ready, metadata_ready,
  ready, rebuild_objects, same_metadata_kind,
}
use sqls.Metadata.Merge.Externals.{Externals}
use sqls.Catalog.Columns.{is_some}
use sqls.Metadata.Merge.Patch.{
  Merged, MetadataPatch, catalog_map, check_patch, merged, nil_base, refused, fragment,
}
use sqls.Metadata.Merge.Marked.{columns_with_primary_keys, columns_by_id_with_primary_keys}
use sqls.Metadata.Merge.Groups.{index_groups, trigger_groups}

-- `cloneMap` and its like: a nil map becomes an empty one.

abbrev pub clone_map : {V : Type 0} → GoMap V → GoMap V
clone_map m = some (entries_of m)

-- `cloneCatalogHeader`
abbrev pub empty_catalog : CatalogCache
empty_catalog = record {
  views_map = none;
  procedures_map = none;
  generators_map = none;
  domains_map = none;
  functions_map = none;
  indexes_map = none;
  indexes_by_table = none;
  triggers_map = none;
  triggers_by_table = none;
  objects = none;
  views_by_id = none;
  procedures_by_id = none;
  generators_by_id = none;
  domains_by_id = none;
  functions_by_id = none;
  indexes_by_id = none;
  triggers_by_id = none;
  system_relations_by_id = none;
  exceptions_by_id = none;
}

abbrev pub clone_catalog_header : Option CatalogCache → CatalogCache
clone_catalog_header none = empty_catalog
clone_catalog_header (some c) = c

module _ (go : Externals) where
  -- `next.Metadata[kind] = catalog.MetadataReady`
  abbrev pub set_ready : MetadataKind → Cache → Cache
  set_ready kind c = record c {
    metadata = λ k. if same_metadata_kind kind k then some ready else c.metadata k;
  }

  -- The columns of a fragment, with the primary keys where they are there before them.
  unfoldable pub publish_columns : Cache → Cache → Cache
  publish_columns f base =
      if metadata_ready base (primary_keys ∷ [])
      then record base {
        columns_with_parent =
            columns_with_primary_keys go (clone_map f.columns_with_parent) base.primary_key_columns;
        columns_by_id =
            columns_by_id_with_primary_keys go (clone_map f.columns_by_id) base.primary_key_columns;
      }
      else record base {
        columns_with_parent = clone_map f.columns_with_parent;
        columns_by_id = clone_map f.columns_by_id;
      }

  -- The primary keys of a fragment, and their marks on the columns that are there before them.
  unfoldable pub publish_keys : Cache → Cache → Cache
  publish_keys f base =
      let keys = clone_map f.primary_key_columns in
      let next = record base {
        primary_key_columns = keys;
        primary_keys_by_id = f.primary_keys_by_id;
      } in
      if columns_ready base
      then record next {
        columns_with_parent = columns_with_primary_keys go base.columns_with_parent keys;
        columns_by_id = columns_by_id_with_primary_keys go base.columns_by_id keys;
      }
      else next

  -- The inner switch: one category of the catalog header `c`, from the fragment.
  unfoldable pub publish_category : MetadataKind → Cache → CatalogCache → CatalogCache
  publish_category views f c = record c {
    views_map = clone_map (catalog_map (λ d. d.views_map) f);
    views_by_id = clone_map (catalog_map (λ d. d.views_by_id) f);
  }
  publish_category procedures f c = record c {
    procedures_map = clone_map (catalog_map (λ d. d.procedures_map) f);
    procedures_by_id = clone_map (catalog_map (λ d. d.procedures_by_id) f);
  }
  publish_category generators f c = record c {
    generators_map = clone_map (catalog_map (λ d. d.generators_map) f);
    generators_by_id = clone_map (catalog_map (λ d. d.generators_by_id) f);
  }
  publish_category domains f c = record c {
    domains_map = clone_map (catalog_map (λ d. d.domains_map) f);
    domains_by_id = clone_map (catalog_map (λ d. d.domains_by_id) f);
  }
  publish_category functions f c = record c {
    functions_map = clone_map (catalog_map (λ d. d.functions_map) f);
    functions_by_id = clone_map (catalog_map (λ d. d.functions_by_id) f);
  }
  publish_category indexes f c =
      let map = clone_map (catalog_map (λ d. d.indexes_map) f) in
      let groups = catalog_map (λ d. d.indexes_by_table) f in
      record c {
        indexes_map = map;
        indexes_by_table = if is_some groups then clone_map groups else index_groups go map;
        indexes_by_id = clone_map (catalog_map (λ d. d.indexes_by_id) f);
      }
  publish_category triggers f c =
      let map = clone_map (catalog_map (λ d. d.triggers_map) f) in
      record c {
        triggers_map = map;
        triggers_by_table = trigger_groups go map;
        triggers_by_id = clone_map (catalog_map (λ d. d.triggers_by_id) f);
      }
  publish_category system_relations f c = record c {
    system_relations_by_id = clone_map (catalog_map (λ d. d.system_relations_by_id) f);
  }
  publish_category exceptions f c = record c {
    exceptions_by_id = clone_map (catalog_map (λ d. d.exceptions_by_id) f);
  }
  publish_category _ f c = c

  -- The branch of the kinds that the catalog holds.
  unfoldable pub publish_catalog : MetadataKind → Cache → Cache → Cache
  publish_catalog kind f base = record base {
    catalog =
        some (rebuild_objects none (publish_category kind f (clone_catalog_header base.catalog)));
  }

  -- The outer switch, on the cache whose category is ready already; `base` is the cache before.
  unfoldable pub publish_kind : MetadataKind → Cache → Cache → Cache
  publish_kind schemas f base = record base {
    default_schema = f.default_schema;
    schemas_map = clone_map f.schemas_map;
  }
  publish_kind relations f base = record base { schema_tables = clone_map f.schema_tables }
  publish_kind columns_current f base =
      if metadata_ready base (columns_all ∷ []) then base else publish_columns f base
  publish_kind columns_all f base = publish_columns f base
  publish_kind primary_keys f base = publish_keys f base
  publish_kind foreign_keys f base = record base { foreign_key_map = clone_map f.foreign_key_map }
  publish_kind dependencies f base = record base { dependency_graph = f.dependency_graph }
  publish_kind (other_kind _) f base = base
  publish_kind kind f base = publish_catalog kind f base

  -- `mergeMetadata`
  unfoldable pub merge_metadata : Option Cache → MetadataKind → MetadataPatch → Merged
  unfolding check_patch publish_kind
  merge_metadata none kind patch = refused nil_base
  merge_metadata (some base) kind patch = elim (check_patch kind patch) [
    | some e ↦ refused e
    | none ↦ merged (set_ready kind (publish_kind kind (fragment patch base) base))
  ]
