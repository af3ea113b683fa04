-- ===== src/Metadata/Merge/Patch.antt =====
-- metadata/merge.go: what `mergeMetadata` refuses.
use sqls.Base.{
  Bool, List, Option, [], false, if◌then◌else◌, none, not, some, true, ℕ, ◌&&◌, ◌||◌, ◌∷◌,
}
use sqls.Base.Ints.{ℤ, pos, negsuc}
use sqls.Catalog.Types.{ForeignKey}
use sqls.Catalog.Columns.{is_some, valid_foreign_key}
use sqls.Catalog.Cache.{
  Cache, CatalogCache, GoMap, MetadataKind, columns_all, columns_current, dependencies, domains,
  entries_of, exceptions, foreign_keys, functions, generators, indexes, other_kind, primary_keys,
  procedures, relations, schemas, system_relations, triggers, views, same_metadata_kind,
}

-- `catalog.MetadataPatch`
pub record MetadataPatch : Type 0 where
  pub cache : Option Cache
  pub count : ℤ
  pub queries : ℤ
  pub queries_known : Bool

pub data MergeError : Type 0 where
  nil_base nil_patch negative_counts unknown_kind missing_payload bad_foreign_key : MergeError

pub data Merged : Type 0 where
  merged : Cache → Merged
  refused : MergeError → Merged

abbrev pub is_negative : ℤ → Bool
is_negative (pos _) = false
is_negative (negsuc _) = true

-- `knownMetadataKind`
abbrev pub known_metadata_kind : MetadataKind → Bool
known_metadata_kind (other_kind _) = false
known_metadata_kind _ = true

-- A map of the fragment's catalog, nil where there is no catalog.
abbrev pub catalog_map : {V : Type 0} → (CatalogCache → GoMap V) → Cache → GoMap V
catalog_map get c = elim c.catalog [ none ↦ none | some catalog ↦ get catalog ]

-- `validateMetadataPayload`: whether the category's data is there.
unfoldable pub payload_present : MetadataKind → Cache → Bool
payload_present schemas f = is_some f.schemas_map
payload_present relations f = is_some f.schema_tables
payload_present columns_current f = is_some f.columns_with_parent
payload_present columns_all f = is_some f.columns_with_parent
payload_present primary_keys f = is_some f.primary_key_columns
payload_present foreign_keys f = is_some f.foreign_key_map
payload_present dependencies f = is_some f.dependency_graph
payload_present views f = is_some (catalog_map (λ c. c.views_map) f)
payload_present procedures f = is_some (catalog_map (λ c. c.procedures_map) f)
payload_present generators f = is_some (catalog_map (λ c. c.generators_map) f)
payload_present domains f = is_some (catalog_map (λ c. c.domains_map) f)
payload_present functions f = is_some (catalog_map (λ c. c.functions_map) f)
payload_present indexes f = is_some (catalog_map (λ c. c.indexes_map) f)
payload_present triggers f = is_some (catalog_map (λ c. c.triggers_map) f)
payload_present system_relations f = is_some (catalog_map (λ c. c.system_relations_by_id) f)
payload_present exceptions f = is_some (catalog_map (λ c. c.exceptions_by_id) f)
payload_present (other_kind _) f = false

-- The three loops over the foreign keys of a fragment.
abbrev pub keys_valid : List (Option ForeignKey) → Bool
keys_valid [] = true
keys_valid (k ∷ ks) = valid_foreign_key k && keys_valid ks

abbrev pub references_valid : List (List ℕ × List (Option ForeignKey)) → Bool
references_valid [] = true
references_valid ((t, ks) ∷ rest) = keys_valid ks && references_valid rest

abbrev pub foreign_keys_valid : List (List ℕ × List (List ℕ × List (Option ForeignKey))) → Bool
foreign_keys_valid [] = true
foreign_keys_valid ((t, refs) ∷ rest) = references_valid refs && foreign_keys_valid rest

-- The tests of `mergeMetadata`, in their order.
unfoldable pub check_patch : MetadataKind → MetadataPatch → Option MergeError
unfolding payload_present
check_patch kind patch = elim patch.cache [
  | none ↦ some nil_patch
  | some f ↦
      if is_negative patch.count || is_negative patch.queries
      then some negative_counts
      else if not (known_metadata_kind kind)
      then some unknown_kind
      else if not (payload_present kind f)
      then some missing_payload
      else if same_metadata_kind kind foreign_keys
          && not (foreign_keys_valid (entries_of f.foreign_key_map))
      then some bad_foreign_key
      else none
]

abbrev pub fragment : MetadataPatch → Cache → Cache
fragment patch base = elim patch.cache [ none ↦ base | some f ↦ f ]
