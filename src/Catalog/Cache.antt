-- ===== src/Catalog/Cache.antt =====
-- catalog/cache.go and catalog/metadata.go: `Cache`, `CatalogCache`, the kinds and the states of metadata
-- categories. A Go map is a list of its entries, behind an `Option` since it may be nil. The maps whose
-- values the code dereferences without a test hold the descriptors themselves.
use sqls.Base.{
  Bool, List, Option, [], eqb, false, if◌then◌else◌, is_empty, none, not, some, true, ℕ, ◌&&◌, ◌++◌,
  ◌==◌, ◌||◌, ◌∷◌,
}
use sqls.Catalog.Types.{
  ColumnDesc, DomainDesc, ExceptionDesc, ForeignKey, FunctionDesc, GeneratorDesc, IndexDesc,
  ProcedureDesc, SystemRelationDesc, TriggerDesc, ViewDesc,
}
use sqls.Catalog.Identity.{
  ObjectId, index_object_id, kind_domain, kind_exception, kind_function, kind_generator,
  kind_procedure, kind_table, kind_trigger, kind_view, plain_id,
}
use sqls.Catalog.Dependencies.{DependencyGraph}
use sqls.Catalog.ObjectIndex.{ObjectIndex, Resolved, insert_all, new_object_index, resolve, unknown}

-- `map[string]V`
abbrev pub GoMap : Type 0 → Type 0
GoMap V = Option (List (List ℕ × V))

-- The entries of a map; a nil map has none.
abbrev pub entries_of : {V : Type 0} → GoMap V → List (List ℕ × V)
entries_of none = []
entries_of (some m) = m

abbrev pub find_value : {V : Type 0} → List ℕ → List (List ℕ × V) → Option V
find_value k [] = none
find_value k ((j, v) ∷ m) = if eqb j k then some v else find_value k m

-- `MetadataKind`, with any other string.
pub data MetadataKind : Type 0 where
  schemas relations columns_current columns_all primary_keys foreign_keys : MetadataKind
  views procedures generators domains functions indexes triggers : MetadataKind
  system_relations exceptions dependencies : MetadataKind
  other_kind : List ℕ → MetadataKind

-- The position of a kind in its declaration.
abbrev pub kind_place : MetadataKind → ℕ
kind_place schemas = 0
kind_place relations = 1
kind_place columns_current = 2
kind_place columns_all = 3
kind_place primary_keys = 4
kind_place foreign_keys = 5
kind_place views = 6
kind_place procedures = 7
kind_place generators = 8
kind_place domains = 9
kind_place functions = 10
kind_place indexes = 11
kind_place triggers = 12
kind_place system_relations = 13
kind_place exceptions = 14
kind_place dependencies = 15
kind_place (other_kind _) = 16

-- The string of a kind that has no constant.
abbrev pub kind_label : MetadataKind → List ℕ
kind_label (other_kind s) = s
kind_label _ = []

-- `==` on kinds.
abbrev pub same_metadata_kind : MetadataKind → MetadataKind → Bool
same_metadata_kind a b = kind_place a == kind_place b && eqb (kind_label a) (kind_label b)

-- `MetadataState`
pub data MetadataState : Type 0 where
  pending loading ready failed blocked cancelled unsupported : MetadataState

abbrev pub is_ready : Option MetadataState → Bool
is_ready (some ready) = true
is_ready _ = false

-- `CatalogCache`
pub record CatalogCache : Type 0 where
  pub views_map : GoMap ViewDesc
  pub procedures_map : GoMap ProcedureDesc
  pub generators_map : GoMap GeneratorDesc
  pub domains_map : GoMap DomainDesc
  pub functions_map : GoMap FunctionDesc
  pub indexes_map : GoMap (Option IndexDesc)
  pub indexes_by_table : GoMap (List (Option IndexDesc))
  pub triggers_map : GoMap (Option TriggerDesc)
  pub triggers_by_table : GoMap (List (Option TriggerDesc))
  pub objects : Option ObjectIndex
  pub views_by_id : GoMap ViewDesc
  pub procedures_by_id : GoMap ProcedureDesc
  pub generators_by_id : GoMap GeneratorDesc
  pub domains_by_id : GoMap DomainDesc
  pub functions_by_id : GoMap FunctionDesc
  pub indexes_by_id : GoMap (Option IndexDesc)
  pub triggers_by_id : GoMap TriggerDesc
  pub system_relations_by_id : GoMap (Option SystemRelationDesc)
  pub exceptions_by_id : GoMap (Option ExceptionDesc)

-- `Cache`
pub record Cache : Type 0 where
  pub default_schema : List ℕ
  pub schemas_map : GoMap (List ℕ)
  pub schema_tables : GoMap (List (List ℕ))
  pub columns_with_parent : GoMap (List (Option ColumnDesc))
  pub columns_by_id : GoMap (List (Option ColumnDesc))
  pub foreign_key_map : GoMap (List (List ℕ × List (Option ForeignKey)))
  pub metadata : MetadataKind → Option MetadataState
  pub primary_key_columns : GoMap (List (List ℕ))
  pub primary_keys_by_id : GoMap (List (List ℕ))
  pub catalog : Option CatalogCache
  pub dependency_graph : Option DependencyGraph

-- `(*Cache).MetadataReady` of a cache that is not nil.
abbrev all_ready : Cache → List MetadataKind → Bool
all_ready c [] = true
all_ready c (k ∷ ks) = is_ready (c.metadata k) && all_ready c ks

unfoldable pub metadata_ready : Cache → List MetadataKind → Bool
metadata_ready c ks = not (is_empty ks) && all_ready c ks

-- `(*Cache).ColumnsReady`
unfoldable pub columns_ready : Cache → Bool
unfolding metadata_ready
columns_ready c = metadata_ready c (columns_current ∷ []) || metadata_ready c (columns_all ∷ [])

-- The loops of `RebuildObjects`, one for each map: the identities that go into the index.
abbrev ids_of : {V : Type 0} → (V → ObjectId) → List (List ℕ × V) → List ObjectId
ids_of f [] = []
ids_of f ((k, v) ∷ m) = f v ∷ ids_of f m

abbrev ids_of_some : {V : Type 0} → (V → ObjectId) → List (List ℕ × Option V) → List ObjectId
ids_of_some f [] = []
ids_of_some f ((k, none) ∷ m) = ids_of_some f m
ids_of_some f ((k, some v) ∷ m) = f v ∷ ids_of_some f m

abbrev exception_id : ExceptionDesc → ObjectId
exception_id v = record (plain_id kind_exception v.name) { schema = v.schema }

unfoldable pub object_ids : CatalogCache → List ObjectId
object_ids c =
    ids_of (λ v. plain_id kind_view v.name) (entries_of c.views_by_id)
    ++ ids_of (λ v. plain_id kind_procedure v.name) (entries_of c.procedures_by_id)
    ++ ids_of (λ v. plain_id kind_generator v.name) (entries_of c.generators_by_id)
    ++ ids_of (λ v. plain_id kind_domain v.name) (entries_of c.domains_by_id)
    ++ ids_of (λ v. plain_id kind_function v.name) (entries_of c.functions_by_id)
    ++ ids_of_some (λ v. index_object_id v.schema v.relation_name v.name)
        (entries_of c.indexes_by_id)
    ++ ids_of (λ v. plain_id kind_trigger v.name) (entries_of c.triggers_by_id)
    ++ ids_of_some (λ v. plain_id kind_table v.name) (entries_of c.system_relations_by_id)
    ++ ids_of_some exception_id (entries_of c.exceptions_by_id)

-- `(*CatalogCache).RebuildObjects` of a catalog that is not nil.
unfoldable pub rebuild_objects : Option (List ℕ → List ℕ) → CatalogCache → CatalogCache
rebuild_objects fold c = record c {
  objects = some (insert_all (object_ids c) (new_object_index fold));
}

-- `(*Cache).HasCatalog`
abbrev pub has_catalog : Cache → Bool
has_catalog c = elim c.catalog [ none ↦ false | some _ ↦ true ]

-- `(*Cache).ResolveObjectName`
unfoldable pub resolve_object_name : Cache → List ℕ → List ℕ → Resolved
resolve_object_name c kind want = elim c.catalog [
  | none ↦ unknown
  | some catalog ↦ elim catalog.objects [
    | none ↦ unknown
    | some x ↦ resolve (some x) (plain_id kind want)
  ]
]
