-- ===== src/Catalog/Lookups.antt =====
-- catalog/cache.go: the accessors of a cache. A result that Go gives with `false` is `none`. What they use
-- of Go's library are the parameters, of which nothing is assumed.
use sqls.Base.{Bool, List, Option, [], eqb, if◌then◌else◌, none, not, some, ℕ, ◌&&◌, ◌++◌, ◌∷◌}
use sqls.Catalog.Types.{
  ColumnDesc, DomainDesc, ExceptionDesc, FunctionDesc, GeneratorDesc, IndexDesc, ProcedureDesc,
  SystemRelationDesc, TriggerDesc, ViewDesc,
}
use sqls.Catalog.Identity.{
  index_object_id, kind_domain, kind_exception, kind_function, kind_generator, kind_index,
  kind_procedure, kind_table, kind_trigger, kind_view, object_key, plain_id,
}
use sqls.Catalog.Cache.{Cache, CatalogCache, GoMap, entries_of, find_value}

-- A map of the catalog at a key; there is none without a catalog.
abbrev pub catalog_at : {V : Type 0} → (CatalogCache → GoMap V) → Cache → List ℕ → Option V
catalog_at get c key = elim c.catalog [
  | none ↦ none
  | some catalog ↦ find_value key (entries_of (get catalog))
]

-- `objectIDKeyFor`
abbrev pub object_id_key_for : List ℕ → List ℕ → List ℕ
object_id_key_for kind name = object_key (plain_id kind name)

unfoldable pub view_by_id : Cache → List ℕ → Option ViewDesc
view_by_id c name = catalog_at (λ d. d.views_by_id) c (object_id_key_for kind_view name)

unfoldable pub procedure_by_id : Cache → List ℕ → Option ProcedureDesc
procedure_by_id c name =
    catalog_at (λ d. d.procedures_by_id) c (object_id_key_for kind_procedure name)

unfoldable pub generator_by_id : Cache → List ℕ → Option GeneratorDesc
generator_by_id c name =
    catalog_at (λ d. d.generators_by_id) c (object_id_key_for kind_generator name)

unfoldable pub domain_by_id : Cache → List ℕ → Option DomainDesc
domain_by_id c name = catalog_at (λ d. d.domains_by_id) c (object_id_key_for kind_domain name)

unfoldable pub function_by_id : Cache → List ℕ → Option FunctionDesc
function_by_id c name = catalog_at (λ d. d.functions_by_id) c (object_id_key_for kind_function name)

unfoldable pub trigger_by_id : Cache → List ℕ → Option TriggerDesc
trigger_by_id c name = catalog_at (λ d. d.triggers_by_id) c (object_id_key_for kind_trigger name)

unfoldable pub system_relation_by_id : Cache → List ℕ → Option (Option SystemRelationDesc)
system_relation_by_id c name =
    catalog_at (λ d. d.system_relations_by_id) c (object_id_key_for kind_table name)

unfoldable pub exception_by_id : Cache → List ℕ → Option (Option ExceptionDesc)
exception_by_id c name =
    catalog_at (λ d. d.exceptions_by_id) c (object_id_key_for kind_exception name)

-- The loop of `IndexByID` over all indexes; `none` outside is the early return.
abbrev pub match_index :
    List ℕ → Option IndexDesc → List (List ℕ × Option IndexDesc) → Option IndexDesc
match_index name so_far [] = so_far
match_index name so_far ((k, none) ∷ m) = match_index name so_far m
match_index name none ((k, some index) ∷ m) =
    match_index name (if eqb index.name name then some index else none) m
match_index name (some before) ((k, some index) ∷ m) =
    let rest = match_index name (some (if eqb index.name name then index else before)) m in
    if eqb index.name name
      && not (eqb before.schema index.schema && eqb before.relation_name index.relation_name)
    then none
    else rest

-- `IndexByID`
unfoldable pub index_by_id : Cache → List ℕ → Option (Option IndexDesc)
index_by_id c name = elim c.catalog [
  | none ↦ none
  | some catalog ↦
      elim (find_value (object_id_key_for kind_index name) (entries_of catalog.indexes_by_id)) [
        | some index ↦ some index
        | none ↦ elim (match_index name none (entries_of catalog.indexes_by_id)) [
          | none ↦ none
          | some index ↦ some (some index)
        ]
      ]
]

-- `IndexByTableAndID`
abbrev pub is_exactly : List ℕ → List ℕ → List ℕ → IndexDesc → Bool
is_exactly schema relation name index =
    eqb index.schema schema && eqb index.relation_name relation && eqb index.name name

unfoldable pub index_by_table_and_id : Cache → List ℕ → List ℕ → List ℕ → Option IndexDesc
index_by_table_and_id c schema relation name =
    elim (catalog_at (λ d. d.indexes_by_id) c (object_key (index_object_id schema relation name))) [
      | some (some index) ↦ if is_exactly schema relation name index then some index else none
      | _ ↦ none
    ]

-- `ColumnDescsByID`
unfoldable pub column_descs_by_id : Cache → List ℕ → Option (List (Option ColumnDesc))
column_descs_by_id c name =
    find_value (object_id_key_for kind_table name) (entries_of c.columns_by_id)

module _ (to_upper trim_space : List ℕ → List ℕ)
    (sort_strings : List (List ℕ) → List (List ℕ)) where
  abbrev cache_key : List ℕ → List ℕ
  cache_key name = to_upper (trim_space name)

  unfoldable pub view : Cache → List ℕ → Option ViewDesc
  view c name = catalog_at (λ d. d.views_map) c (cache_key name)

  unfoldable pub procedure : Cache → List ℕ → Option ProcedureDesc
  procedure c name = catalog_at (λ d. d.procedures_map) c (cache_key name)

  unfoldable pub generator : Cache → List ℕ → Option GeneratorDesc
  generator c name = catalog_at (λ d. d.generators_map) c (cache_key name)

  unfoldable pub domain : Cache → List ℕ → Option DomainDesc
  domain c name = catalog_at (λ d. d.domains_map) c (cache_key name)

  unfoldable pub function : Cache → List ℕ → Option FunctionDesc
  function c name = catalog_at (λ d. d.functions_map) c (cache_key name)

  unfoldable pub index : Cache → List ℕ → Option (Option IndexDesc)
  index c name = catalog_at (λ d. d.indexes_map) c (cache_key name)

  unfoldable pub trigger : Cache → List ℕ → Option (Option TriggerDesc)
  trigger c name = catalog_at (λ d. d.triggers_map) c (cache_key name)

  -- `IndexesForTable` and `TriggersForTable`: a missing table has none.
  abbrev group_at : {V : Type 0} → Option (List V) → List V
  group_at none = []
  group_at (some vs) = vs

  unfoldable pub indexes_for_table : Cache → List ℕ → List (Option IndexDesc)
  indexes_for_table c table = group_at (catalog_at (λ d. d.indexes_by_table) c (cache_key table))

  unfoldable pub triggers_for_table : Cache → List ℕ → List (Option TriggerDesc)
  triggers_for_table c table = group_at (catalog_at (λ d. d.triggers_by_table) c (cache_key table))

  -- The loop of the sorted listings.
  abbrev names_of : {V : Type 0} → (V → List ℕ) → List (List ℕ × V) → List (List ℕ)
  names_of name [] = []
  names_of name ((k, v) ∷ m) = name v ∷ names_of name m

  abbrev sorted_names :
      {V : Type 0} → (CatalogCache → GoMap V) → (V → List ℕ) → Cache → List (List ℕ)
  sorted_names get name c = elim c.catalog [
    | none ↦ []
    | some catalog ↦ sort_strings (names_of name (entries_of (get catalog)))
  ]

  unfoldable pub sorted_procedures : Cache → List (List ℕ)
  sorted_procedures = sorted_names (λ d. d.procedures_map) (λ v. v.name)

  unfoldable pub sorted_views : Cache → List (List ℕ)
  sorted_views = sorted_names (λ d. d.views_map) (λ v. v.name)

  unfoldable pub sorted_generators : Cache → List (List ℕ)
  sorted_generators = sorted_names (λ d. d.generators_map) (λ v. v.name)

  unfoldable pub sorted_functions : Cache → List (List ℕ)
  sorted_functions = sorted_names (λ d. d.functions_map) (λ v. v.name)

  -- `Database`
  unfoldable pub database : Cache → List ℕ → Option (List ℕ)
  database c name = find_value (to_upper name) (entries_of c.schemas_map)

  unfoldable pub sorted_schemas : Cache → List (List ℕ)
  sorted_schemas c = sort_strings (names_of (λ db. db) (entries_of c.schemas_map))

  -- `SortedTablesByDBName`
  unfoldable pub sorted_tables_by_db_name : Cache → List ℕ → Option (List (List ℕ))
  sorted_tables_by_db_name c name = elim (find_value (to_upper name) (entries_of c.schema_tables)) [
    | none ↦ none
    | some tables ↦ some (sort_strings tables)
  ]

  unfoldable pub sorted_tables : Cache → List (List ℕ)
  sorted_tables c = group_at (sorted_tables_by_db_name c c.default_schema)

  -- `ColumnDatabase`, `ColumnDescs` and `Column`
  unfoldable pub column_database : Cache → List ℕ → List ℕ → Option (List (Option ColumnDesc))
  column_database c db table =
      find_value (to_upper db ++ b'\t' ∷ to_upper table) (entries_of c.columns_with_parent)

  unfoldable pub column_descs : Cache → List ℕ → Option (List (Option ColumnDesc))
  column_descs c table = column_database c c.default_schema table

-- The loop of `Column`; none outside is the nil dereference of a column that is nil.
abbrev pub find_column :
    (List ℕ → List ℕ → Bool) → List ℕ → List (Option ColumnDesc) → Option (Option ColumnDesc)
find_column fold_equal name [] = some none
find_column fold_equal name (none ∷ cols) = none
find_column fold_equal name (some col ∷ cols) =
    let rest = find_column fold_equal name cols in
    if fold_equal col.base.name name then some (some col) else rest

-- `Column`
unfoldable pub column_of_table :
    (List ℕ → List ℕ)
    → (List ℕ → List ℕ → Bool)
    → Cache
    → List ℕ
    → List ℕ
    → Option (Option ColumnDesc)
column_of_table to_upper fold_equal c table name =
    elim (find_value (to_upper c.default_schema ++ b'\t' ∷ to_upper table)
      (entries_of c.columns_with_parent)) [
        | none ↦ some none
        | some cols ↦ find_column fold_equal name cols
      ]
