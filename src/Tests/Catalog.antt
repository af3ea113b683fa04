-- ===== src/Tests/Catalog.antt =====
-- catalog: keys, indexes and lookups at concrete identities.
use sqls.Base.{List, [], arith, codes, false, if◌then◌else◌, none, refl, some, ℕ, ◌&&◌, ◌∷◌, ◌≡◌}
use sqls.Catalog.Identity.{
  ObjectId, index_object_id, kind_table, kind_view, object_key, plain_id, component, decimal_text,
}
use sqls.Catalog.Keys.{object_key-injective}
use sqls.Catalog.ObjectIndex.{
  ambiguous, decide, found, new_object_index, resolve, insert_id, lookup, lookup_unquoted,
}
use sqls.Catalog.Dependencies.{
  uses, used_by, new_dependency_graph, DependencyEdge, DependencyRef, add_edge, ref_key, same_ref,
  wanted,
}
use sqls.Catalog.Edges.{selected, distinct_edges}
use sqls.Catalog.Graph.{uses-new_dependency_graph}
use sqls.Catalog.Columns.{group_foreign_keys}
use sqls.Catalog.Types.{ForeignKey, ViewDesc}
use sqls.Catalog.Cache.{Cache, CatalogCache, object_ids, rebuild_objects, resolve_object_name}
use sqls.Catalog.Names.{resolve_object_name-rebuild_objects}
use sqls.Metadata.Merge.Publish.{empty_catalog}
use sqls.Tests.Samples.{empty_cache}
use sqls.Catalog.Matching.{among, keep_first, matching}
use sqls.Catalog.Resolve.{index_of}

abbrev orders : ObjectId
orders = plain_id kind_table (codes "ORDERS")

abbrev mixed_orders : ObjectId
mixed_orders = plain_id kind_table (codes "Orders")

abbrev other_orders : ObjectId
other_orders = record orders { schema = codes "S" }

abbrev some_ids : List ObjectId
some_ids =
    orders
    ∷ mixed_orders
    ∷ plain_id kind_view (codes "V")
    ∷ orders
    ∷ index_object_id (codes "S") (codes "T") (codes "I")
    ∷ []

key-orders : object_key orders ≡ codes "0:0:0:5:table6:ORDERS"
unfolding object_key component decimal_text
key-orders = refl

key-index :
    object_key (index_object_id (codes "S") (codes "T") (codes "I")) ≡ codes "0:1:S0:5:index1:I1:T"
unfolding object_key index_object_id component decimal_text
key-index = refl

resolve-lower :
    resolve (some (index_of none some_ids)) (plain_id kind_view (codes "v")) ≡ found (codes "V")
unfolding resolve index_of object_key component decimal_text new_object_index insert_id lookup
    lookup_unquoted index_object_id
resolve-lower = refl

resolve-two :
    resolve (some (index_of none some_ids)) (plain_id kind_table (codes "orders"))
    ≡ ambiguous (orders ∷ mixed_orders ∷ [])
unfolding resolve index_of object_key component decimal_text new_object_index insert_id lookup
    lookup_unquoted index_object_id
resolve-two = refl

object_key-injective_example : other_orders ≡ other_orders
object_key-injective_example = object_key-injective other_orders other_orders refl

abbrev named_view : List ℕ → ViewDesc
named_view name = record {
  schema = [];
  name = name;
  owner_name = record { value = []; valid = false };
  view_source = record { value = []; valid = false };
  description = record { value = []; valid = false };
  columns = [];
}

abbrev two_views : CatalogCache
two_views = record empty_catalog {
  views_by_id =
      some ((codes "a", named_view (codes "Sales")) ∷ (codes "b", named_view (codes "SALES")) ∷ []);
}

abbrev loaded : Cache
loaded = record empty_cache { catalog = some (rebuild_objects none two_views) }

resolve_object_name-rebuild_objects_example :
    resolve_object_name loaded kind_view (codes "Sales") ≡ (
      if among (plain_id kind_view (codes "Sales")) (object_ids two_views)
      then found (codes "Sales")
      else decide (
          matching
            (new_object_index none).fold
            kind_view
            (codes "Sales")
            (keep_first [] (object_ids two_views))))
resolve_object_name-rebuild_objects_example =
    resolve_object_name-rebuild_objects none loaded two_views kind_view (codes "Sales") refl

abbrev orders_ref : DependencyRef
orders_ref = record { kind = kind_table; name = codes "ORDERS"; parent = [] }

abbrev view_ref : DependencyRef
view_ref = record { kind = kind_view; name = codes "V"; parent = [] }

abbrev edge_to : List ℕ → DependencyEdge
edge_to field = record { origin = view_ref; target = orders_ref; field = field }

abbrev some_edges : List DependencyEdge
some_edges = edge_to (codes "A") ∷ edge_to (codes "B") ∷ edge_to (codes "A") ∷ []

used-field :
    used_by (some (new_dependency_graph (λ l. l) some_edges [])) orders_ref (codes "B")
    ≡ some (edge_to (codes "B") ∷ [])
unfolding used_by new_dependency_graph add_edge ref_key
used-field = refl

uses-new_dependency_graph_example :
    (uses (some (new_dependency_graph (λ l. l) some_edges [])) view_ref
      ≡ some (selected (λ e. same_ref e.origin view_ref) (distinct_edges [] some_edges)))
    × (used_by (some (new_dependency_graph (λ l. l) some_edges [])) view_ref (codes "A")
        ≡ some (
            selected
              (λ e. same_ref e.target view_ref && wanted (codes "A") e)
              (distinct_edges [] some_edges)))
uses-new_dependency_graph_example =
    uses-new_dependency_graph (λ l. l) some_edges [] view_ref (codes "A") (omega arith)
      (omega arith) (omega arith)

-- A key of a table onto itself is in the list of the pair twice.
abbrev own_key : ForeignKey
own_key =
    (
      some (record { schema = []; table = codes "T"; name = codes "PARENT" }),
      some (record { schema = []; table = codes "T"; name = codes "ID" }),
    )
    ∷ []

own_key-twice :
    group_foreign_keys (some own_key ∷ [])
    ≡ some ((codes "T", (codes "T", own_key ∷ own_key ∷ []) ∷ []) ∷ [])
unfolding group_foreign_keys
own_key-twice = refl
