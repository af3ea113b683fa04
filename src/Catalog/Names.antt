-- ===== src/Catalog/Names.antt =====
-- catalog/cache.go: the resolution of names in a catalog whose index has been rebuilt.
use sqls.Base.{List, Option, [], if◌then◌else◌, some, ℕ, ◌≡◌}
use sqls.Catalog.Identity.{plain_id}
use sqls.Catalog.ObjectIndex.{decide, found, new_object_index}
use sqls.Catalog.Cache.{Cache, CatalogCache, object_ids, rebuild_objects, resolve_object_name}
use sqls.Catalog.Matching.{among, keep_first, matching}
use sqls.Catalog.Resolve.{index_of, resolve-index_of}

-- In a cache whose catalog had its index rebuilt: a name that an object of the kind, without schema and
-- parent, has exactly resolves to itself, whatever else folds to the same; any other name resolves to the
-- only object of the kind whose name folds to the same, to nothing where there is none, and is
-- ambiguous, with all of them in the order of the maps and each once, where there are more.
pub resolve_object_name-rebuild_objects :
    (fold : Option (List ℕ → List ℕ)) (c : Cache) (d : CatalogCache) (kind want : List ℕ)
    → c.catalog ≡ some (rebuild_objects fold d)
    → resolve_object_name c kind want ≡ (
        if among (plain_id kind want) (object_ids d)
        then found want
        else decide
            (matching (new_object_index fold).fold kind want (keep_first [] (object_ids d))))
unfolding resolve_object_name rebuild_objects index_of
resolve_object_name-rebuild_objects fold c d kind want h =
    rw (resolve_object_name, h) (resolve-index_of fold (object_ids d) (plain_id kind want))
