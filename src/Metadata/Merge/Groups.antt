-- ===== src/Metadata/Merge/Groups.antt =====
-- metadata/merge.go: indexes and triggers by their tables.
use sqls.Base.{List, Option, [], if◌then◌else◌, is_empty, none, not, some, ℕ, ◌||◌, ◌∷◌}
use sqls.Catalog.Types.{IndexDesc, TriggerDesc}
use sqls.Catalog.Cache.{GoMap, entries_of}
use sqls.Catalog.Columns.{append_value}
use sqls.Metadata.Merge.Externals.{Externals}

module _ (go : Externals) where
  -- `CatalogCacheKey`
  abbrev pub catalog_cache_key : List ℕ → List ℕ
  catalog_cache_key name = go.to_upper (go.trim_space name)

  abbrev sort_groups :
      {V : Type 0} → (List V → List V) → List (List ℕ × List V) → List (List ℕ × List V)
  sort_groups sort [] = []
  sort_groups sort ((k, vs) ∷ m) = (k, sort vs) ∷ sort_groups sort m

  abbrev group_indexes :
      List (List ℕ × List (Option IndexDesc))
      → List (List ℕ × Option IndexDesc)
      → List (List ℕ × List (Option IndexDesc))
  group_indexes groups [] = groups
  group_indexes groups ((k, none) ∷ m) = group_indexes groups m
  group_indexes groups ((k, some index) ∷ m) =
      let key = catalog_cache_key index.relation_name in
      group_indexes
        (if is_empty (go.trim_space index.relation_name)
          then groups
          else append_value key (some index) groups)
        m

  -- `indexGroups`
  unfoldable pub index_groups : GoMap (Option IndexDesc) → GoMap (List (Option IndexDesc))
  index_groups m = some (sort_groups go.sort_indexes (group_indexes [] (entries_of m)))

  abbrev group_triggers :
      List (List ℕ × List (Option TriggerDesc))
      → List (List ℕ × Option TriggerDesc)
      → List (List ℕ × List (Option TriggerDesc))
  group_triggers groups [] = groups
  group_triggers groups ((k, none) ∷ m) = group_triggers groups m
  group_triggers groups ((k, some trigger) ∷ m) =
      let relation = trigger.relation_name in
      group_triggers
        (if not relation.valid || is_empty (go.trim_space relation.value)
          then groups
          else append_value (catalog_cache_key relation.value) (some trigger) groups)
        m

  -- `triggerGroups`
  unfoldable pub trigger_groups : GoMap (Option TriggerDesc) → GoMap (List (Option TriggerDesc))
  trigger_groups m = some (sort_groups go.sort_triggers (group_triggers [] (entries_of m)))
