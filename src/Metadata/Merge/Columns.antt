-- ===== src/Metadata/Merge/Columns.antt =====
-- metadata/merge.go: the columns and the primary keys of a combined cache, one fragment later.
use sqls.Base.{
  Bool, List, Option, [], false, if◌then◌else◌, none, refl, some, true, ℕ, ◌&&◌, ◌||◌, ◌∷◌, ◌≡◌,
}
use sqls.Catalog.Types.{ColumnDesc}
use sqls.Catalog.Cache.{Cache, GoMap, MetadataKind, metadata_ready, MetadataState, is_ready, ready}
use sqls.Metadata.Merge.Externals.{Externals}
use sqls.Catalog.Columns.{is_some}
use sqls.Metadata.Merge.Publish.{clone_map}
use sqls.Metadata.Merge.Combined.{combined, marked_columns, through, supplied}

module _ (go : Externals) where
  ready-unless :
      (o : Option Cache) (s : Option MetadataState)
      → (is_ready (if is_some o then some ready else s) && true)
        ≡ (is_some o || (is_ready s && true))
  ready-unless none s = refl
  ready-unless (some f) s = refl

  -- A category is ready where it was ready before or its fragment is there.
  pub metadata_ready-combined :
      (g : MetadataKind → Option Cache) (base : Cache) (k : MetadataKind)
      → metadata_ready (combined go g base) (k ∷ [])
        ≡ (is_some (g k) || metadata_ready base (k ∷ []))
  unfolding metadata_ready combined
  metadata_ready-combined g base k = ready-unless (g k) (base.metadata k)

or_true : (b : Bool) → (b || true) ≡ true
or_true true = refl
or_true false = refl

module _
    (with_keys : GoMap (List (Option ColumnDesc))
      → GoMap (List (List ℕ))
      → GoMap (List (Option ColumnDesc)))
    (with_keys-twice : (columns : GoMap (List (Option ColumnDesc)))
        (old new : GoMap (List (List ℕ)))
      → with_keys (with_keys columns old) new ≡ with_keys columns new)
    (get : Cache → GoMap (List (Option ColumnDesc))) where
  -- Keys that come after columns, in terms of what is there and what was ready.
  pub marked_columns-keys :
      (all current : Option Cache) (ready_all ready_current ready_keys : Bool)
      (old : GoMap (List (Option ColumnDesc))) (before keys : GoMap (List (List ℕ)))
      → (if (is_some current || ready_current) || (is_some all || ready_all)
          then with_keys
              (marked_columns with_keys before
                (through get (supplied all current ready_all))
                old
                false
                ready_keys
                (ready_current || ready_all))
              keys
          else marked_columns with_keys before
              (through get (supplied all current ready_all))
              old
              false
              ready_keys
              (ready_current || ready_all))
        ≡ marked_columns with_keys keys
            (through get (supplied all current ready_all))
            old
            true
            ready_keys
            (ready_current || ready_all)
  marked_columns-keys (some a) current ready_all ready_current true old before keys =
      rw (or_true (is_some current || ready_current))
        (with_keys-twice (clone_map (get a)) before keys)
  marked_columns-keys (some a) current ready_all ready_current false old before keys =
      rw (or_true (is_some current || ready_current)) refl
  marked_columns-keys none none true ready_current ready_keys old before keys = refl
  marked_columns-keys none (some c) true ready_current ready_keys old before keys =
      rw (or_true ready_current) refl
  marked_columns-keys none none false ready_current ready_keys old before keys = refl
  marked_columns-keys none (some c) false ready_current true old before keys =
      with_keys-twice (clone_map (get c)) before keys
  marked_columns-keys none (some c) false ready_current false old before keys = refl
