-- ===== src/Metadata/Merge/Catalogs.antt =====
-- metadata/merge.go: the catalog of a combined cache, one category later.
use sqls.Base.{
  Bool, Bool-cases, Option, ap, arith, false, inl, inr, none, refl, some, true, ◌||◌, ◌∙◌, ◌≡◌,
}
use sqls.Catalog.Cache.{
  Cache, CatalogCache, MetadataKind, domains, exceptions, functions, generators, indexes,
  procedures, rebuild_objects, system_relations, triggers, views, columns_all, columns_current,
  dependencies, foreign_keys, object_ids, other_kind, primary_keys, relations, schemas,
}
use sqls.Metadata.Merge.Externals.{Externals}
use sqls.Catalog.Columns.{is_some}
use sqls.Metadata.Merge.Publish.{clone_catalog_header, publish_category}
use sqls.Metadata.Merge.Combined.{any_category, categories, add, combined_catalog}

-- Neither operand of a disjunction that is false is true.

is_some-false : (o : Option Cache) {b : Bool} → (is_some o || b) ≡ false → (o ≡ none) × (b ≡ false)
is_some-false none h = (refl, h)
is_some-false (some f) h = ground arith

module _ (go : Externals) where
  categories-none :
      (g : MetadataKind → Option Cache) (c : CatalogCache)
      → any_category g ≡ false
      → categories go g c ≡ c
  categories-none g c h =
      let (e1, h1) = is_some-false (g views) h in
      let (e2, h2) = is_some-false (g procedures) h1 in
      let (e3, h3) = is_some-false (g generators) h2 in
      let (e4, h4) = is_some-false (g domains) h3 in
      let (e5, h5) = is_some-false (g functions) h4 in
      let (e6, h6) = is_some-false (g indexes) h5 in
      let (e7, h7) = is_some-false (g triggers) h6 in
      let (e8, h8) = is_some-false (g system_relations) h7 in
      let (e9, h9) = is_some-false (g exceptions) {b = false} (ground (arith, h8)) in
      rw (e1, e2, e3, e4, e5, e6, e7, e8, e9) refl

  -- The index of a header is rebuilt whatever it was before.
  publish_category-rebuilt :
      (kind : MetadataKind) (f : Cache) (c : CatalogCache)
      → rebuild_objects none (publish_category go kind f (rebuild_objects none c))
        ≡ rebuild_objects none (publish_category go kind f c)
  unfolding rebuild_objects publish_category object_ids
  publish_category-rebuilt schemas f c = refl
  publish_category-rebuilt relations f c = refl
  publish_category-rebuilt columns_current f c = refl
  publish_category-rebuilt columns_all f c = refl
  publish_category-rebuilt primary_keys f c = refl
  publish_category-rebuilt foreign_keys f c = refl
  publish_category-rebuilt dependencies f c = refl
  publish_category-rebuilt views f c = refl
  publish_category-rebuilt procedures f c = refl
  publish_category-rebuilt generators f c = refl
  publish_category-rebuilt domains f c = refl
  publish_category-rebuilt functions f c = refl
  publish_category-rebuilt indexes f c = refl
  publish_category-rebuilt triggers f c = refl
  publish_category-rebuilt system_relations f c = refl
  publish_category-rebuilt exceptions f c = refl
  publish_category-rebuilt (other_kind _) f c = refl

  -- The catalog of a combined cache, as the header of the next category.
  publish_category-header :
      (kind : MetadataKind) (f : Cache) (g : MetadataKind → Option Cache)
      (catalog : Option CatalogCache)
      → rebuild_objects none
          (publish_category go kind f (clone_catalog_header (combined_catalog go g catalog)))
        ≡ rebuild_objects none
            (publish_category go kind f (categories go g (clone_catalog_header catalog)))
  publish_category-header kind f g catalog = elim (Bool-cases (any_category g)) [
    | inl some_category ↦
        rw some_category
          (publish_category-rebuilt kind f (categories go g (clone_catalog_header catalog)))
    | inr no_category ↦
        rw (no_category, categories-none g (clone_catalog_header catalog) no_category) refl
  ]

  pub combined_catalog-add :
      (kind : MetadataKind) (f : Cache) (g : MetadataKind → Option Cache)
      (catalog : Option CatalogCache)
      → any_category (add go kind f g) ≡ true
      → publish_category go kind f (categories go g (clone_catalog_header catalog))
        ≡ categories go (add go kind f g) (clone_catalog_header catalog)
      → some (
          rebuild_objects none
            (publish_category go kind f (clone_catalog_header (combined_catalog go g catalog))))
        ≡ combined_catalog go (add go kind f g) catalog
  combined_catalog-add kind f g catalog is_there same =
      rw is_there
        (ap some (publish_category-header kind f g catalog ∙ ap (λ c. rebuild_objects none c) same))
