-- ===== src/Metadata/Merge/Steps.antt =====
-- metadata/merge.go: one fragment more, merged into a combined cache.
use sqls.Base.{
  Bool-cases, Option, ap, arith, if◌then◌else◌, inl, inr, none, refl, some, true, ◌∙◌, ◌≡◌,
}
use std.Path.{fun_ext}
use sqls.Catalog.Cache.{
  Cache, CatalogCache, MetadataKind, columns_all, columns_current, dependencies, domains,
  exceptions, foreign_keys, functions, generators, indexes, other_kind, primary_keys, procedures,
  relations, schemas, system_relations, triggers, views, ready, same_metadata_kind,
}
use sqls.Metadata.Merge.Externals.{Externals}
use sqls.Catalog.Columns.{is_some}
use sqls.Metadata.Merge.Publish.{
  publish_kind, clone_catalog_header, publish_catalog, publish_category, set_ready,
}
use sqls.Metadata.Merge.Combined.{add, any_category, categories, combined, combined_catalog}
use sqls.Metadata.Merge.Keyed.{
  combined_early, columns_from, publish_columns-combined, publish_current-combined,
  publish_keys-combined,
}
use sqls.Metadata.Merge.Catalogs.{combined_catalog-add}

module _ (go : Externals) (g : MetadataKind → Option Cache) (base : Cache) (f : Cache) where
  with_catalog : Option CatalogCache → Cache
  with_catalog c = record (combined go g base) { catalog = c }

  publish_catalog-combined :
      (kind : MetadataKind)
      → any_category (add go kind f g) ≡ true
      → publish_category go kind f (categories go g (clone_catalog_header base.catalog))
        ≡ categories go (add go kind f g) (clone_catalog_header base.catalog)
      → publish_catalog go kind f (combined go g base)
        ≡ with_catalog (combined_catalog go (add go kind f g) base.catalog)
  unfolding publish_catalog combined with_catalog
  publish_catalog-combined kind is_there same =
      ap with_catalog (combined_catalog-add go kind f g base.catalog is_there same)

  publish_kind-combined :
      (kind : MetadataKind)
      → g kind ≡ none
      → publish_kind go kind f (combined go g base) ≡ combined_early go g base f kind
  unfolding publish_kind combined publish_category with_catalog columns_from
  publish_kind-combined schemas fresh = refl
  publish_kind-combined relations fresh = refl
  publish_kind-combined foreign_keys fresh = refl
  publish_kind-combined dependencies fresh = refl
  publish_kind-combined views fresh = publish_catalog-combined views (ground arith) refl
  publish_kind-combined procedures fresh = publish_catalog-combined procedures (ground arith) refl
  publish_kind-combined generators fresh = publish_catalog-combined generators (ground arith) refl
  publish_kind-combined domains fresh = publish_catalog-combined domains (ground arith) refl
  publish_kind-combined functions fresh = publish_catalog-combined functions (ground arith) refl
  publish_kind-combined indexes fresh = publish_catalog-combined indexes (ground arith) refl
  publish_kind-combined triggers fresh = publish_catalog-combined triggers (ground arith) refl
  publish_kind-combined system_relations fresh =
      publish_catalog-combined system_relations (ground arith) refl
  publish_kind-combined exceptions fresh = publish_catalog-combined exceptions (ground arith) refl
  publish_kind-combined columns_current fresh = publish_current-combined go g base f
  publish_kind-combined columns_all fresh = publish_columns-combined go g base f
  publish_kind-combined primary_keys fresh = publish_keys-combined go g base f fresh
  publish_kind-combined (other_kind _) fresh = refl

  ready_after :
      (kind k : MetadataKind)
      → (if same_metadata_kind kind k
          then some ready
          else if is_some (g k)
          then some ready
          else base.metadata k)
        ≡ (if is_some (add go kind f g k) then some ready else base.metadata k)
  ready_after kind k = elim (Bool-cases (same_metadata_kind kind k)) [
    | inl same ↦ rw same refl
    | inr differ ↦ rw differ refl
  ]

  -- To merge the fragment of a category that is not there yet is to add it to the fragments.
  pub publish_kind-add :
      (kind : MetadataKind)
      → g kind ≡ none
      → set_ready go kind (publish_kind go kind f (combined go g base))
        ≡ combined go (add go kind f g) base
  unfolding combined
  publish_kind-add kind fresh =
      ap (set_ready go kind) (publish_kind-combined kind fresh)
      ∙ ap (λ m. record (combined go (add go kind f g) base) { metadata = m })
          (fun_ext (ready_after kind))
