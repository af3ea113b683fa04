-- ===== src/Metadata/Merge/Order.antt =====
-- metadata/merge.go: the loader merges each category's patch as its job ends; the order in which the
-- jobs end does not show in the cache.
use sqls.Base.{
  Bool-cases, List, Option, Option-cases, [], ap, arith, if◌then◌else◌, inl, inr, none, refl, some,
  subst, sym, ◌∙◌, ◌∷◌, ◌≡◌,
}
use std.Path.{fun_ext}
use sqls.Catalog.Cache.{Cache, MetadataKind, columns_all, metadata_ready, same_metadata_kind}
use sqls.Catalog.Kinds.{same_kind_sound, same_kind_refl}
use sqls.Metadata.Merge.Externals.{Externals}
use sqls.Metadata.Merge.Patch.{MergeError, Merged, MetadataPatch, check_patch, merged, refused}
use sqls.Metadata.Merge.Publish.{publish_kind, merge_metadata, set_ready}
use sqls.Metadata.Merge.Combined.{combined, add}
use sqls.Metadata.Merge.Steps.{publish_kind-add}

-- The patch of a category.

abbrev pub patch_of : MetadataKind → List (MetadataKind × MetadataPatch) → Option MetadataPatch
patch_of k [] = none
patch_of k ((j, p) ∷ ps) = if same_metadata_kind j k then some p else patch_of k ps

abbrev pub DistinctKinds : List (MetadataKind × MetadataPatch) → Type 0
DistinctKinds [] = Unit
DistinctKinds ((k, p) ∷ ps) = (patch_of k ps ≡ none) × DistinctKinds ps

-- The fragment of a patch that `mergeMetadata` does not refuse.
abbrev sound_fragment : MetadataPatch → Option MergeError → Option Cache
sound_fragment p none = p.cache
sound_fragment p (some e) = none

abbrev accepted_patch : MetadataKind → Option MetadataPatch → Option Cache
accepted_patch k none = none
accepted_patch k (some p) = sound_fragment p (check_patch k p)

abbrev pub accepted : List (MetadataKind × MetadataPatch) → MetadataKind → Option Cache
accepted ps k = accepted_patch k (patch_of k ps)

-- A patch that is refused leaves the cache as it is, as in the loader.
abbrev settle_patch : Cache → Merged → Cache
settle_patch base (merged c) = c
settle_patch base (refused e) = base

-- What the checks let through has a fragment.
check_patch-cache :
    (k : MetadataKind) (p : MetadataPatch)
    → check_patch k p ≡ none
    → (f : Cache) × (p.cache ≡ some f)
unfolding check_patch
check_patch-cache k p h = elim (Option-cases p.cache) [
  | inl missing ↦ ground arith
  | inr held ↦ held
]

module _ (go : Externals) where
  unfoldable pub merge_each : Cache → List (MetadataKind × MetadataPatch) → Cache
  merge_each base [] = base
  merge_each base ((k, p) ∷ ps) =
      merge_each (settle_patch base (merge_metadata go (some base) k p)) ps

  abbrev over :
      (MetadataKind → Option Cache)
      → List (MetadataKind × MetadataPatch)
      → MetadataKind
      → Option Cache
  over g ps k = elim (accepted ps k) [ none ↦ g k | some f ↦ some f ]

  abbrev IsDisjoint : (MetadataKind → Option Cache) → List (MetadataKind × MetadataPatch) → Type 0
  IsDisjoint g ps = (k : MetadataKind) (p : MetadataPatch) → patch_of k ps ≡ some p → g k ≡ none

  merge_metadata-accepted :
      (base : Cache) (k : MetadataKind) (p : MetadataPatch) (f : Cache)
      → check_patch k p ≡ none
      → p.cache ≡ some f
      → merge_metadata go (some base) k p ≡ merged (set_ready go k (publish_kind go k f base))
  unfolding merge_metadata
  merge_metadata-accepted base k p f h e = rw (merge_metadata, h, e) refl

  merge_metadata-refused :
      (base : Cache) (k : MetadataKind) (p : MetadataPatch) (e : MergeError)
      → check_patch k p ≡ some e
      → merge_metadata go (some base) k p ≡ refused e
  unfolding merge_metadata
  merge_metadata-refused base k p e h = rw (merge_metadata, h) refl

  combined-none : (base : Cache) → combined go (λ k. none) base ≡ base
  unfolding combined
  combined-none base = elim (Bool-cases (metadata_ready base (columns_all ∷ []))) [
    | inl before ↦ rw before refl
    | inr later ↦ rw later refl
  ]

  -- What one more patch makes of the fragments.
  over-skip :
      (g : MetadataKind → Option Cache) (k : MetadataKind) (p : MetadataPatch)
      (ps : List (MetadataKind × MetadataPatch)) (e : MergeError)
      → check_patch k p ≡ some e
      → patch_of k ps ≡ none
      → (j : MetadataKind) → over g ((k, p) ∷ ps) j ≡ over g ps j
  over-skip g k p ps e h once j = elim (Bool-cases (same_metadata_kind k j)) [
    | inr differ ↦ rw (over, differ) refl
    | inl same ↦
        subst (λ i. over g ((k, p) ∷ ps) i ≡ over g ps i) (same_kind_sound k j same)
          (rw (over, same_kind_refl k, h, once) refl)
  ]

  over-add :
      (g : MetadataKind → Option Cache) (k : MetadataKind) (p : MetadataPatch)
      (ps : List (MetadataKind × MetadataPatch)) (f : Cache)
      → check_patch k p ≡ none
      → p.cache ≡ some f
      → patch_of k ps ≡ none
      → (j : MetadataKind) → over g ((k, p) ∷ ps) j ≡ over (add go k f g) ps j
  over-add g k p ps f h e once j = elim (Bool-cases (same_metadata_kind k j)) [
    | inr differ ↦
        rw (over, differ)
          (ap (λ b. elim (accepted ps j) [ none ↦ if b then some f else g j | some c ↦ some c ])
            (sym differ))
    | inl same ↦
        subst (λ i. over g ((k, p) ∷ ps) i ≡ over (add go k f g) ps i) (same_kind_sound k j same)
          (rw (over, same_kind_refl k, h, once, e)
            (ap (λ b. if b then some f else g k) (sym (same_kind_refl k))))
  ]

  IsDisjoint-add :
      (g : MetadataKind → Option Cache) (k : MetadataKind) (p : MetadataPatch)
      (ps : List (MetadataKind × MetadataPatch)) (f : Cache)
      → patch_of k ps ≡ none
      → IsDisjoint g ((k, p) ∷ ps)
      → IsDisjoint (add go k f g) ps
  IsDisjoint-add g k p ps f once apart j q found = elim (Bool-cases (same_metadata_kind k j)) [
    | inr differ ↦ rw differ (apart j q (rw differ found))
    | inl same ↦
        let mine : patch_of k ps ≡ some q =
          ap (λ i. patch_of i ps) (same_kind_sound k j same) ∙ found in
        ground arith
  ]

  IsDisjoint-skip :
      (g : MetadataKind → Option Cache) (k : MetadataKind) (p : MetadataPatch)
      (ps : List (MetadataKind × MetadataPatch))
      → patch_of k ps ≡ none
      → IsDisjoint g ((k, p) ∷ ps)
      → IsDisjoint g ps
  IsDisjoint-skip g k p ps once apart j q found = elim (Bool-cases (same_metadata_kind k j)) [
    | inr differ ↦ apart j q (rw differ found)
    | inl same ↦
        let mine : patch_of k ps ≡ some q =
          ap (λ i. patch_of i ps) (same_kind_sound k j same) ∙ found in
        ground arith
  ]

  merge_each-over :
      (g : MetadataKind → Option Cache) (base : Cache) (ps : List (MetadataKind × MetadataPatch))
      → DistinctKinds ps
      → IsDisjoint g ps
      → merge_each (combined go g base) ps ≡ combined go (over g ps) base
  unfolding merge_each
  merge_each-over g base [] distinct apart = refl
  merge_each-over g base ((k, p) ∷ ps) distinct apart = elim (Option-cases (check_patch k p)) [
    | inr (e, h) ↦ rw (merge_metadata-refused (combined go g base) k p e h) (
        merge_each-over g base ps distinct.1 (IsDisjoint-skip g k p ps distinct.0 apart)
        ∙ ap (λ o. combined go o base) (sym (fun_ext (over-skip g k p ps e h distinct.0))))
    | inl h ↦
        let (f, e) = check_patch-cache k p h in
        let fresh : g k ≡ none = apart k p (rw (same_kind_refl k) refl) in
        rw
          (
            merge_metadata-accepted (combined go g base) k p f h e,
            publish_kind-add go g base f k fresh,
          )
          (merge_each-over (add go k f g) base ps distinct.1
              (IsDisjoint-add g k p ps f distinct.0 apart)
            ∙ ap (λ o. combined go o base) (sym (fun_ext (over-add g k p ps f h e distinct.0))))
  ]

  over-none :
      (ps : List (MetadataKind × MetadataPatch)) (k : MetadataKind)
      → over (λ j. none) ps k ≡ accepted ps k
  over-none ps k = elim (Option-cases (accepted ps k)) [
    | inl absent ↦ rw (over, absent) refl
    | inr (f, held) ↦ rw (over, held) refl
  ]

  merge_each-combined :
      (base : Cache) (ps : List (MetadataKind × MetadataPatch))
      → DistinctKinds ps
      → merge_each base ps ≡ combined go (accepted ps) base
  merge_each-combined base ps distinct =
      ap (λ b. merge_each b ps) (sym (combined-none base))
      ∙ merge_each-over (λ k. none) base ps distinct (λ k p held. refl)
      ∙ ap (λ o. combined go o base) (fun_ext (over-none ps))

  -- Patches for different categories, merged one after the other onto a cache, those left out that
  -- `mergeMetadata` refuses, give the cache that their fragments make of it by a description
  -- without an order: each field from its own category, the columns of all schemas before those of
  -- the current one, the marks of primary keys from the newest keys. Any other order of the same
  -- patches gives the same cache.
  pub merge_each-in_any_order :
      (base : Cache) (ps qs : List (MetadataKind × MetadataPatch))
      → DistinctKinds ps
      → DistinctKinds qs
      → ((k : MetadataKind) → patch_of k ps ≡ patch_of k qs)
      → (merge_each base ps ≡ combined go (accepted ps) base)
        × (merge_each base qs ≡ merge_each base ps)
  merge_each-in_any_order base ps qs distinct_ps distinct_qs same = (
    merge_each-combined base ps distinct_ps,
    merge_each-combined base qs distinct_qs
        ∙ ap (λ o. combined go o base) (fun_ext λ k. ap (accepted_patch k) (sym (same k)))
        ∙ sym (merge_each-combined base ps distinct_ps),
  )
