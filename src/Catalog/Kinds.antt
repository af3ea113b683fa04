-- ===== src/Catalog/Kinds.antt =====
-- catalog/metadata.go: the comparison of kinds is equality.
use sqls.Base.{
  List, ap, arith, eqb_refl, eqb_sound, if◌then◌else◌, refl, sym, true, ℕ, ◌==◌, ◌∙◌, ◌≡◌,
}
use sqls.Catalog.Cache.{
  MetadataKind, columns_all, columns_current, dependencies, domains, exceptions, foreign_keys,
  functions, generators, indexes, kind_label, kind_place, other_kind, primary_keys, procedures,
  relations, same_metadata_kind, schemas, system_relations, triggers, views,
}

-- The kind with a number and a label.
kind_at : ℕ → List ℕ → MetadataKind
kind_at n s =
    if n == 0
    then schemas
    else if n == 1
    then relations
    else if n == 2
    then columns_current
    else if n == 3
    then columns_all
    else if n == 4
    then primary_keys
    else if n == 5
    then foreign_keys
    else if n == 6
    then views
    else if n == 7
    then procedures
    else if n == 8
    then generators
    else if n == 9
    then domains
    else if n == 10
    then functions
    else if n == 11
    then indexes
    else if n == 12
    then triggers
    else if n == 13
    then system_relations
    else if n == 14
    then exceptions
    else if n == 15
    then dependencies
    else other_kind s

kind_at-number : (k : MetadataKind) → kind_at (kind_place k) (kind_label k) ≡ k
unfolding kind_at
kind_at-number schemas = refl
kind_at-number relations = refl
kind_at-number columns_current = refl
kind_at-number columns_all = refl
kind_at-number primary_keys = refl
kind_at-number foreign_keys = refl
kind_at-number views = refl
kind_at-number procedures = refl
kind_at-number generators = refl
kind_at-number domains = refl
kind_at-number functions = refl
kind_at-number indexes = refl
kind_at-number triggers = refl
kind_at-number system_relations = refl
kind_at-number exceptions = refl
kind_at-number dependencies = refl
kind_at-number (other_kind s) = refl

pub same_kind_sound : (a b : MetadataKind) → same_metadata_kind a b ≡ true → a ≡ b
same_kind_sound a b h =
    let numbers : kind_place a ≡ kind_place b = ground arith in
    let labels : kind_label a ≡ kind_label b =
      ground (arith, eqb_sound (kind_label a) (kind_label b)) in
    sym (kind_at-number a)
    ∙ ap (λ n. kind_at n (kind_label a)) numbers
    ∙ ap (kind_at (kind_place b)) labels
    ∙ kind_at-number b

pub same_kind_refl : (a : MetadataKind) → same_metadata_kind a a ≡ true
same_kind_refl a = ground (arith, eqb_refl (kind_label a))
