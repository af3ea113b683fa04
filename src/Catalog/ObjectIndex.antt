-- ===== src/Catalog/ObjectIndex.antt =====
-- catalog/objectindex.go: `ObjectIndex`. A missing result is `none` or the empty list; a pointer that
-- may be nil is an `Option`.
use sqls.Base.{
  Bool, List, Option, [], eqb, if◌then◌else◌, map, none, some, upper, ℕ, ◌&&◌, ◌++◌, ◌∷◌,
}
use sqls.Catalog.Identity.{ObjectId, object_key}

-- `byFold`, with the fields of `foldKey` in front of the identities.
pub record FoldKey : Type 0 where
  pub kind : List ℕ
  pub folded : List ℕ

-- `ObjectIndex`
pub record ObjectIndex : Type 0 where
  pub fold : List ℕ → List ℕ
  pub exact : List (List ℕ × ObjectId)
  pub by_fold : List (FoldKey × List ObjectId)

-- `defaultFold`
abbrev pub default_fold : List ℕ → List ℕ
default_fold = map upper

-- `NewObjectIndex`; a nil `fold` is none.
unfoldable pub new_object_index : Option (List ℕ → List ℕ) → ObjectIndex
new_object_index fold = record {
  fold = elim fold [ none ↦ default_fold | some f ↦ f ];
  exact = [];
  by_fold = [];
}

abbrev pub find_exact : List ℕ → List (List ℕ × ObjectId) → Option ObjectId
find_exact k [] = none
find_exact k ((j, i) ∷ rest) = if eqb j k then some i else find_exact k rest

abbrev pub same_fold : FoldKey → FoldKey → Bool
same_fold a b = eqb a.kind b.kind && eqb a.folded b.folded

-- `idx.byFold[fk]`
abbrev pub find_fold : FoldKey → List (FoldKey × List ObjectId) → List ObjectId
find_fold k [] = []
find_fold k ((j, ids) ∷ rest) = if same_fold j k then ids else find_fold k rest

-- `idx.byFold[fk] = append(idx.byFold[fk], id)`
abbrev pub append_fold :
    FoldKey → ObjectId → List (FoldKey × List ObjectId) → List (FoldKey × List ObjectId)
append_fold k i [] = (k, i ∷ []) ∷ []
append_fold k i ((j, ids) ∷ rest) =
    if same_fold j k then (j, ids ++ i ∷ []) ∷ rest else (j, ids) ∷ append_fold k i rest

-- What `(*ObjectIndex).Insert` does with an identity whose key is new.
abbrev pub insert_new : ObjectId → ObjectIndex → ObjectIndex
insert_new i x = record x {
  exact = (object_key i, i) ∷ x.exact;
  by_fold = append_fold (record { kind = i.kind; folded = x.fold i.name }) i x.by_fold;
}

-- `(*ObjectIndex).Insert` of an index that is not nil.
unfoldable pub insert_id : ObjectId → ObjectIndex → ObjectIndex
insert_id i x = elim (find_exact (object_key i) x.exact) [ some _ ↦ x | none ↦ insert_new i x ]

abbrev pub insert_all : List ObjectId → ObjectIndex → ObjectIndex
insert_all [] x = x
insert_all (i ∷ ids) x = insert_all ids (insert_id i x)

-- `(*ObjectIndex).Lookup`
unfoldable pub lookup : Option ObjectIndex → ObjectId → Option ObjectId
lookup none i = none
lookup (some x) i = find_exact (object_key i) x.exact

-- `(*ObjectIndex).LookupUnquoted`
unfoldable pub lookup_unquoted : Option ObjectIndex → List ℕ → List ℕ → List ObjectId
lookup_unquoted none kind name = []
lookup_unquoted (some x) kind name =
    find_fold (record { kind = kind; folded = x.fold name }) x.by_fold

-- What `(*Cache).ResolveObjectName` returns: not found, found, or found more than once.
pub data Resolved : Type 0 where
  unknown : Resolved
  found : List ℕ → Resolved
  ambiguous : List ObjectId → Resolved

-- The switch over `len(matches)`.
abbrev pub decide : List ObjectId → Resolved
decide [] = unknown
decide (i ∷ []) = found i.name
decide (i ∷ j ∷ rest) = ambiguous (i ∷ j ∷ rest)

-- Its two lookups.
unfoldable pub resolve : Option ObjectIndex → ObjectId → Resolved
unfolding lookup lookup_unquoted
resolve x i = elim (lookup x i) [
  | some j ↦ found j.name
  | none ↦ decide (lookup_unquoted x i.kind i.name)
]
