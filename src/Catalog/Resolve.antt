-- ===== src/Catalog/Resolve.antt =====
-- catalog/objectindex.go: an index against the list of the identities that it was given.
use sqls.Base.{
  Bool-cases, List, Option, [], ap, arith, eqb, false, if◌then◌else◌, inl, inr, none, refl, some,
  sym, ℕ, ◌&&◌, ◌++◌, ◌||◌, ◌∙◌, ◌∷◌, ◌≡◌,
}
use sqls.Catalog.Identity.{ObjectId, object_key}
use sqls.Catalog.ObjectIndex.{
  ObjectIndex, find_exact, find_fold, insert_id, decide, found, insert_all, insert_new, lookup,
  lookup_unquoted, new_object_index, resolve,
}
use sqls.Catalog.Matching.{
  same_id, among, find_fold-append_fold, keep_first, matching, matching-snoc, same_id_sound,
  same_key-same_id,
}

-- An index holds the identities of a list without repetition.

record Holds (x : ObjectIndex) (fold : List ℕ → List ℕ) (kept : List ObjectId) : Type 0 where
  folds : (n : List ℕ) → x.fold n ≡ fold n
  exactly :
      (i : ObjectId) → find_exact (object_key i) x.exact ≡ (if among i kept then some i else none)
  unquoted :
      (kind name : List ℕ)
      → find_fold (record { kind = kind; folded = fold name }) x.by_fold
        ≡ matching fold kind name kept

among-snoc :
    (j : ObjectId) (kept : List ObjectId) (i : ObjectId)
    → among j (kept ++ i ∷ []) ≡ (among j kept || same_id i j)
among-snoc j [] i = ground arith
among-snoc j (k ∷ kept) i = ground (arith, among-snoc j kept i)

Holds-insert_new :
    (x : ObjectIndex) (fold : List ℕ → List ℕ) (kept : List ObjectId) (i : ObjectId)
    → Holds x fold kept
    → among i kept ≡ false
    → Holds (insert_new i x) fold (kept ++ i ∷ [])
Holds-insert_new x fold kept i h fresh = record {
  folds = h.folds;
  exactly = λ j.
      ground (arith, h.exactly j, among-snoc j kept i, same_key-same_id i j, same_id_sound i j);
  unquoted = λ kind name. rw (h.folds i.name) (
      find_fold-append_fold (record { kind = kind; folded = fold name })
        (record { kind = i.kind; folded = fold i.name }) i x.by_fold
      ∙ ap (λ ids. ids ++ (if eqb i.kind kind && eqb (fold i.name) (fold name) then i ∷ [] else []))
          (h.unquoted kind name)
      ∙ sym (matching-snoc fold kind name kept i));
}

Holds-insert_id :
    (x : ObjectIndex) (fold : List ℕ → List ℕ) (kept : List ObjectId) (i : ObjectId)
    → Holds x fold kept
    → Holds (insert_id i x) fold (if among i kept then kept else kept ++ i ∷ [])
unfolding insert_id
Holds-insert_id x fold kept i h = elim (Bool-cases (among i kept)) [
  | inl old ↦
      let known : find_exact (object_key i) x.exact ≡ some i = ground (arith, h.exactly i) in
      rw (old, insert_id, known) h
  | inr fresh ↦
      let missing : find_exact (object_key i) x.exact ≡ none = ground (arith, h.exactly i) in
      rw (fresh, insert_id, missing) (Holds-insert_new x fold kept i h fresh)
]

Holds-insert_all :
    (ids : List ObjectId) (x : ObjectIndex) (fold : List ℕ → List ℕ) (kept : List ObjectId)
    → Holds x fold kept
    → Holds (insert_all ids x) fold (keep_first kept ids)
Holds-insert_all [] x fold kept h = h
Holds-insert_all (i ∷ ids) x fold kept h = elim (Bool-cases (among i kept)) [
  | inl old ↦
      rw old (
        Holds-insert_all ids (insert_id i x) fold kept
          (rw old at (Holds-insert_id x fold kept i h)))
  | inr fresh ↦ rw fresh (
      Holds-insert_all ids (insert_id i x) fold (kept ++ i ∷ [])
        (rw fresh at (Holds-insert_id x fold kept i h)))
]

-- The index of a list of identities.
unfoldable pub index_of : Option (List ℕ → List ℕ) → List ObjectId → ObjectIndex
index_of fold ids = insert_all ids (new_object_index fold)

index_of-Holds :
    (fold : Option (List ℕ → List ℕ)) (ids : List ObjectId)
    → Holds (index_of fold ids) (new_object_index fold).fold (keep_first [] ids)
unfolding index_of new_object_index
index_of-Holds fold ids =
    Holds-insert_all ids (new_object_index fold) (new_object_index fold).fold []
      (record { folds = λ n. refl; exactly = λ i. refl; unquoted = λ kind name. refl })

among-keep_first :
    (i : ObjectId) (kept ids : List ObjectId)
    → among i (keep_first kept ids) ≡ (among i kept || among i ids)
among-keep_first i kept [] = ground arith
among-keep_first i kept (j ∷ ids) = ground (
  arith,
  among-keep_first i kept ids,
  among-keep_first i (kept ++ j ∷ []) ids,
  among-snoc i kept j,
  same_id_sound j i,
)

-- Whatever identities an index was given, in whatever order and however often: `Lookup` finds an
-- identity exactly where it is one of them, and gives that identity; `LookupUnquoted` gives, in the
-- order of insertion and each once, those of the kind whose names fold to the same as the name.
pub lookup-index_of :
    (fold : Option (List ℕ → List ℕ)) (ids : List ObjectId)
    → ((i : ObjectId)
        → lookup (some (index_of fold ids)) i ≡ (if among i ids then some i else none))
      × ((kind name : List ℕ)
          → lookup_unquoted (some (index_of fold ids)) kind name
            ≡ matching (new_object_index fold).fold kind name (keep_first [] ids))
unfolding lookup lookup_unquoted
lookup-index_of fold ids = (
  λ i.
      (index_of-Holds fold ids).exactly i
      ∙ ap (λ b. if b then some i else none) (among-keep_first i [] ids),
  λ kind name.
      rw ((index_of-Holds fold ids).folds name) ((index_of-Holds fold ids).unquoted kind name),
)

-- `ResolveObjectName` gives the name itself where an object with exactly this kind and name was
-- inserted; otherwise the name of the only object of the kind whose name folds to the same, nothing
-- where there is none, and all of them where there are more.
pub resolve-index_of :
    (fold : Option (List ℕ → List ℕ)) (ids : List ObjectId) (i : ObjectId)
    → resolve (some (index_of fold ids)) i ≡ (
        if among i ids
        then found i.name
        else decide (matching (new_object_index fold).fold i.kind i.name (keep_first [] ids)))
unfolding resolve
resolve-index_of fold ids i =
    let (exactly, unquoted) = lookup-index_of fold ids in
    elim (Bool-cases (among i ids)) [
      | inl held ↦
          let hit : lookup (some (index_of fold ids)) i ≡ some i =
            exactly i ∙ ap (λ b. if b then some i else none) held in
          rw (held, resolve, hit) refl
      | inr absent ↦
          let miss : lookup (some (index_of fold ids)) i ≡ none =
            exactly i ∙ ap (λ b. if b then some i else none) absent in
          rw (absent, resolve, miss) (ap decide (unquoted i.kind i.name))
    ]
