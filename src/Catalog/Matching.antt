-- ===== src/Catalog/Matching.antt =====
-- catalog/objectindex.go: identities and folded names, compared and collected.
use sqls.Base.{
  Bool, Bool-cases, List, [], ap, append-nil, arith, eqb, eqb_comm, eqb_refl, eqb_sound, false,
  if◌then◌else◌, inl, inr, refl, sym, true, ℕ, ◌&&◌, ◌++◌, ◌||◌, ◌∙◌, ◌∷◌, ◌≡◌,
}
use sqls.Catalog.Identity.{ObjectId, object_key}
use sqls.Catalog.Keys.{object_key-injective}
use sqls.Catalog.ObjectIndex.{FoldKey, append_fold, find_fold, same_fold}

-- One identity is another, field by field.
abbrev pub same_id : ObjectId → ObjectId → Bool
same_id i j =
    eqb i.catalog j.catalog
    && eqb i.schema j.schema
    && eqb i.owner j.owner
    && eqb i.kind j.kind
    && eqb i.name j.name
    && eqb i.parent j.parent

abbrev pub among : ObjectId → List ObjectId → Bool
among i [] = false
among i (j ∷ ids) = same_id j i || among i ids

-- The list without what was in front of it before, behind what is kept already.
abbrev pub keep_first : List ObjectId → List ObjectId → List ObjectId
keep_first kept [] = kept
keep_first kept (i ∷ ids) =
    if among i kept then keep_first kept ids else keep_first (kept ++ i ∷ []) ids

-- The identities of a kind whose names have the same folded form as a name.
abbrev pub matching : (List ℕ → List ℕ) → List ℕ → List ℕ → List ObjectId → List ObjectId
matching fold kind name [] = []
matching fold kind name (i ∷ ids) =
    if eqb i.kind kind && eqb (fold i.name) (fold name)
    then i ∷ matching fold kind name ids
    else matching fold kind name ids

pub same_id_sound : (i j : ObjectId) → same_id i j ≡ true → i ≡ j
same_id_sound i j h = ground (
  arith,
  eqb_sound i.catalog j.catalog,
  eqb_sound i.schema j.schema,
  eqb_sound i.owner j.owner,
  eqb_sound i.kind j.kind,
  eqb_sound i.name j.name,
  eqb_sound i.parent j.parent,
)

pub same_id_refl : (i : ObjectId) → same_id i i ≡ true
same_id_refl i = ground (
  arith,
  eqb_refl i.catalog,
  eqb_refl i.schema,
  eqb_refl i.owner,
  eqb_refl i.kind,
  eqb_refl i.name,
  eqb_refl i.parent,
)

-- Keys are compared where identities are meant, and it makes no difference.
pub same_key-same_id : (i j : ObjectId) → eqb (object_key i) (object_key j) ≡ same_id i j
same_key-same_id i j = elim (Bool-cases (same_id i j)) [
  | inl same ↦
      ap (λ k. eqb (object_key i) (object_key k)) (sym (same_id_sound i j same))
      ∙ eqb_refl (object_key i)
      ∙ sym same
  | inr other ↦ elim (Bool-cases (eqb (object_key i) (object_key j))) [
    | inr differ ↦ differ ∙ sym other
    | inl equal ↦
        let one = object_key-injective i j (eqb_sound _ _ equal) in
        equal ∙ sym (ap (same_id i) (sym one) ∙ same_id_refl i)
  ]
]

pub matching-snoc :
    (fold : List ℕ → List ℕ) (kind name : List ℕ) (ids : List ObjectId) (i : ObjectId)
    → matching fold kind name (ids ++ i ∷ []) ≡ (
        matching fold kind name ids
        ++ (if eqb i.kind kind && eqb (fold i.name) (fold name) then i ∷ [] else []))
matching-snoc fold kind name [] i = refl
matching-snoc fold kind name (j ∷ ids) i = ground (arith, matching-snoc fold kind name ids i)

same_fold_sound : (a b : FoldKey) → same_fold a b ≡ true → a ≡ b
same_fold_sound a b h = ground (arith, eqb_sound a.kind b.kind, eqb_sound a.folded b.folded)

same_fold_refl : (a : FoldKey) → same_fold a a ≡ true
same_fold_refl a = ground (arith, eqb_refl a.kind, eqb_refl a.folded)

same_fold_comm : (a b : FoldKey) → same_fold a b ≡ same_fold b a
same_fold_comm a b = ground (arith, eqb_comm a.kind b.kind, eqb_comm a.folded b.folded)

pub find_fold-append_fold :
    (k j : FoldKey) (i : ObjectId) (m : List (FoldKey × List ObjectId))
    → find_fold k (append_fold j i m) ≡ find_fold k m ++ (if same_fold j k then i ∷ [] else [])
find_fold-append_fold k j i [] = refl
find_fold-append_fold k j i ((l, ids) ∷ m) = elim (Bool-cases (same_fold l j)) [
  | inl same ↦ rw (same, same_fold_sound l j same) (ground (arith, append-nil (find_fold k m)))
  | inr other ↦ elim (Bool-cases (same_fold l k)) [
    | inr far ↦ rw (other, far) (find_fold-append_fold k j i m)
    | inl near ↦
        let apart : same_fold j k ≡ false =
          rw (sym (same_fold_sound l k near)) (same_fold_comm j l ∙ other) in
        rw (other, near, apart) (sym (append-nil ids))
  ]
]
