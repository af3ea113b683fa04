-- ===== src/Catalog/Edges.antt =====
-- catalog/dependencies.go: a graph against the list of the edges that it was given.
use sqls.Base.{
  All, Bool, Bool-cases, List, [], ap, append-nil, append_assoc, arith, eqb, eqb_comm, eqb_refl,
  eqb_sound, false, if◌then◌else◌, inl, inr, length, length-append, ltb, refl, some, suc, sym, true,
  ℕ, ◌&&◌, ◌++◌, ◌+◌, ◌<◌, ◌∙◌, ◌∷◌, ◌≡◌, ◌≢◌, ◌≤◌,
}
use sqls.Catalog.Dependencies.{
  DependencyEdge, DependencyRef, append_index, collect_edges, edge_at, indexes_at, int32, ref_key,
  same_ref, seen_edge, wanted,
}

-- The edges without those that were there before, behind what is kept already.
abbrev pub distinct_edges : List DependencyEdge → List DependencyEdge → List DependencyEdge
distinct_edges kept [] = kept
distinct_edges kept (e ∷ es) =
    if seen_edge e kept then distinct_edges kept es else distinct_edges (kept ++ e ∷ []) es

-- The edges that pass a test, in their order.
abbrev pub selected : (DependencyEdge → Bool) → List DependencyEdge → List DependencyEdge
selected test [] = []
selected test (e ∷ es) = if test e then e ∷ selected test es else selected test es

abbrev pub IsNotNul : ℕ → Type 0
IsNotNul c = c ≢ 0

-- The kind and the parent of a reference have no NUL, which separates them in its key.
abbrev pub IsPlainRef : DependencyRef → Type 0
IsPlainRef r = All IsNotNul r.kind × All IsNotNul r.parent

abbrev pub IsPlainEdge : DependencyEdge → Type 0
IsPlainEdge e = IsPlainRef e.origin × IsPlainRef e.target

split_at_nul :
    (a b : List ℕ) {x y : List ℕ}
    → All IsNotNul a
    → All IsNotNul b
    → a ++ 0 ∷ x ≡ b ++ 0 ∷ y
    → (a ≡ b) × (x ≡ y)
split_at_nul [] [] ha hb e = (refl, cc)
split_at_nul [] (_ ∷ _) ha hb e = ground arith
split_at_nul (_ ∷ _) [] ha hb e = ground arith
split_at_nul (c ∷ a) (d ∷ b) {x} {y} ha hb e =
    let parts : (a ≡ b) × (x ≡ y) = split_at_nul a b ha.1 hb.1 cc in (cc, parts.1)

ref_key-injective :
    (a b : DependencyRef) → IsPlainRef a → IsPlainRef b → ref_key a ≡ ref_key b → a ≡ b
unfolding ref_key
ref_key-injective a b ha hb e =
    let outer = split_at_nul a.kind b.kind ha.0 hb.0 e in
    let inner = split_at_nul a.parent b.parent ha.1 hb.1 outer.1 in ground arith

same_ref_sound : (a b : DependencyRef) → same_ref a b ≡ true → a ≡ b
same_ref_sound a b h =
    ground (arith, eqb_sound a.kind b.kind, eqb_sound a.name b.name, eqb_sound a.parent b.parent)

same_ref_refl : (a : DependencyRef) → same_ref a a ≡ true
same_ref_refl a = ground (arith, eqb_refl a.kind, eqb_refl a.name, eqb_refl a.parent)

-- Keys are compared where references are meant.
pub same_key-same_ref :
    (a b : DependencyRef) → IsPlainRef a → IsPlainRef b → eqb (ref_key a) (ref_key b) ≡ same_ref a b
same_key-same_ref a b ha hb = elim (Bool-cases (same_ref a b)) [
  | inl same ↦
      ap (λ r. eqb (ref_key a) (ref_key r)) (sym (same_ref_sound a b same))
      ∙ eqb_refl (ref_key a)
      ∙ sym same
  | inr other ↦ elim (Bool-cases (eqb (ref_key a) (ref_key b))) [
    | inr differ ↦ differ ∙ sym other
    | inl equal ↦
        let one = ref_key-injective a b ha hb (eqb_sound _ _ equal) in
        equal ∙ sym (ap (same_ref a) (sym one) ∙ same_ref_refl a)
  ]
]

-- The places of the edges that pass a test, from a first place on.
abbrev pub places : (DependencyEdge → Bool) → ℕ → List DependencyEdge → List ℕ
places test i [] = []
places test i (e ∷ es) = if test e then int32 i ∷ places test (suc i) es else places test (suc i) es

pub places-snoc :
    (test : DependencyEdge → Bool) (i : ℕ) (es : List DependencyEdge) (e : DependencyEdge)
    → places test i (es ++ e ∷ [])
      ≡ (places test i es ++ (if test e then int32 (i + length es) ∷ [] else []))
places-snoc test i [] e = ap (λ n. if test e then int32 n ∷ [] else []) (omega arith)
places-snoc test i (d ∷ es) e = ground (arith, places-snoc test (suc i) es e)

pub indexes_at-append_index :
    (k j : List ℕ) (i : ℕ) (m : List (List ℕ × List ℕ))
    → indexes_at k (append_index j i m) ≡ indexes_at k m ++ (if eqb j k then i ∷ [] else [])
indexes_at-append_index k j i [] = refl
indexes_at-append_index k j i ((l, is) ∷ m) = elim (Bool-cases (eqb l j)) [
  | inl same ↦ rw (same, eqb_sound l j same) (ground (arith, append-nil (indexes_at k m)))
  | inr other ↦ elim (Bool-cases (eqb l k)) [
    | inr far ↦ rw (other, far) (indexes_at-append_index k j i m)
    | inl near ↦
        let apart : eqb j k ≡ false = rw (sym (eqb_sound l k near)) (eqb_comm j l ∙ other) in
        rw (other, near, apart) (sym (append-nil is))
  ]
]

edge_at-append :
    (front es : List DependencyEdge) (e : DependencyEdge)
    → edge_at (length front) (front ++ e ∷ es) ≡ some e
edge_at-append [] es e = refl
edge_at-append (d ∷ front) es e = edge_at-append front es e

in_range : (n : ℕ) → n < 2147483648 → ltb n 2147483648 ≡ true
in_range n h = ground arith

collect_edges-cons :
    (es : List DependencyEdge) (i : ℕ) (is : List ℕ) (field : List ℕ) (e : DependencyEdge)
    (rest : List DependencyEdge)
    → ltb i 2147483648 ≡ true
    → edge_at i es ≡ some e
    → collect_edges es is field ≡ some rest
    → collect_edges es (i ∷ is) field ≡ some (if wanted field e then e ∷ rest else rest)
collect_edges-cons es i is field e rest small held later = ground arith

-- The edges at the places of a test are those that pass it.
pub collect_edges-places :
    (test : DependencyEdge → Bool) (field : List ℕ) (front es : List DependencyEdge)
    → length (front ++ es) ≤ 2147483648
    → collect_edges (front ++ es) (places test (length front) es) field
      ≡ some (selected (λ e. test e && wanted field e) es)
collect_edges-places test field front [] h = refl
collect_edges-places test field front (e ∷ es) h =
    let flat : (front ++ e ∷ []) ++ es ≡ front ++ e ∷ es = append_assoc front (e ∷ []) es in
    let next_place : length (front ++ e ∷ []) ≡ suc (length front) =
      omega (arith, length-append front (e ∷ [])) in
    let later : collect_edges (front ++ e ∷ es) (places test (suc (length front)) es) field
        ≡ some (selected (λ d. test d && wanted field d) es) =
      rw (flat, next_place) at (collect_edges-places test field (front ++ e ∷ []) es (rw flat h)) in
    let small : length front < 2147483648 = omega (arith, h, length-append front (e ∷ es)) in
    let low : int32 (length front) ≡ length front = omega arith in
    elim (Bool-cases (test e)) [
      | inr skipped ↦ rw skipped later
      | inl taken ↦
          rw (taken, low)
            (collect_edges-cons (front ++ e ∷ es) (length front)
              (places test (suc (length front)) es) field e _ (in_range (length front) small)
              (edge_at-append front es e) later)
    ]
