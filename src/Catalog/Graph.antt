-- ===== src/Catalog/Graph.antt =====
-- catalog/dependencies.go: what `Uses` and `UsedBy` give of a graph that `NewDependencyGraph` made.
use sqls.Base.{
  All, All-append, All-mono, Bool, Bool-cases, List, [], ap, arith, eqb, if_cases, if◌then◌else◌,
  inl, inr, length, length-append, refl, some, sym, ℕ, ◌&&◌, ◌++◌, ◌+◌, ◌<◌, ◌∙◌, ◌∷◌, ◌≡◌, ◌≤◌,
}
use sqls.Catalog.Dependencies.{
  DependencyEdge, DependencyGraph, DependencyRef, add_edge, add_edges, indexes_at, int32,
  new_dependency_graph, ref_key, same_ref, seen_edge, used_by, uses, wanted, append_index,
}
use sqls.Catalog.Edges.{
  IsPlainEdge, IsPlainRef, distinct_edges, indexes_at-append_index, places, places-snoc, selected,
  collect_edges-places, same_key-same_ref,
}

-- A map has, at each key, the places of the edges that have the key at an end.
abbrev HasPlaces :
    (DependencyEdge → DependencyRef) → List (List ℕ × List ℕ) → List DependencyEdge → Type 0
HasPlaces end m kept = (k : List ℕ) → indexes_at k m ≡ places (λ e. eqb (ref_key (end e)) k) 0 kept

HasPlaces-snoc :
    (end : DependencyEdge → DependencyRef) (m : List (List ℕ × List ℕ))
    (edges kept : List DependencyEdge) (e : DependencyEdge)
    → edges ≡ kept
    → HasPlaces end m kept
    → HasPlaces end (append_index (ref_key (end e)) (int32 (length edges)) m) (kept ++ e ∷ [])
HasPlaces-snoc end m edges kept e same h k =
    let place : length edges ≡ 0 + length kept = omega (arith, ap length same) in
    indexes_at-append_index k (ref_key (end e)) (int32 (length edges)) m
    ∙ ap (λ is. is ++ (if eqb (ref_key (end e)) k then int32 (length edges) ∷ [] else [])) (h k)
    ∙ ap
        (λ n.
          places (λ d. eqb (ref_key (end d)) k) 0 kept
          ++ (if eqb (ref_key (end e)) k then int32 n ∷ [] else []))
        place
    ∙ sym (places-snoc (λ d. eqb (ref_key (end d)) k) 0 kept e)

-- A graph has these edges, and its maps their places.
record HasEdges (g : DependencyGraph) (kept : List DependencyEdge) : Type 0 where
  edges_kept : g.edges ≡ kept
  origins : HasPlaces (λ e. e.origin) g.uses_map kept
  targets : HasPlaces (λ e. e.target) g.used_by_map kept

HasEdges-add_edge :
    (g : DependencyGraph) (kept : List DependencyEdge) (e : DependencyEdge)
    → HasEdges g kept
    → HasEdges (add_edge e g) (if seen_edge e kept then kept else kept ++ e ∷ [])
unfolding add_edge
HasEdges-add_edge g kept e h = elim (Bool-cases (seen_edge e kept)) [
  | inl old ↦ rw (old, ap (seen_edge e) h.edges_kept ∙ old) h
  | inr fresh ↦
      rw (fresh, ap (seen_edge e) h.edges_kept ∙ fresh)
        (record {
          edges_kept = ap (λ es. es ++ e ∷ []) h.edges_kept;
          origins = HasPlaces-snoc (λ d. d.origin) g.uses_map g.edges kept e h.edges_kept h.origins;
          targets =
              HasPlaces-snoc (λ d. d.target) g.used_by_map g.edges kept e h.edges_kept h.targets;
        })
]

HasEdges-add_edges :
    (es : List DependencyEdge) (g : DependencyGraph) (kept : List DependencyEdge)
    → HasEdges g kept
    → HasEdges (add_edges es g) (distinct_edges kept es)
HasEdges-add_edges [] g kept h = h
HasEdges-add_edges (e ∷ es) g kept h = elim (Bool-cases (seen_edge e kept)) [
  | inl old ↦
      rw old (HasEdges-add_edges es (add_edge e g) kept (rw old at (HasEdges-add_edge g kept e h)))
  | inr fresh ↦ rw fresh (
      HasEdges-add_edges es (add_edge e g) (kept ++ e ∷ [])
        (rw fresh at (HasEdges-add_edge g kept e h)))
]

distinct_edges-All :
    (P : DependencyEdge → Type 0) (kept es : List DependencyEdge)
    → All P kept
    → All P es
    → All P (distinct_edges kept es)
distinct_edges-All P kept [] hk he = hk
distinct_edges-All P kept (e ∷ es) hk he =
    if_cases (All P) (seen_edge e kept) _ _ (λ old. distinct_edges-All P kept es hk he.1)
      (λ fresh.
        distinct_edges-All P (kept ++ e ∷ []) es (All-append P kept (e ∷ []) hk (he.0, tt)) he.1)

length-distinct_edges :
    (kept es : List DependencyEdge) → length (distinct_edges kept es) ≤ length kept + length es
length-distinct_edges kept [] = omega arith
length-distinct_edges kept (e ∷ es) = ground (
  arith,
  length-distinct_edges kept es,
  length-distinct_edges (kept ++ e ∷ []) es,
  length-append kept (e ∷ []),
)

selected-same :
    (a b : DependencyEdge → Bool) (es : List DependencyEdge)
    → All (λ e. a e ≡ b e) es
    → selected a es ≡ selected b es
selected-same a b [] h = refl
selected-same a b (e ∷ es) h = ground (arith, selected-same a b es h.1)

module _ (sort_strings : List (List ℕ) → List (List ℕ)) where
  -- For a graph that `NewDependencyGraph` makes of fewer than 2³¹ edges whose kinds and parents
  -- have no NUL: `Uses` gives the distinct edges that start at the reference, in the order in which
  -- they first came, and `UsedBy` those that end at it and, for a field that is not empty, have
  -- that field; neither panics.
  pub uses-new_dependency_graph :
      (es : List DependencyEdge) (checks : List (List ℕ × List (List ℕ))) (r : DependencyRef)
      (field : List ℕ)
      → length es < 2147483648
      → All IsPlainEdge es
      → IsPlainRef r
      → (uses (some (new_dependency_graph sort_strings es checks)) r
          ≡ some (selected (λ e. same_ref e.origin r) (distinct_edges [] es)))
        × (used_by (some (new_dependency_graph sort_strings es checks)) r field
            ≡ some (selected (λ e. same_ref e.target r && wanted field e) (distinct_edges [] es)))
  unfolding uses used_by new_dependency_graph
  uses-new_dependency_graph es checks r field few plain plain_ref =
      let h =
        HasEdges-add_edges es (record { edges = []; uses_map = []; used_by_map = []; checks = [] })
          [] (record { edges_kept = refl; origins = λ k. refl; targets = λ k. refl }) in
      let kept = distinct_edges [] es in
      let short : length kept ≤ 2147483648 = omega (arith, length-distinct_edges [] es, few) in
      let all_plain : All IsPlainEdge kept = distinct_edges-All IsPlainEdge [] es tt plain in
      (
        rw (h.edges_kept, h.origins (ref_key r))
            (collect_edges-places (λ e. eqb (ref_key e.origin) (ref_key r)) [] [] kept short
              ∙ ap some (
                  selected-same _ _ kept (
                    All-mono IsPlainEdge _ kept
                      (λ e pure. ground (arith, same_key-same_ref e.origin r pure.0 plain_ref))
                      all_plain))),
        rw (h.edges_kept, h.targets (ref_key r))
            (collect_edges-places (λ e. eqb (ref_key e.target) (ref_key r)) field [] kept short
              ∙ ap some (
                  selected-same _ _ kept (
                    All-mono IsPlainEdge _ kept
                      (λ e pure. ground (arith, same_key-same_ref e.target r pure.1 plain_ref))
                      all_plain))),
      )
