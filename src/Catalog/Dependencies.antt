-- ===== src/Catalog/Dependencies.antt =====
-- catalog/dependencies.go: `DependencyGraph`. The maps of a graph are not nil; an index is an `int32`, kept
-- as the number modulo 2³² that its bits are, and one with the sign bit is out of range.
use sqls.Base.{
  Bool, List, Option, [], eqb, false, if◌then◌else◌, is_empty, length, ltb, none, some, suc, zero,
  ℕ, ◌%◌, ◌&&◌, ◌++◌, ◌||◌, ◌∷◌,
}

pub record DependencyRef : Type 0 where
  pub kind : List ℕ
  pub name : List ℕ
  pub parent : List ℕ

-- `DependencyEdge`: from `origin` to `target`.
pub record DependencyEdge : Type 0 where
  pub origin : DependencyRef
  pub target : DependencyRef
  pub field : List ℕ

pub record DependencyGraph : Type 0 where
  pub edges : List DependencyEdge
  pub uses_map : List (List ℕ × List ℕ)
  pub used_by_map : List (List ℕ × List ℕ)
  pub checks : List (List ℕ × List (List ℕ))

-- `(DependencyRef).key`
unfoldable pub ref_key : DependencyRef → List ℕ
ref_key r = r.kind ++ (0 ∷ (r.parent ++ (0 ∷ r.name)))

-- `==` on references and on edges.
abbrev pub same_ref : DependencyRef → DependencyRef → Bool
same_ref a b = eqb a.kind b.kind && eqb a.name b.name && eqb a.parent b.parent

abbrev pub same_edge : DependencyEdge → DependencyEdge → Bool
same_edge a b = same_ref a.origin b.origin && same_ref a.target b.target && eqb a.field b.field

-- Membership in `seen`.
abbrev pub seen_edge : DependencyEdge → List DependencyEdge → Bool
seen_edge e [] = false
seen_edge e (d ∷ ds) = same_edge d e || seen_edge e ds

-- `int32(n)`
abbrev pub int32 : ℕ → ℕ
int32 n = n % 4294967296

-- `m[k] = append(m[k], i)`
abbrev pub append_index : List ℕ → ℕ → List (List ℕ × List ℕ) → List (List ℕ × List ℕ)
append_index k i [] = (k, i ∷ []) ∷ []
append_index k i ((j, is) ∷ m) =
    if eqb j k then (j, is ++ i ∷ []) ∷ m else (j, is) ∷ append_index k i m

-- `m[k]`
abbrev pub indexes_at : List ℕ → List (List ℕ × List ℕ) → List ℕ
indexes_at k [] = []
indexes_at k ((j, is) ∷ m) = if eqb j k then is else indexes_at k m

-- A round of the loop over the edges.
unfoldable pub add_edge : DependencyEdge → DependencyGraph → DependencyGraph
add_edge e g =
    let i = int32 (length g.edges) in
    if seen_edge e g.edges then g else record g {
      edges = g.edges ++ e ∷ [];
      uses_map = append_index (ref_key e.origin) i g.uses_map;
      used_by_map = append_index (ref_key e.target) i g.used_by_map;
    }

abbrev pub add_edges : List DependencyEdge → DependencyGraph → DependencyGraph
add_edges [] g = g
add_edges (e ∷ es) g = add_edges es (add_edge e g)

-- The loop that keeps of sorted names those that differ from the one before.
abbrev pub kept_names : Option (List ℕ) → List (List ℕ) → List (List ℕ)
kept_names before [] = []
kept_names none (n ∷ ns) = n ∷ kept_names (some n) ns
kept_names (some b) (n ∷ ns) =
    if eqb n b then kept_names (some n) ns else n ∷ kept_names (some n) ns

module _ (sort_strings : List (List ℕ) → List (List ℕ)) where
  abbrev check_names : List (List ℕ × List (List ℕ)) → List (List ℕ × List (List ℕ))
  check_names [] = []
  check_names ((relation, names) ∷ m) =
      (relation, kept_names none (sort_strings names)) ∷ check_names m

  -- `NewDependencyGraph`
  unfoldable pub new_dependency_graph :
      List DependencyEdge → List (List ℕ × List (List ℕ)) → DependencyGraph
  new_dependency_graph edges checks =
      let g =
        add_edges edges (record { edges = []; uses_map = []; used_by_map = []; checks = [] }) in
      record g { checks = check_names checks }

-- `g.edges[i]`; none is the panic of an index out of range.
abbrev pub edge_at : ℕ → List DependencyEdge → Option DependencyEdge
edge_at i [] = none
edge_at zero (e ∷ es) = some e
edge_at (suc i) (e ∷ es) = edge_at i es

-- `collect`
abbrev pub wanted : List ℕ → DependencyEdge → Bool
wanted field e = is_empty field || eqb e.field field

abbrev pub collect_edges : List DependencyEdge → List ℕ → List ℕ → Option (List DependencyEdge)
collect_edges es [] field = some []
collect_edges es (i ∷ is) field = elim (if ltb i 2147483648 then edge_at i es else none) [
  | none ↦ none
  | some e ↦ elim (collect_edges es is field) [
    | none ↦ none
    | some rest ↦ some (if wanted field e then e ∷ rest else rest)
  ]
]

-- `Uses` and `UsedBy` of a graph that may be nil.
unfoldable pub uses : Option DependencyGraph → DependencyRef → Option (List DependencyEdge)
uses none r = some []
uses (some g) r = collect_edges g.edges (indexes_at (ref_key r) g.uses_map) []

unfoldable pub used_by :
    Option DependencyGraph → DependencyRef → List ℕ → Option (List DependencyEdge)
used_by none r field = some []
used_by (some g) r field = collect_edges g.edges (indexes_at (ref_key r) g.used_by_map) field

-- `Len`
abbrev pub edge_count : Option DependencyGraph → ℕ
edge_count none = 0
edge_count (some g) = length g.edges

-- `CheckConstraints`
abbrev pub find_checks : List ℕ → List (List ℕ × List (List ℕ)) → List (List ℕ)
find_checks r [] = []
find_checks r ((j, names) ∷ m) = if eqb j r then names else find_checks r m

unfoldable pub check_constraints : Option DependencyGraph → List ℕ → List (List ℕ)
check_constraints none relation = []
check_constraints (some g) relation = find_checks relation g.checks
