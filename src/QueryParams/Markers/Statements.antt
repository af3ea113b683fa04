-- ===== src/QueryParams/Markers/Statements.antt =====
-- internal/queryparams/scan.go: the statements of a batch have one marker for each key.
use sqls.Base.{
  All, Bool-cases, List, [], arith, if◌then◌else◌, inl, inr, is_blank, length, refl, subst,
  trim_left, trim_right, true, ℕ, ◌+◌, ◌∙◌, ◌∷◌, ◌≡◌,
}
use sqls.QueryParams.Scan.{Result, Batch, Statement, bind-ok, ok, scan_text}
use sqls.QueryParams.Compile.{compile, collect, has_marker}
use sqls.QueryParams.Keys.{collect-All}
use sqls.QueryParams.Markers.{Reader, markers, code, feed, mark}
use sqls.QueryParams.Markers.Count.{Marked, scan_text-Marked}

-- Blanks that are cut off hold no marker.
markers-trim_left : (s : List ℕ) → markers code (trim_left s) ≡ markers code s
markers-trim_left [] = refl
markers-trim_left (c ∷ cs) = ground (arith, markers-trim_left cs)

mark-blank : (r : Reader) (c : ℕ) → is_blank c ≡ true → mark r c ≡ 0
mark-blank r c h = ground arith

markers-trim_right : (r : Reader) (s : List ℕ) → markers r (trim_right s) ≡ markers r s
markers-trim_right r [] = refl
markers-trim_right r (c ∷ cs) = cut (trim_right cs) (markers-trim_right (feed r c) cs)
  where
    cut :
        (t : List ℕ)
        → markers (feed r c) t ≡ markers (feed r c) cs
        → markers r (elim t [ [] ↦ if is_blank c then [] else c ∷ [] | x ∷ xs ↦ c ∷ x ∷ xs ])
          ≡ mark r c + markers (feed r c) cs
    cut [] e = elim (Bool-cases (is_blank c)) [
      | inl blank ↦ rw blank (omega (arith, e, mark-blank r c blank))
      | inr other ↦ rw other (omega (arith, e))
    ]
    cut (x ∷ xs) e = omega (arith, e)

abbrev pub HasMarkers : Batch → Type 0
HasMarkers b = All (λ (t : Statement). markers code t.sql ≡ length t.keys) b.statements

-- For every text that compiles, a driver that reads the SQL of a statement finds as many `?` in its
-- code, outside literals, delimited identifiers and comments, as the statement has keys.
pub compile-markers : (text : List ℕ) {b : Batch} → compile text ≡ ok b → HasMarkers b
unfolding compile
compile-markers text e =
    let (s, q, p) = bind-ok _ (scan_text text) e in
    let (ts, v, u) = bind-ok _ (collect (has_marker s.fragments) s.fragments []) q in
    let h : Marked s = rw p at (scan_text-Marked text) in
    let all : All (λ (t : Statement). markers code t.sql ≡ length t.keys) ts = rw u at (
      collect-All (λ f. markers code f.sql ≡ length f.keys)
        (λ t. markers code t.sql ≡ length t.keys) (has_marker s.fragments) s.fragments []
        (λ f k. markers-trim_right code (trim_left f.sql) ∙ markers-trim_left f.sql ∙ k) h tt) in
    done v all
  where
    done : {a b : Batch} → ◌≡◌ {A = Result Batch} (ok a) (ok b) → HasMarkers a → HasMarkers b
    done {a} {b} v h = subst HasMarkers {x = a} {y = b} (cc) h
