-- ===== src/Metadata/Details/Flights.antt =====
-- metadata/details.go: the loads in flight, the entries that wait for them and the results given.
use sqls.Base.{
  All, All-mono, Bool-cases, List, [], ap, arith, eqb, eqb_refl, eqb_sound, false, if_intro,
  if◌then◌else◌, inl, inr, ltb, none, some, subst, true, ℕ, ◌&&◌, ◌++◌, ◌+◌, ◌<◌, ◌==◌, ◌∷◌, ◌≡◌,
}
use sqls.Metadata.Details.{Entry, Run, Outcome, find_entry, remove_entry, evict}
use sqls.Metadata.Details.Sizes.{Once}

abbrev pub count_runs : ℕ → List Run → ℕ
count_runs i [] = 0
count_runs i (r ∷ rs) = (if r.entry.id == i then 1 else 0) + count_runs i rs

abbrev pub count_results : ℕ → List (ℕ × Outcome) → ℕ
count_results i [] = 0
count_results i ((j, o) ∷ rs) = (if j == i then 1 else 0) + count_results i rs

pub count_runs-middle :
    (i : ℕ) (front : List Run) (r : Run) (back : List Run)
    → count_runs i (front ++ r ∷ back)
      ≡ count_runs i (front ++ back) + (if r.entry.id == i then 1 else 0)
count_runs-middle i [] r back = omega arith
count_runs-middle i (s ∷ front) r back = omega (arith, count_runs-middle i front r back)

-- An entry has one load in flight until it has its value, and none then; the run knows its coverage.
pub record Tracks (allocated : ℕ) (runs : List Run) (e : Entry) : Type 0 where
  pub made : e.id < allocated
  pub flying : count_runs e.id runs ≡ (if e.settled then 0 else 1)
  pub agrees : All (λ (r : Run). e.id ≡ r.entry.id → e.coverage ≡ r.entry.coverage) runs

module _ (P : Run → Type 0) where
  All-without_middle :
      (front : List Run) (r : Run) (back : List Run)
      → All P (front ++ r ∷ back)
      → All P (front ++ back)
  All-without_middle [] r back h = h.1
  All-without_middle (s ∷ front) r back h = (h.0, All-without_middle front r back h.1)

  All-middle : (front : List Run) (r : Run) (back : List Run) → All P (front ++ r ∷ back) → P r
  All-middle [] r back h = h.0
  All-middle (s ∷ front) r back h = All-middle front r back h.1

-- A load that is not the entry's may end.
pub Tracks-finish :
    (a : ℕ) (front : List Run) (r : Run) (back : List Run) (e : Entry)
    → (e.id == r.entry.id) ≡ false
    → Tracks a (front ++ r ∷ back) e
    → Tracks a (front ++ back) e
Tracks-finish a front r back e d t = record {
  made = t.made;
  flying = ground (arith, t.flying, count_runs-middle e.id front r back);
  agrees = All-without_middle _ front r back t.agrees;
}

pub Tracks-settle :
    (a : ℕ) (n : ℕ) (front : List Run) (r : Run) (back : List Run) (e : Entry)
    → (e.id == r.entry.id) ≡ true
    → Tracks a (front ++ r ∷ back) e
    → Tracks a (front ++ back) (record e { size = n; settled = true })
Tracks-settle a n front r back e d t = record {
  made = t.made;
  flying = ground (arith, t.flying, count_runs-middle e.id front r back);
  agrees = All-without_middle _ front r back t.agrees;
}

pub Tracks-unsettled :
    (a : ℕ) (front : List Run) (r : Run) (back : List Run) (e : Entry)
    → (e.id == r.entry.id) ≡ true
    → Tracks a (front ++ r ∷ back) e
    → e.settled ≡ false
Tracks-unsettled a front r back e d t =
    ground (arith, t.flying, count_runs-middle e.id front r back)

pub Tracks-coverage :
    (a : ℕ) (front : List Run) (r : Run) (back : List Run) (e : Entry)
    → (e.id == r.entry.id) ≡ true
    → Tracks a (front ++ r ∷ back) e
    → e.coverage ≡ r.entry.coverage
Tracks-coverage a front r back e d t = All-middle _ front r back t.agrees (ground arith)

-- The entry of a coverage is the one that is found.
pub Once-find :
    (c : List ℕ) (es : List Entry)
    → Once es
    → All (λ (e : Entry). e.coverage ≡ c → find_entry c es ≡ some e) es
Once-find c [] o = tt
Once-find c (x ∷ es) o =
    (λ p. self x p, All-mono _ _ es (λ e h p. later e p (h p)) (Once-find c es o.1))
  where
    self : (e : Entry) → e.coverage ≡ c → find_entry c (e ∷ es) ≡ some e
    self e p = ground (arith, ap (λ k. eqb k c) p, eqb_refl c)

    clash : {e : Entry} → find_entry c es ≡ none → find_entry c es ≡ some e → ⊥
    clash p q = cc

    later : (e : Entry) → e.coverage ≡ c → find_entry c es ≡ some e → find_entry c (x ∷ es) ≡ some e
    later e p f = elim (Bool-cases (eqb x.coverage c)) [
      | inr other ↦ rw other f
      | inl same ↦
          absurd (clash (subst (λ k. find_entry k es ≡ none) (eqb_sound x.coverage c same) o.0) f)
    ]

-- What is kept of a list of entries.
pub All-remove_entry :
    (P : Entry → Type 0) (c : List ℕ) (es : List Entry) → All P es → All P (remove_entry c es)
All-remove_entry P c [] h = tt
All-remove_entry P c (e ∷ es) h =
    if_intro (All P) (eqb e.coverage c) _ _ h.1 (h.0, All-remove_entry P c es h.1)

pub All-evict :
    (P : Entry → Type 0) (max : ℕ) (es : List Entry) (total : ℕ)
    → All P es
    → All P (evict max es total).0
unfolding evict
All-evict P max [] total h = tt
All-evict P max (e ∷ es) total h = elim (Bool-cases (ltb max (evict max es total).1 && e.settled)) [
  | inl gone ↦ rw gone (All-evict P max es total h.1)
  | inr stays ↦ rw stays (h.0, All-evict P max es total h.1)
]

pub All-find_entry :
    (P : Entry → Type 0) (c : List ℕ) (es : List Entry) (e : Entry)
    → find_entry c es ≡ some e
    → All P es
    → P e
All-find_entry P c [] e f h = cc
All-find_entry P c (x ∷ es) e f h = elim (Bool-cases (eqb x.coverage c)) [
  | inl same ↦ subst P (ground (arith, f)) h.0
  | inr other ↦ All-find_entry P c es e (ground (arith, f)) h.1
]
