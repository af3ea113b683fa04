-- ===== src/Metadata/Details/Bounded.antt =====
-- metadata/details.go: what every operation of a detail store keeps.
use sqls.Base.{
  All, Bool-cases, List, Option, Option-cases, [], ap, arith, eqb, eqb_refl, eqb_sound, false,
  if_intro, if◌then◌else◌, inl, inr, ltb, none, not, some, subst, true, ℕ, ◌&&◌, ◌++◌, ◌+◌, ◌==◌,
  ◌∷◌, ◌≡◌, ◌≤◌, ◌⊎◌,
}
use sqls.Metadata.Details.{
  Entry, Run, Store, remove_entry, keep_value, still_mapped, drop, Detail, evict, find_entry,
  set_settled, settle, Outcome, answer, detail_weight, err_detail_limit, load_error,
}
use sqls.Metadata.Details.Sizes.{
  Once, settled_bytes, Once-evict, Once-remove_entry, Once-set_settled, bytes_of, evict_bounds,
  find_entry-remove_entry, settled_bytes-remove_entry, settled_bytes-set_settled,
}
use sqls.Metadata.Details.Flights.{
  Tracks, Tracks-finish, All-evict, All-find_entry, All-remove_entry, Once-find, Tracks-coverage,
  Tracks-settle, Tracks-unsettled,
}

-- The bytes are those of the entries with a value, they fit, no coverage has two entries, and every
-- entry without a value has its load in flight.
pub record IsSound (d : Store) (runs : List Run) : Type 0 where
  pub counted : d.total_bytes ≡ settled_bytes d.entries
  pub fits : d.total_bytes ≤ d.max_bytes
  pub once : Once d.entries
  pub tracks : All (Tracks d.allocated runs) d.entries

none-unlike :
    (c : List ℕ) (es : List Entry)
    → find_entry c es ≡ none
    → All (λ (e : Entry). eqb e.coverage c ≡ false) es
none-unlike c [] f = tt
none-unlike c (e ∷ es) f = (ground (arith, f), none-unlike c es (ground (arith, f)))

-- A run `r` among those in flight ends.
module _ (front : List Run) (r : Run) (back : List Run) where
  abbrev runs : List Run
  runs = front ++ r ∷ back

  abbrev fewer : List Run
  fewer = front ++ back

  -- An entry of another coverage is not the run's.
  apart :
      (a : ℕ) (e : Entry)
      → eqb e.coverage r.entry.coverage ≡ false
      → Tracks a runs e
      → (e.id == r.entry.id) ≡ false
  apart a e n t = elim (Bool-cases (e.id == r.entry.id)) [
    | inr other ↦ other
    | inl same ↦
        let q = ap (λ k. eqb k r.entry.coverage) (Tracks-coverage a front r back e same t) in
        cc (q, eqb_refl r.entry.coverage)
  ]

  others :
      (a : ℕ) (es : List Entry)
      → All (λ (e : Entry). eqb e.coverage r.entry.coverage ≡ false) es
      → All (Tracks a runs) es
      → All (Tracks a fewer) es
  others a [] n t = tt
  others a (e ∷ es) n t =
      (Tracks-finish a front r back e (apart a e n.0 t.0) t.0, others a es n.1 t.1)

  -- The run's own entry, where it is mapped.
  mapped :
      (d : Store)
      → still_mapped r d ≡ true
      → (e : Entry) × (find_entry r.entry.coverage d.entries ≡ some e)
        × ((e.id == r.entry.id) ≡ true)
  unfolding still_mapped
  mapped d m = elim (Option-cases (find_entry r.entry.coverage d.entries)) [
    | inl e ↦ absurd (ground (arith, m, e))
    | inr (e, f) ↦ (e, f, ground (arith, m, f))
  ]

  mapped-unsettled :
      (d : Store) (e : Entry)
      → find_entry r.entry.coverage d.entries ≡ some e
      → (e.id == r.entry.id) ≡ true
      → IsSound d runs
      → bytes_of e ≡ 0
  mapped-unsettled d e f p h =
      let t = All-find_entry (Tracks d.allocated runs) r.entry.coverage d.entries e f h.tracks in
      ground (arith, Tracks-unsettled d.allocated front r back e p t)

  drop-IsSound : (d : Store) → still_mapped r d ≡ true → IsSound d runs → IsSound (drop r d) fewer
  drop-IsSound d m h =
      let c = r.entry.coverage in
      let (e, f, p) = mapped d m in
      record {
        counted = omega (
          arith,
          h.counted,
          mapped-unsettled d e f p h,
          settled_bytes-remove_entry c d.entries e f,
        );
        fits = h.fits;
        once = Once-remove_entry c d.entries h.once;
        tracks =
            others d.allocated (remove_entry c d.entries)
              (none-unlike c (remove_entry c d.entries)
                (find_entry-remove_entry c d.entries h.once))
              (All-remove_entry _ c d.entries h.tracks);
      }

  unmapped-others :
      (d : Store) (es : List Entry)
      → still_mapped r d ≡ false
      → All
          (λ (e : Entry).
            e.coverage ≡ r.entry.coverage → find_entry r.entry.coverage d.entries ≡ some e)
          es
      → All (Tracks d.allocated runs) es
      → All (Tracks d.allocated fewer) es
  unfolding still_mapped
  unmapped-others d [] m g t = tt
  unmapped-others d (e ∷ es) m g t = (
    Tracks-finish d.allocated front r back e (split (Bool-cases (e.id == r.entry.id))) t.0,
    unmapped-others d es m g.1 t.1,
  )
    where
      split :
          ((e.id == r.entry.id) ≡ true) ⊎ ((e.id == r.entry.id) ≡ false)
          → (e.id == r.entry.id) ≡ false
      split (inr other) = other
      split (inl same) =
          absurd
            (ground (arith, g.0 (Tracks-coverage d.allocated front r back e same t.0), m, same))

  unmapped-IsSound : (d : Store) → still_mapped r d ≡ false → IsSound d runs → IsSound d fewer
  unmapped-IsSound d m h = record {
    counted = h.counted;
    fits = h.fits;
    once = h.once;
    tracks = unmapped-others d d.entries m (Once-find r.entry.coverage d.entries h.once) h.tracks;
  }

  set_settled-Tracks :
      (a n : ℕ) (es : List Entry) (e : Entry)
      → find_entry r.entry.coverage es ≡ some e
      → (e.id == r.entry.id) ≡ true
      → Once es
      → All (Tracks a runs) es
      → All (Tracks a fewer) (set_settled n r.entry.coverage es)
  set_settled-Tracks a n [] e f p o t = cc
  set_settled-Tracks a n (x ∷ es) e f p o t = elim (Bool-cases (eqb x.coverage r.entry.coverage)) [
    | inl same ↦
        let q =
          subst (λ k. find_entry k es ≡ none) (eqb_sound x.coverage r.entry.coverage same) o.0 in
        rw same (
          Tracks-settle a n front r back x (ground (arith, f, p)) t.0,
          others a es (none-unlike r.entry.coverage es q) t.1,
        )
    | inr other ↦ rw other (
      Tracks-finish a front r back x (apart a x other t.0) t.0,
      set_settled-Tracks a n es e (ground (arith, f)) p o.1 t.1,
    )
  ]

  keep_value-IsSound :
      (d : Store) (n : ℕ)
      → still_mapped r d ≡ true
      → IsSound d runs
      → IsSound (keep_value r n d) fewer
  unfolding keep_value
  keep_value-IsSound d n m h =
      let c = r.entry.coverage in
      let (e, f, p) = mapped d m in
      let es = set_settled n c d.entries in
      let q : settled_bytes es ≡ d.total_bytes + n = omega (
        arith,
        h.counted,
        mapped-unsettled d e f p h,
        settled_bytes-set_settled n c d.entries e f,
      ) in
      let b =
        subst
          (λ t.
            ((evict d.max_bytes es t).1 ≡ settled_bytes (evict d.max_bytes es t).0)
            × ((evict d.max_bytes es t).1 ≤ d.max_bytes))
          q (evict_bounds d.max_bytes es) in
      record {
        counted = b.0;
        fits = b.1;
        once =
            Once-evict d.max_bytes es (d.total_bytes + n) (Once-set_settled n c d.entries h.once);
        tracks =
            All-evict _ d.max_bytes es (d.total_bytes + n)
              (set_settled-Tracks d.allocated n d.entries e f p h.once h.tracks);
      }

  -- The end of a run, on each branch.
  pub settle-IsSound :
      (loaded : Option Detail) (d : Store) → IsSound d runs → IsSound (settle r loaded d).0 fewer
  unfolding settle
  settle-IsSound loaded d h = elim (Bool-cases (still_mapped r d)) [
    | inr off ↦ rw off (unmapped-IsSound d off h)
    | inl on ↦ elim (Bool-cases (not d.stale && r.generation == d.generation)) [
      | inr superseded ↦ rw (on, superseded) (drop-IsSound d on h)
      | inl valid ↦ rw (on, valid) (settled loaded on)
    ]
  ]
    where
      settled :
          (o : Option Detail)
          → still_mapped r d ≡ true
          → IsSound
              (elim o as (λ x. Store × Outcome) [
                | none ↦ (drop r d, load_error)
                | some v ↦
                    if ltb d.max_bytes (detail_weight v) then (drop r d, err_detail_limit) else (
                      if r.entry.volatile then drop r d else keep_value r (detail_weight v) d,
                      answer v,
                    )
              ]).0
              fewer
      settled none on = drop-IsSound d on h
      settled (some v) on =
          if_intro (λ (x : Store × Outcome). IsSound x.0 fewer) (ltb d.max_bytes (detail_weight v))
            _ _ (drop-IsSound d on h)
            (if_intro (λ x. IsSound x fewer) r.entry.volatile _ _ (drop-IsSound d on h)
              (keep_value-IsSound d (detail_weight v) on h))

-- What a step leaves alone.
pub record Same (d e : Store) : Type 0 where
  pub max_kept : e.max_bytes ≡ d.max_bytes
  pub allocated_kept : e.allocated ≡ d.allocated
  pub runs_kept : e.runs ≡ d.runs
  pub results_kept : e.results ≡ d.results

pub settle-Same : (r : Run) (loaded : Option Detail) (d : Store) → Same d (settle r loaded d).0
unfolding settle keep_value
settle-Same r none d = ground arith
settle-Same r (some v) d = record {
  max_kept = ground arith;
  allocated_kept = ground arith;
  runs_kept = ground arith;
  results_kept = ground arith;
}
