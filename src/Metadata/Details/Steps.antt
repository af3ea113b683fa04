-- ===== src/Metadata/Details/Steps.antt =====
-- metadata/details.go: what holds of a detail store after any sequence of calls and ends of loads.
use sqls.Base.{
  All, All-mono, Bool, Bool-cases, List, Option, [], ap, arith, eqb, eqb_sound, false, if_intro,
  if◌then◌else◌, inl, inr, ltb, none, not, refl, some, subst, sym, ℕ, ◌++◌, ◌+◌, ◌==◌, ◌∙◌, ◌∷◌,
  ◌≡◌, ◌≤◌,
}
use sqls.Metadata.Details.{
  Entry, Run, Store, Detail, find_entry, acquire, begin_generation, clear, mark_stale, finish_run,
  Reach, Step, acquired, generation_begun, here, marked_stale, new_detail_store, next, run_finished,
  start_load, touch, default_max_detail_bytes,
}
use sqls.Metadata.Details.Sizes.{
  settled_bytes-remove_entry, Once-remove_entry, find_entry-remove_entry, Once, settled_bytes,
}
use sqls.Metadata.Details.Flights.{
  Tracks, count_runs, count_results, All-find_entry, All-remove_entry, count_runs-middle,
}
use sqls.Metadata.Details.Bounded.{IsSound, settle-IsSound, settle-Same}

pub record Holds (d : Store) : Type 0 where
  pub sound : IsSound d d.runs
  -- Every load that was started is in flight or has been answered once.
  pub once_each :
      (i : ℕ)
      → count_runs i d.runs + count_results i d.results ≡ (if ltb i d.allocated then 1 else 0)

clear-Holds : (d : Store) → Holds d → Holds (clear d)
unfolding clear
clear-Holds d h = record {
  sound = record { counted = refl; fits = omega arith; once = tt; tracks = tt };
  once_each = h.once_each;
}

begin_generation-Holds : (g : ℕ) (d : Store) → Holds d → Holds (begin_generation g d)
unfolding begin_generation clear
begin_generation-Holds g d h = record {
  sound = record { counted = refl; fits = omega arith; once = tt; tracks = tt };
  once_each = h.once_each;
}

mark_stale-Holds : (d : Store) → Holds d → Holds (mark_stale d)
unfolding mark_stale clear
mark_stale-Holds d h = record {
  sound = record { counted = refl; fits = omega arith; once = tt; tracks = tt };
  once_each = h.once_each;
}

find_entry-coverage :
    (c : List ℕ) (es : List Entry) (e : Entry) → find_entry c es ≡ some e → e.coverage ≡ c
find_entry-coverage c [] e f = cc
find_entry-coverage c (x ∷ es) e f = elim (Bool-cases (eqb x.coverage c)) [
  | inl same ↦
      subst (λ (y : Entry). y.coverage ≡ c) {x = x} {y = e} (ground (arith, f))
        (eqb_sound x.coverage c same)
  | inr other ↦ find_entry-coverage c es e (ground (arith, f))
]

-- An entry that is used again moves to the front.
touch-Holds :
    (d : Store) (c : List ℕ) (e : Entry)
    → find_entry c d.entries ≡ some e
    → Holds d
    → Holds (touch e d)
unfolding touch
touch-Holds d c e f h =
    let g : find_entry e.coverage d.entries ≡ some e =
      subst (λ k. find_entry k d.entries ≡ some e) (sym (find_entry-coverage c d.entries e f)) f in
    record {
      sound = record {
        counted =
            omega (arith, h.sound.counted, settled_bytes-remove_entry e.coverage d.entries e g);
        fits = h.sound.fits;
        once = (
          find_entry-remove_entry e.coverage d.entries h.sound.once,
          Once-remove_entry e.coverage d.entries h.sound.once,
        );
        tracks = (
          All-find_entry _ e.coverage d.entries e g h.sound.tracks,
          All-remove_entry _ e.coverage d.entries h.sound.tracks,
        );
      };
      once_each = h.once_each;
    }

-- A load whose number is not yet in use.
unused :
    (i : ℕ) (c : List ℕ) (rs : List Run)
    → count_runs i rs ≡ 0
    → All (λ (r : Run). i ≡ r.entry.id → c ≡ r.entry.coverage) rs
unused i c [] h = tt
unused i c (r ∷ rs) h = ((λ p. absurd (ground arith)), unused i c rs (ground arith))

Tracks-started :
    (d : Store) (r : Run) (e : Entry)
    → r.entry.id ≡ d.allocated
    → Tracks d.allocated d.runs e
    → Tracks (d.allocated + 1) (r ∷ d.runs) e
Tracks-started d r e p t = record {
  made = omega (arith, t.made);
  flying = ground (arith, p, t.made, t.flying);
  agrees = ((λ q. absurd (omega (arith, t.made, p, q))), t.agrees);
}

start_load-Holds :
    (d : Store) (g : ℕ) (c : List ℕ) (v : Bool)
    → find_entry c d.entries ≡ none
    → Holds d
    → Holds (start_load g c v d)
unfolding start_load
start_load-Holds d g c v f h =
    let e : Entry = record {
      id = d.allocated;
      coverage = c;
      volatile = v;
      size = 0;
      settled = false;
    } in
    let r : Run = record { entry = e; generation = g } in
    let zero_runs : count_runs d.allocated d.runs ≡ 0 = ground (arith, h.once_each d.allocated) in
    record {
      sound = record {
        counted = omega (arith, h.sound.counted);
        fits = h.sound.fits;
        once = (f, h.sound.once);
        tracks = (
          record {
            made = omega arith;
            flying = ground (arith, zero_runs);
            agrees = ((λ q. refl), unused d.allocated c d.runs zero_runs);
          },
          All-mono _ _ d.entries (λ x t. Tracks-started d r x refl t) h.sound.tracks,
        );
      };
      once_each = λ i. ground (arith, h.once_each i);
    }

acquire-Holds : (g : ℕ) (c : List ℕ) (v : Bool) (d : Store) → Holds d → Holds (acquire g c v d).0
unfolding acquire
acquire-Holds g c v d h =
    if_intro (λ (x : Store × Option ℕ). Holds x.0) d.stale _ _ h
      (if_intro (λ (x : Store × Option ℕ). Holds x.0) (not (g == d.generation)) _ _ h
        (found (find_entry c d.entries) refl))
  where
    found :
        (o : Option Entry)
        → find_entry c d.entries ≡ o
        → Holds
            (elim o as (λ x. Store × Option ℕ) [
              | some e ↦ (touch e d, some e.id)
              | none ↦ (start_load g c v d, some d.allocated)
            ]).0
    found none e = start_load-Holds d g c v e h
    found (some x) e = touch-Holds d c x e h

finish_run-Holds :
    (front back : List Run) (r : Run) (loaded : Option Detail) (d : Store)
    → d.runs ≡ front ++ r ∷ back
    → Holds d
    → Holds (finish_run front r back loaded d)
unfolding finish_run
finish_run-Holds front back r loaded d e h =
    let s = settle-IsSound front r back loaded d (subst (IsSound d) e h.sound) in
    let k = settle-Same r loaded d in
    record {
      sound = record { counted = s.counted; fits = s.fits; once = s.once; tracks = s.tracks };
      once_each = λ i.
          rw (k.results_kept, k.allocated_kept)
            (ground (arith, h.once_each i, ap (count_runs i) e, count_runs-middle i front r back));
    }

Step-Holds : {d e : Store} → Step d e → Holds d → Holds e
Step-Holds {d} {e} (generation_begun g p) h = rw p (begin_generation-Holds g d h)
Step-Holds {d} {e} (marked_stale p) h = rw p (mark_stale-Holds d h)
Step-Holds {d} {e} (acquired g c v p) h = rw p (acquire-Holds g c v d h)
Step-Holds {d} {e} (run_finished front back r loaded q p) h =
    rw p (finish_run-Holds front back r loaded d q h)

new_detail_store-Holds : (m : ℕ) → Holds (new_detail_store m)
unfolding new_detail_store begin_generation clear
new_detail_store-Holds m = record {
  sound = record { counted = refl; fits = omega arith; once = tt; tracks = tt };
  once_each = λ i. ground arith;
}

Reach-Holds : (m : ℕ) {d : Store} → Reach (new_detail_store m) d → Holds d
Reach-Holds m here = new_detail_store-Holds m
Reach-Holds m (next r s) = Step-Holds s (Reach-Holds m r)

Step-max_bytes : {d e : Store} → Step d e → e.max_bytes ≡ d.max_bytes
unfolding begin_generation clear mark_stale acquire touch start_load finish_run
Step-max_bytes {d} {e} (generation_begun g p) = ground arith
Step-max_bytes {d} {e} (marked_stale p) = ground arith
Step-max_bytes {d} {e} (acquired g c v p) = ground arith
Step-max_bytes {d} {e} (run_finished front back r loaded q p) =
    rw p ((settle-Same r loaded d).max_kept)

Reach-max_bytes :
    (m : ℕ) {d : Store}
    → Reach (new_detail_store m) d
    → d.max_bytes ≡ (if m == 0 then default_max_detail_bytes else m)
unfolding new_detail_store begin_generation clear
Reach-max_bytes m here = refl
Reach-max_bytes m (next r s) = Step-max_bytes s ∙ Reach-max_bytes m r

-- After any sequence of calls and ends of loads on a new detail store: the bytes it counts are
-- those of its settled entries, they are at most its limit, 64 MiB where it is made with 0, and no
-- coverage has two entries.
pub Reach-bounds :
    (m : ℕ) {d : Store}
    → Reach (new_detail_store m) d
    → (d.total_bytes ≡ settled_bytes d.entries)
      × (d.total_bytes ≤ (if m == 0 then default_max_detail_bytes else m))
      × Once d.entries
Reach-bounds m r =
    let h = Reach-Holds m r in
    (h.sound.counted, rw (← Reach-max_bytes m r) h.sound.fits, h.sound.once)

-- An entry without a value has its one load in flight; with one it has none.
abbrev pub IsLoading : Store → Entry → Type 0
IsLoading d e = count_runs e.id d.runs ≡ (if e.settled then 0 else 1)

-- After any sequence of calls and ends of loads on a new detail store: every load that was started
-- is either in flight or its waiters have been answered exactly once, and an entry of the store is
-- in flight exactly while it has no value.
pub Reach-once_each :
    (m : ℕ) {d : Store}
    → Reach (new_detail_store m) d
    → ((i : ℕ)
        → count_runs i d.runs + count_results i d.results ≡ (if ltb i d.allocated then 1 else 0))
      × All (IsLoading d) d.entries
Reach-once_each m {d} r =
    let h = Reach-Holds m r in
    (h.once_each, All-mono _ _ d.entries (λ e t. t.flying) h.sound.tracks)
