-- ===== src/Tests/Details.antt =====
-- metadata/details.go: three loads in a store of ten bytes, and the results at that run.
use sqls.Base.{
  All, String, [], codes, false, if◌then◌else◌, ltb, map, refl, some, ℕ, ◌+◌, ◌==◌, ◌∷◌, ◌≡◌, ◌≤◌,
}
use sqls.Metadata.Details.{
  Store, Detail, Reach, new_detail_store, Run, acquire, acquired, begin_generation, clear,
  default_max_detail_bytes, evict, finish_run, here, keep_value, next, run_finished, settle,
  start_load, still_mapped, touch,
}
use sqls.Metadata.Details.Sizes.{settled_bytes, Once}
use sqls.Metadata.Details.Flights.{count_runs, count_results}
use sqls.Metadata.Details.Steps.{Reach-bounds, Reach-once_each, IsLoading}

abbrev detail : String → Detail
detail s = record { text = codes s; provenance = []; body = [] }

-- Two callers ask for the first coverage, one for the second.
abbrev asked : Store
asked =
    (acquire 1 (codes "b") false
      (acquire 1 (codes "a") false (acquire 1 (codes "a") false (new_detail_store 10)).0).0).0

abbrev run_a : Run
run_a = record {
  entry = record { id = 0; coverage = codes "a"; volatile = false; size = 0; settled = false };
  generation = 1;
}

abbrev run_b : Run
run_b = record {
  entry = record { id = 1; coverage = codes "b"; volatile = false; size = 0; settled = false };
  generation = 1;
}

abbrev loaded : Store
loaded =
    finish_run [] run_b [] (some (detail "1234567"))
      (finish_run (run_b ∷ []) run_a [] (some (detail "123456")) asked)

-- The first value is the least recently used one and is evicted.
coverages-loaded : map (λ e. e.coverage) loaded.entries ≡ codes "b" ∷ []
unfolding acquire touch start_load new_detail_store begin_generation clear finish_run settle
    still_mapped keep_value evict
coverages-loaded = refl

Reach-loaded : Reach (new_detail_store 10) loaded
unfolding acquire touch start_load new_detail_store begin_generation clear finish_run settle
    still_mapped keep_value evict
Reach-loaded =
    next
      (next
        (next
          (next (next here (acquired 1 (codes "a") false refl)) (acquired 1 (codes "a") false refl))
          (acquired 1 (codes "b") false refl))
        (run_finished (run_b ∷ []) [] run_a (some (detail "123456")) refl refl))
      (run_finished [] [] run_b (some (detail "1234567")) refl refl)

Reach-bounds_example :
    (loaded.total_bytes ≡ settled_bytes loaded.entries)
    × (loaded.total_bytes ≤ (if 10 == 0 then default_max_detail_bytes else 10))
    × Once loaded.entries
Reach-bounds_example = Reach-bounds 10 Reach-loaded

Reach-once_each_example :
    ((i : ℕ)
      → count_runs i loaded.runs + count_results i loaded.results
        ≡ (if ltb i loaded.allocated then 1 else 0))
    × All (IsLoading loaded) loaded.entries
Reach-once_each_example = Reach-once_each 10 Reach-loaded
