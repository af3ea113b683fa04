-- ===== src/Tests/Sharing.antt =====
-- metadata/budget.go: calls of `ForStore` and `release` for two keys, and the results at that run.
use sqls.Base.{List, String, [], arith, codes, none, refl, ◌↔◌, ◌∷◌, ◌≡◌}
use sqls.Metadata.Budget.{Key, find, for_store, release, new_budget}
use sqls.Metadata.Sharing.{Call, act, for_store_call, refs_of, release_call, run, outstanding}
use sqls.Metadata.Lifetime.{run-outstanding, for_store-shared}

abbrev key : String → Key
key url = record { engine = codes "postgresql"; url = codes url }

-- The first key is opened twice, and closed once.
abbrev before : List Call
before = for_store_call (key "a") ∷ for_store_call (key "b") ∷ []

abbrev between : List Call
between =
    for_store_call (key "a")
    ∷ release_call (key "b")
    ∷ release_call (key "a")
    ∷ release_call (key "b")
    ∷ []

run-outstanding_example :
    (refs_of (key "a") (run between (new_budget 0 0)) ≡ 0)
    × ((find (key "a") (run between (new_budget 0 0)).stores ≡ none)
        ↔ (outstanding (key "a") 0 between ≡ 0))
run-outstanding_example = run-outstanding 0 0 between (key "a")

for_store-shared_example :
    (for_store (key "a") (run between (for_store (key "a") (run before (new_budget 6 3))).0)).1
    ≡ (for_store (key "a") (run before (new_budget 6 3))).1
for_store-shared_example =
    for_store-shared 6 3 before between (key "a")
      (omega arith, (omega arith, (omega arith, (omega arith, omega arith))))

-- A key whose last reference is released gets a new `StoreBudget`.
fresh_again : (for_store (key "b") (run between (run before (new_budget 6 3)))).1 ≡ 2
unfolding for_store release new_budget act
fresh_again = refl
