-- ===== src/Metadata/Lifetime.antt =====
-- metadata/budget.go: how long a `StoreBudget` lives under `ForStore` and `release`.
use sqls.Base.{
  Bool-cases, List, Option-cases, [], ap, arith, inl, inr, leb, none, refl, some, subst, sym, ℕ,
  ◌+◌, ◌-◌, ◌<◌, ◌↔◌, ◌∙◌, ◌∷◌, ◌≡◌,
}
use sqls.Metadata.Budget.{
  Key, Handle, Budget, find, same_key, for_store, release, new_budget, fresh,
}
use sqls.Metadata.Stores.{find-IsHeld, same_key_sound}
use sqls.Metadata.Sharing.{
  Call, IsSound, act, act-IsSound, count, find-for_store_live, find-for_store_new,
  find-for_store_other, find-release_last, find-release_live, find-release_other, for_store_call,
  outstanding, refs_in, refs_of, release-absent, release_call, run, for_store-IsSound,
  for_store-live, for_store-new,
}

refs-for_store : (k : Key) (b : Budget) → refs_of k (for_store k b).0 ≡ refs_of k b + 1
refs-for_store k b = elim (Option-cases (find k b.stores)) [
  | inl e ↦ rw (find-for_store_new k b e, e) refl
  | inr (h, e) ↦ rw (find-for_store_live k b h e, e) refl
]

refs-release : (k : Key) (b : Budget) → IsSound b → refs_of k (release k b) ≡ refs_of k b - 1
refs-release k b s = elim (Option-cases (find k b.stores)) [
  | inl e ↦ rw (release-absent k b e, e) refl
  | inr (h, e) ↦ elim (Bool-cases (leb (h.refs - 1) 0)) [
    | inl last ↦ rw (find-release_last k b h s e last, e) (ground arith)
    | inr more ↦ rw (find-release_live k b h e more, e) refl
  ]
]

pub refs-act :
    (k : Key) (c : Call) (b : Budget) → IsSound b → refs_of k (act c b) ≡ count k c (refs_of k b)
unfolding act
refs-act k (for_store_call j) b s = elim (Bool-cases (same_key j k)) [
  | inl same ↦ rw (same, same_key_sound j k same) (refs-for_store k b)
  | inr other ↦ rw (other, find-for_store_other j k b other) refl
]
refs-act k (release_call j) b s = elim (Bool-cases (same_key j k)) [
  | inl same ↦ rw (same, same_key_sound j k same) (refs-release k b s)
  | inr other ↦ rw (other, find-release_other j k b other) refl
]

refs-run :
    (k : Key) (cs : List Call) (b : Budget)
    → IsSound b
    → refs_of k (run cs b) ≡ outstanding k (refs_of k b) cs
refs-run k [] b s = refl
refs-run k (c ∷ cs) b s =
    refs-run k cs (act c b) (act-IsSound c b s) ∙ ap (λ n. outstanding k n cs) (refs-act k c b s)

run-IsSound : (cs : List Call) (b : Budget) → IsSound b → IsSound (run cs b)
run-IsSound [] b s = s
run-IsSound (c ∷ cs) b s = run-IsSound cs (act c b) (act-IsSound c b s)

pub new_budget-IsSound : (host per_store : ℕ) → IsSound (new_budget host per_store)
unfolding new_budget
new_budget-IsSound host per_store = record { once = tt; held = tt }

-- After any sequence of `ForStore` and `release` on a new budget, the count of references of each
-- key is the number that the calls leave outstanding, and the key has no entry exactly when that is
-- 0.
pub run-outstanding :
    (host per_store : ℕ) (cs : List Call) (k : Key)
    → (refs_of k (run cs (new_budget host per_store)) ≡ outstanding k 0 cs)
      × ((find k (run cs (new_budget host per_store)).stores ≡ none) ↔ (outstanding k 0 cs ≡ 0))
unfolding new_budget
run-outstanding host per_store cs k =
    let b = run cs (new_budget host per_store) in
    let s = run-IsSound cs (new_budget host per_store) (new_budget-IsSound host per_store) in
    let r = refs-run k cs (new_budget host per_store) (new_budget-IsSound host per_store) in
    (
      r,
      (
        λ e. sym r ∙ ap refs_in e,
        λ z. elim (Option-cases (find k b.stores)) [
          | inl e ↦ e
          | inr (h, e) ↦
              absurd (omega (arith, find-IsHeld k b.stores h s.held e, ap refs_in e, r, z))
        ],
      ),
    )

-- A reference to the key is outstanding before each call and after the last.
abbrev pub StaysLive : Key → ℕ → List Call → Type 0
StaysLive k n [] = 0 < n
StaysLive k n (c ∷ cs) = (0 < n) × StaysLive k (count k c n) cs

-- The `StoreBudget` of a key that has an entry before and after a call.
act-keeps :
    (k : Key) (c : Call) (b : Budget) (h : Handle)
    → IsSound b
    → find k b.stores ≡ some h
    → 0 < refs_of k (act c b)
    → (g : Handle) × (find k (act c b).stores ≡ some g) × (g.budget ≡ h.budget)
unfolding act
act-keeps k (for_store_call j) b h s e p = elim (Bool-cases (same_key j k)) [
  | inl same ↦
      rw (same_key_sound j k same)
        (record h { refs = h.refs + 1 }, find-for_store_live k b h e, refl)
  | inr other ↦ (h, find-for_store_other j k b other ∙ e, refl)
]
act-keeps k (release_call j) b h s e p = elim (Bool-cases (same_key j k)) [
  | inr other ↦ (h, find-release_other j k b other ∙ e, refl)
  | inl same ↦ elim (Bool-cases (leb (h.refs - 1) 0)) [
    | inl last ↦ absurd (ground (arith, p, refs-act k (release_call j) b s, ap refs_in e))
    | inr more ↦
        rw (same_key_sound j k same)
          (record h { refs = h.refs - 1 }, find-release_live k b h e more, refl)
  ]
]

StaysLive-positive : (k : Key) (n : ℕ) (cs : List Call) → StaysLive k n cs → 0 < n
StaysLive-positive k n [] l = l
StaysLive-positive k n (c ∷ cs) l = l.0

run-keeps :
    (k : Key) (cs : List Call) (b : Budget) (h : Handle)
    → IsSound b
    → find k b.stores ≡ some h
    → StaysLive k (refs_of k b) cs
    → (g : Handle) × (find k (run cs b).stores ≡ some g) × (g.budget ≡ h.budget)
run-keeps k [] b h s e l = (h, e, refl)
run-keeps k (c ∷ cs) b h s e l =
    let l' = subst (λ n. StaysLive k n cs) (sym (refs-act k c b s)) l.1 in
    let (g, eg, same) = act-keeps k c b h s e (StaysLive-positive k _ cs l') in
    let (f, ef, also) = run-keeps k cs (act c b) g (act-IsSound c b s) eg l' in (f, ef, also ∙ same)

for_store-gives :
    (k : Key) (b : Budget)
    → (h : Handle) × (find k (for_store k b).0.stores ≡ some h) × (h.budget ≡ (for_store k b).1)
for_store-gives k b = elim (Option-cases (find k b.stores)) [
  | inl e ↦ ((fresh k b.allocated).handle, find-for_store_new k b e, rw (for_store-new k b e) refl)
  | inr (h, e) ↦ (
    record h { refs = h.refs + 1 },
    find-for_store_live k b h e,
    rw (for_store-live k b h e) refl,
  )
]

-- While a reference to a key is outstanding that a `ForStore` gave, the next `ForStore` of the key
-- gives the same `StoreBudget`, whatever calls lie between.
pub for_store-shared :
    (host per_store : ℕ) (before between : List Call) (k : Key)
    → StaysLive k (outstanding k 0 before + 1) between
    → (for_store k (run between (for_store k (run before (new_budget host per_store))).0)).1
      ≡ (for_store k (run before (new_budget host per_store))).1
for_store-shared host per_store before between k l =
    let start = new_budget host per_store in
    let ok = new_budget-IsSound host per_store in
    let b = run before start in
    let s = for_store-IsSound k b (run-IsSound before start ok) in
    let n = refs-for_store k b ∙ ap (λ m. m + 1) ((run-outstanding host per_store before k).0) in
    let (h, e, same) = for_store-gives k b in
    let (g, f, kept) =
      run-keeps k between (for_store k b).0 h s e (subst (λ m. StaysLive k m between) (sym n) l) in
    ap (λ r. r.1) (for_store-live k (run between (for_store k b).0) g f) ∙ kept ∙ same
