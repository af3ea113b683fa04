-- ===== src/Metadata/Sharing.antt =====
-- metadata/budget.go: sequences of `ForStore` and `release` on a new budget.
use sqls.Base.{
  All, All-append, Bool-cases, List, Option, Option-cases, [], arith, false, if◌then◌else◌, inl,
  inr, leb, none, refl, some, true, ℕ, ◌++◌, ◌+◌, ◌-◌, ◌∷◌, ◌≡◌,
}
use sqls.Metadata.Budget.{
  Key, Handle, Budget, find, same_key, fresh, for_store, release, remove, set_refs,
}
use sqls.Metadata.Stores.{
  IsHeld, Once, IsHeld-remove, IsHeld-set_refs, Once-append, Once-remove, Once-set_refs,
  find-append, find-append_other, find-remove, find-remove_other, find-set_refs,
  find-set_refs_other,
}

pub data Call : Type 0 where
  for_store_call release_call : Key → Call

unfoldable pub act : Call → Budget → Budget
act (for_store_call k) b = (for_store k b).0
act (release_call k) b = release k b

abbrev pub run : List Call → Budget → Budget
run [] b = b
run (c ∷ cs) b = run cs (act c b)

-- The references to a key that are outstanding after a call.
abbrev pub count : Key → Call → ℕ → ℕ
count k (for_store_call j) n = if same_key j k then n + 1 else n
count k (release_call j) n = if same_key j k then n - 1 else n

abbrev pub outstanding : Key → ℕ → List Call → ℕ
outstanding k n [] = n
outstanding k n (c ∷ cs) = outstanding k (count k c n) cs

abbrev pub refs_in : Option Handle → ℕ
refs_in none = 0
refs_in (some h) = h.refs

abbrev pub refs_of : Key → Budget → ℕ
refs_of k b = refs_in (find k b.stores)

pub record IsSound (b : Budget) : Type 0 where
  pub once : Once b.stores
  pub held : All IsHeld b.stores

-- The results of each operation.
pub for_store-new :
    (k : Key) (b : Budget)
    → find k b.stores ≡ none
    → for_store k b ≡ (
      record b { stores = b.stores ++ fresh k b.allocated ∷ []; allocated = b.allocated + 1 },
      b.allocated,
    )
unfolding for_store
for_store-new k b e = rw (for_store, e) refl

pub for_store-live :
    (k : Key) (b : Budget) (h : Handle)
    → find k b.stores ≡ some h
    → for_store k b ≡ (record b { stores = set_refs k (h.refs + 1) b.stores }, h.budget)
unfolding for_store
for_store-live k b h e = rw (for_store, e) refl

pub release-absent : (k : Key) (b : Budget) → find k b.stores ≡ none → release k b ≡ b
unfolding release
release-absent k b e = rw (release, e) refl

release-last :
    (k : Key) (b : Budget) (h : Handle)
    → find k b.stores ≡ some h
    → leb (h.refs - 1) 0 ≡ true
    → release k b ≡ record b { stores = remove k b.stores }
unfolding release
release-last k b h e last = rw (release, e, last) refl

release-live :
    (k : Key) (b : Budget) (h : Handle)
    → find k b.stores ≡ some h
    → leb (h.refs - 1) 0 ≡ false
    → release k b ≡ record b { stores = set_refs k (h.refs - 1) b.stores }
unfolding release
release-live k b h e more = rw (release, e, more) refl

pub for_store-IsSound : (k : Key) (b : Budget) → IsSound b → IsSound (for_store k b).0
for_store-IsSound k b s = elim (Option-cases (find k b.stores)) [
  | inl e ↦ rw (for_store-new k b e) (record {
    once = Once-append k b.allocated b.stores e s.once;
    held = All-append _ b.stores (fresh k b.allocated ∷ []) s.held (omega arith, tt);
  })
  | inr (h, e) ↦ rw (for_store-live k b h e) (record {
    once = Once-set_refs k (h.refs + 1) b.stores s.once;
    held = IsHeld-set_refs k (h.refs + 1) b.stores (omega arith) s.held;
  })
]

release-IsSound : (k : Key) (b : Budget) → IsSound b → IsSound (release k b)
release-IsSound k b s = elim (Option-cases (find k b.stores)) [
  | inl e ↦ rw (release-absent k b e) s
  | inr (h, e) ↦ elim (Bool-cases (leb (h.refs - 1) 0)) [
    | inl last ↦
        rw (release-last k b h e last)
          (record { once = Once-remove k b.stores s.once; held = IsHeld-remove k b.stores s.held })
    | inr more ↦ rw (release-live k b h e more) (record {
      once = Once-set_refs k (h.refs - 1) b.stores s.once;
      held = IsHeld-set_refs k (h.refs - 1) b.stores (ground arith) s.held;
    })
  ]
]

pub act-IsSound : (c : Call) (b : Budget) → IsSound b → IsSound (act c b)
unfolding act
act-IsSound (for_store_call k) b s = for_store-IsSound k b s
act-IsSound (release_call k) b s = release-IsSound k b s

pub find-for_store_other :
    (j k : Key) (b : Budget)
    → same_key j k ≡ false
    → find k (for_store j b).0.stores ≡ find k b.stores
find-for_store_other j k b d = elim (Option-cases (find j b.stores)) [
  | inl e ↦ rw (for_store-new j b e) (find-append_other k j b.allocated b.stores d)
  | inr (h, e) ↦ rw (for_store-live j b h e) (find-set_refs_other k j (h.refs + 1) b.stores d)
]

pub find-release_other :
    (j k : Key) (b : Budget) → same_key j k ≡ false → find k (release j b).stores ≡ find k b.stores
find-release_other j k b d = elim (Option-cases (find j b.stores)) [
  | inl e ↦ rw (release-absent j b e) refl
  | inr (h, e) ↦ elim (Bool-cases (leb (h.refs - 1) 0)) [
    | inl last ↦ rw (release-last j b h e last) (find-remove_other k j b.stores d)
    | inr more ↦ rw (release-live j b h e more) (find-set_refs_other k j (h.refs - 1) b.stores d)
  ]
]

-- What the store's own calls do to its handle.
pub find-for_store_new :
    (k : Key) (b : Budget)
    → find k b.stores ≡ none
    → find k (for_store k b).0.stores ≡ some (fresh k b.allocated).handle
find-for_store_new k b e = rw (for_store-new k b e) (find-append k b.allocated b.stores e)

pub find-for_store_live :
    (k : Key) (b : Budget) (h : Handle)
    → find k b.stores ≡ some h
    → find k (for_store k b).0.stores ≡ some (record h { refs = h.refs + 1 })
find-for_store_live k b h e =
    rw (for_store-live k b h e) (find-set_refs k (h.refs + 1) b.stores h e)

pub find-release_last :
    (k : Key) (b : Budget) (h : Handle)
    → IsSound b
    → find k b.stores ≡ some h
    → leb (h.refs - 1) 0 ≡ true
    → find k (release k b).stores ≡ none
find-release_last k b h s e last = rw (release-last k b h e last) (find-remove k b.stores s.once)

pub find-release_live :
    (k : Key) (b : Budget) (h : Handle)
    → find k b.stores ≡ some h
    → leb (h.refs - 1) 0 ≡ false
    → find k (release k b).stores ≡ some (record h { refs = h.refs - 1 })
find-release_live k b h e more =
    rw (release-live k b h e more) (find-set_refs k (h.refs - 1) b.stores h e)
