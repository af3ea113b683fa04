-- ===== src/Metadata/Stores.antt =====
-- metadata/budget.go: the map from keys to `storeBudgetHandle`s, and what its operations do to it.
use sqls.Base.{
  All, Bool-cases, List, [], arith, eqb_comm, eqb_refl, eqb_sound, false, inl, inr, none, refl,
  some, subst, true, ℕ, ◌++◌, ◌<◌, ◌∙◌, ◌∷◌, ◌≡◌,
}
use sqls.Metadata.Budget.{Key, Entry, Handle, find, remove, set_refs, same_key, fresh}

pub same_key_sound : (k j : Key) → same_key k j ≡ true → k ≡ j
same_key_sound k j e =
    cc (eqb_sound k.engine j.engine (ground arith), eqb_sound k.url j.url (ground arith))

pub same_key_refl : (k : Key) → same_key k k ≡ true
same_key_refl k = rw (eqb_refl k.engine, eqb_refl k.url) refl

pub same_key_comm : (k j : Key) → same_key k j ≡ same_key j k
same_key_comm k j = rw (eqb_comm k.engine j.engine, eqb_comm k.url j.url) refl

-- Two tests with one key's other name.
same_key-apart : (e j k : Key) → same_key e j ≡ true → same_key j k ≡ false → same_key e k ≡ false
same_key-apart e j k p q = rw (same_key_sound e j p) q

pub find-set_refs :
    (k : Key) (n : ℕ) (es : List Entry) (h : Handle)
    → find k es ≡ some h
    → find k (set_refs k n es) ≡ some (record h { refs = n })
find-set_refs k n [] h f = cc
find-set_refs k n (e ∷ es) h f = ground (arith, find-set_refs k n es h)

pub find-set_refs_other :
    (k j : Key) (n : ℕ) (es : List Entry)
    → same_key j k ≡ false
    → find k (set_refs j n es) ≡ find k es
find-set_refs_other k j n [] d = refl
find-set_refs_other k j n (e ∷ es) d =
    ground (arith, find-set_refs_other k j n es d, same_key-apart e.key j k)

find-none-set_refs :
    (k j : Key) (n : ℕ) (es : List Entry) → find k es ≡ none → find k (set_refs j n es) ≡ none
find-none-set_refs k j n [] f = refl
find-none-set_refs k j n (e ∷ es) f = ground (arith, find-none-set_refs k j n es)

find-none-remove : (k j : Key) (es : List Entry) → find k es ≡ none → find k (remove j es) ≡ none
find-none-remove k j [] f = refl
find-none-remove k j (e ∷ es) f = ground (arith, find-none-remove k j es)

pub find-remove_other :
    (k j : Key) (es : List Entry) → same_key j k ≡ false → find k (remove j es) ≡ find k es
find-remove_other k j [] d = refl
find-remove_other k j (e ∷ es) d =
    ground (arith, find-remove_other k j es d, same_key-apart e.key j k)

pub find-append :
    (k : Key) (n : ℕ) (es : List Entry)
    → find k es ≡ none
    → find k (es ++ fresh k n ∷ []) ≡ some (fresh k n).handle
find-append k n [] f = rw (same_key_refl k) refl
find-append k n (e ∷ es) f = ground (arith, find-append k n es)

pub find-append_other :
    (k j : Key) (n : ℕ) (es : List Entry)
    → same_key j k ≡ false
    → find k (es ++ fresh j n ∷ []) ≡ find k es
find-append_other k j n [] d = rw d refl
find-append_other k j n (e ∷ es) d = rw (find-append_other k j n es d) refl

-- No key stands twice, and no handle has lost all its references.
abbrev pub Once : List Entry → Type 0
Once [] = Unit
Once (e ∷ es) = (find e.key es ≡ none) × Once es

abbrev pub IsHeld : Entry → Type 0
IsHeld e = 0 < e.handle.refs

pub find-remove : (k : Key) (es : List Entry) → Once es → find k (remove k es) ≡ none
find-remove k [] o = refl
find-remove k (e ∷ es) o = elim (Bool-cases (same_key e.key k)) [
  | inl same ↦ rw same (subst (λ j. find j es ≡ none) (same_key_sound e.key k same) o.0)
  | inr other ↦ rw (other, other) (find-remove k es o.1)
]

pub find-IsHeld :
    (k : Key) (es : List Entry) (h : Handle) → All IsHeld es → find k es ≡ some h → 0 < h.refs
find-IsHeld k [] h a f = cc
find-IsHeld k (e ∷ es) h a f = elim (Bool-cases (same_key e.key k)) [
  | inl same ↦ ground (arith, a.0)
  | inr other ↦ find-IsHeld k es h a.1 (ground arith)
]

pub Once-set_refs : (k : Key) (n : ℕ) (es : List Entry) → Once es → Once (set_refs k n es)
Once-set_refs k n [] o = tt
Once-set_refs k n (e ∷ es) o = elim (Bool-cases (same_key e.key k)) [
  | inl same ↦ rw same o
  | inr other ↦ rw other (find-none-set_refs e.key k n es o.0, Once-set_refs k n es o.1)
]

pub Once-remove : (k : Key) (es : List Entry) → Once es → Once (remove k es)
Once-remove k [] o = tt
Once-remove k (e ∷ es) o = elim (Bool-cases (same_key e.key k)) [
  | inl same ↦ rw same o.1
  | inr other ↦ rw other (find-none-remove e.key k es o.0, Once-remove k es o.1)
]

pub Once-append :
    (k : Key) (n : ℕ) (es : List Entry) → find k es ≡ none → Once es → Once (es ++ fresh k n ∷ [])
Once-append k n [] f o = (refl, tt)
Once-append k n (e ∷ es) f o = (
  find-append_other e.key k n es (ground (arith, same_key_comm k e.key)) ∙ o.0,
  Once-append k n es (ground arith) o.1,
)

pub IsHeld-set_refs :
    (k : Key) (n : ℕ) (es : List Entry) → 0 < n → All IsHeld es → All IsHeld (set_refs k n es)
IsHeld-set_refs k n [] p a = tt
IsHeld-set_refs k n (e ∷ es) p a = elim (Bool-cases (same_key e.key k)) [
  | inl same ↦ rw same (p, a.1)
  | inr other ↦ rw other (a.0, IsHeld-set_refs k n es p a.1)
]

pub IsHeld-remove : (k : Key) (es : List Entry) → All IsHeld es → All IsHeld (remove k es)
IsHeld-remove k [] a = tt
IsHeld-remove k (e ∷ es) a = elim (Bool-cases (same_key e.key k)) [
  | inl same ↦ rw same a.1
  | inr other ↦ rw other (a.0, IsHeld-remove k es a.1)
]
