-- ===== src/Metadata/Details/Sizes.antt =====
-- metadata/details.go: the entries of a detail store, and the bytes that they hold.
use sqls.Base.{
  Bool-cases, List, [], arith, eqb, eqb_sound, false, if◌then◌else◌, inl, inr, ltb, none, refl,
  some, subst, ℕ, ◌&&◌, ◌+◌, ◌-◌, ◌<◌, ◌∷◌, ◌≡◌, ◌≤◌, ◌⊎◌,
}
use sqls.Metadata.Details.{Entry, find_entry, remove_entry, set_settled, evict}

-- No coverage has two entries.
abbrev pub Once : List Entry → Type 0
Once [] = Unit
Once (e ∷ es) = (find_entry e.coverage es ≡ none) × Once es

abbrev pub bytes_of : Entry → ℕ
bytes_of e = if e.settled then e.size else 0

abbrev pub settled_bytes : List Entry → ℕ
settled_bytes [] = 0
settled_bytes (e ∷ es) = bytes_of e + settled_bytes es

pub settled_bytes-remove_entry :
    (c : List ℕ) (es : List Entry) (e : Entry)
    → find_entry c es ≡ some e
    → settled_bytes (remove_entry c es) + bytes_of e ≡ settled_bytes es
settled_bytes-remove_entry c [] e f = cc
settled_bytes-remove_entry c (x ∷ es) e f = elim (Bool-cases (eqb x.coverage c)) [
  | inl same ↦ ground (arith, f)
  | inr other ↦ rw other (omega (arith, settled_bytes-remove_entry c es e (ground arith)))
]

pub settled_bytes-set_settled :
    (n : ℕ) (c : List ℕ) (es : List Entry) (e : Entry)
    → find_entry c es ≡ some e
    → settled_bytes (set_settled n c es) + bytes_of e ≡ settled_bytes es + n
settled_bytes-set_settled n c [] e f = cc
settled_bytes-set_settled n c (x ∷ es) e f = elim (Bool-cases (eqb x.coverage c)) [
  | inl same ↦ ground (arith, f)
  | inr other ↦ rw other (omega (arith, settled_bytes-set_settled n c es e (ground arith)))
]

-- What `evictLocked` leaves is counted, and fits.
evict-counted :
    (max : ℕ) (es : List Entry) (total rest : ℕ)
    → total ≡ settled_bytes es + rest
    → (evict max es total).1 ≡ settled_bytes (evict max es total).0 + rest
unfolding evict
evict-counted max [] total rest h = h
evict-counted max (e ∷ es) total rest h =
    let ih = evict-counted max es total (bytes_of e + rest) (omega arith) in
    elim (Bool-cases (ltb max (evict max es total).1 && e.settled)) [
      | inl gone ↦ rw gone (ground (arith, ih))
      | inr stays ↦ rw stays (omega (arith, ih))
    ]

evict-fits :
    (max : ℕ) (es : List Entry) (total : ℕ)
    → (settled_bytes (evict max es total).0 ≡ 0) ⊎ ((evict max es total).1 ≤ max)
unfolding evict
evict-fits max [] total = inl refl
evict-fits max (e ∷ es) total = elim (Bool-cases (ltb max (evict max es total).1 && e.settled)) [
  | inl gone ↦ rw gone (after_drop (ground arith) (evict-fits max es total))
  | inr stays ↦
      rw stays
        (after_keep (evict max es total).0 (evict max es total).1 stays (evict-fits max es total))
]
  where
    after_drop :
        max < (evict max es total).1
        → (settled_bytes (evict max es total).0 ≡ 0) ⊎ ((evict max es total).1 ≤ max)
        → (settled_bytes (evict max es total).0 ≡ 0) ⊎ ((evict max es total).1 - e.size ≤ max)
    after_drop p (inl none_left) = inl none_left
    after_drop p (inr fits) = absurd (omega arith)

    after_keep :
        (kept : List Entry) (n : ℕ)
        → (ltb max n && e.settled) ≡ false
        → (settled_bytes kept ≡ 0) ⊎ (n ≤ max)
        → (bytes_of e + settled_bytes kept ≡ 0) ⊎ (n ≤ max)
    after_keep kept n p (inr fits) = inr fits
    after_keep kept n p (inl none_left) = elim (Bool-cases e.settled) [
      | inl on ↦ inr (ground arith)
      | inr off ↦ inl (rw off (omega arith))
    ]

-- What `evictLocked` leaves is counted, and fits.
pub evict_bounds :
    (max : ℕ) (es : List Entry)
    → ((evict max es (settled_bytes es)).1 ≡ settled_bytes (evict max es (settled_bytes es)).0)
      × ((evict max es (settled_bytes es)).1 ≤ max)
evict_bounds max es =
    let counted = evict-counted max es (settled_bytes es) 0 (omega arith) in
    (omega arith, fits counted (evict-fits max es (settled_bytes es)))
  where
    fits :
        (evict max es (settled_bytes es)).1 ≡ settled_bytes (evict max es (settled_bytes es)).0 + 0
        → (settled_bytes (evict max es (settled_bytes es)).0 ≡ 0)
          ⊎ ((evict max es (settled_bytes es)).1 ≤ max)
        → (evict max es (settled_bytes es)).1 ≤ max
    fits c (inl none_left) = omega arith
    fits c (inr small) = small

find_entry-none_remove :
    (c k : List ℕ) (es : List Entry)
    → find_entry k es ≡ none
    → find_entry k (remove_entry c es) ≡ none
find_entry-none_remove c k [] f = refl
find_entry-none_remove c k (e ∷ es) f = ground (arith, find_entry-none_remove c k es)

pub Once-remove_entry : (c : List ℕ) (es : List Entry) → Once es → Once (remove_entry c es)
Once-remove_entry c [] o = tt
Once-remove_entry c (e ∷ es) o = elim (Bool-cases (eqb e.coverage c)) [
  | inl same ↦ rw same o.1
  | inr other ↦ rw other (find_entry-none_remove c e.coverage es o.0, Once-remove_entry c es o.1)
]

pub find_entry-remove_entry :
    (c : List ℕ) (es : List Entry) → Once es → find_entry c (remove_entry c es) ≡ none
find_entry-remove_entry c [] o = refl
find_entry-remove_entry c (e ∷ es) o = elim (Bool-cases (eqb e.coverage c)) [
  | inl same ↦ rw same (subst (λ k. find_entry k es ≡ none) (eqb_sound e.coverage c same) o.0)
  | inr other ↦ rw (other, other) (find_entry-remove_entry c es o.1)
]

find_entry-none_settled :
    (n : ℕ) (c k : List ℕ) (es : List Entry)
    → find_entry k es ≡ none
    → find_entry k (set_settled n c es) ≡ none
find_entry-none_settled n c k [] f = refl
find_entry-none_settled n c k (e ∷ es) f = ground (arith, find_entry-none_settled n c k es)

pub Once-set_settled : (n : ℕ) (c : List ℕ) (es : List Entry) → Once es → Once (set_settled n c es)
Once-set_settled n c [] o = tt
Once-set_settled n c (e ∷ es) o = elim (Bool-cases (eqb e.coverage c)) [
  | inl same ↦ rw same o
  | inr other ↦
      rw other (find_entry-none_settled n c e.coverage es o.0, Once-set_settled n c es o.1)
]

find_entry-none-evict :
    (max : ℕ) (k : List ℕ) (es : List Entry) (total : ℕ)
    → find_entry k es ≡ none
    → find_entry k (evict max es total).0 ≡ none
unfolding evict
find_entry-none-evict max k [] total f = refl
find_entry-none-evict max k (e ∷ es) total f = ground (arith, find_entry-none-evict max k es total)

pub Once-evict : (max : ℕ) (es : List Entry) (total : ℕ) → Once es → Once (evict max es total).0
unfolding evict
Once-evict max [] total o = tt
Once-evict max (e ∷ es) total o = elim (Bool-cases (ltb max (evict max es total).1 && e.settled)) [
  | inl gone ↦ rw gone (Once-evict max es total o.1)
  | inr stays ↦
      rw stays (find_entry-none-evict max e.coverage es total o.0, Once-evict max es total o.1)
]
