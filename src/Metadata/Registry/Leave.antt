-- ===== src/Metadata/Registry/Leave.antt =====
-- metadata/registry.go: a track leaves its entry.
use sqls.Base.{
  ==_iff, Bool, Bool-cases, List, ap, false, if◌then◌else◌, inl, inr, refl, some, subst, sym, true,
  within, ℕ, ◌<◌, ◌==◌, ◌∙◌, ◌≡◌, ◌≤◌,
}
use sqls.Metadata.Budget.{Key}
use sqls.Metadata.Registry.{
  Registry, has, leave_entry, RegistryEntry, Scope, find_entry, find_track, is_pointer, set_at,
  Track, delete_track, same_scope,
}
use sqls.Metadata.Registry.Maps.{
  find_track-delete_other, find_track-delete_same, same_scope_refl, same_scope_sound,
}
use sqls.Metadata.Registry.Tracks.{set_at-same, set_at-other, equal_self}
use sqls.Metadata.Registry.Holds.{Holds, IsMapped, IsOpen, IsListed}
use sqls.Metadata.Registry.Retire.{false_if}

-- The tracks of an entry that a track leaves.

abbrev left : ℕ → Scope → List (Scope × ℕ) → List (Scope × ℕ)
left t c ts = if is_pointer (find_track c ts) t then delete_track c ts else ts

find_track-left :
    (t u : ℕ) (c d : Scope) (ts : List (Scope × ℕ))
    → (u == t) ≡ false
    → find_track d ts ≡ some u
    → find_track d (left t c ts) ≡ some u
find_track-left t u c d ts other f = elim (Bool-cases (is_pointer (find_track c ts) t)) [
  | inr kept ↦ rw kept f
  | inl gone ↦ rw gone (
      find_track-delete_other c d ts (
        false_if (same_scope c d) (λ same. cc (
          subst (λ o. is_pointer o t ≡ true)
              (ap (λ x. find_track x ts) (same_scope_sound c d same) ∙ f) gone,
          other,
        )))
      ∙ f)
]

left-find_track :
    (t u : ℕ) (c d : Scope) (ts : List (Scope × ℕ))
    → find_track d (left t c ts) ≡ some u
    → (find_track d ts ≡ some u) × (u ≡ t → c ≡ d → ⊥)
left-find_track t u c d ts f = elim (Bool-cases (is_pointer (find_track c ts) t)) [
  | inr kept ↦
      let g =
        subst (λ (b : Bool). find_track d (if b then delete_track c ts else ts) ≡ some u) kept f in
      (
        g,
        (λ p q. cc (
          subst (λ o. is_pointer o t ≡ false) (ap (λ x. find_track x ts) q ∙ g ∙ ap some p) kept,
          equal_self t,
        )),
      )
  | inl gone ↦
      let g =
        subst (λ (b : Bool). find_track d (if b then delete_track c ts else ts) ≡ some u) gone f in
      let apart : same_scope c d ≡ false = false_if (same_scope c d) (λ same. cc (
        ap (λ x. find_track x (delete_track c ts)) (sym (same_scope_sound c d same))
            ∙ find_track-delete_same c ts,
        g,
      )) in
      (
        sym (find_track-delete_other c d ts apart) ∙ g,
        (λ p q. cc (subst (λ x. same_scope c x ≡ true) q (same_scope_refl c), apart)),
      )
]

abbrev shut : Track → Track
shut k = record k { closed = true }

abbrev without : ℕ → Scope → RegistryEntry → RegistryEntry
without t c e = record e { tracks = left t c e.tracks }

module _ (r : Registry) (t : ℕ) (l : t < r.allocated) (h : Holds r) where
  leave_entry-opens :
      (u : ℕ)
      → u < r.allocated
      → (set_at t (shut (r.track_at t)) r.track_at u).closed ≡ false
      → IsOpen r.entries r.live_tracks
          (set_at t (shut (r.track_at t)) r.track_at u)
          (set_at
            (r.track_at t).entry
            (without t (r.track_at t).scope (r.entry_at (r.track_at t).entry))
            r.entry_at
            (set_at t (shut (r.track_at t)) r.track_at u).entry)
          u
  unfolding leave_entry
  leave_entry-opens u m o =
      let other : (u == t) ≡ false = false_if (u == t) (λ same. cc (
        ap (λ (k : Track). k.closed) (set_at-same t u (shut (r.track_at t)) r.track_at same),
        o,
      )) in
      let i =
        h.opens u m
          (subst (λ (k : Track). k.closed ≡ false) (set_at-other t u _ r.track_at other) o) in
      rw other (elim (Bool-cases ((r.track_at u).entry == (r.track_at t).entry)) [
        | inr apart ↦ rw apart i
        | inl within ↦
            let j =
              subst (λ x. IsOpen r.entries r.live_tracks (r.track_at u) (r.entry_at x) u)
                ((==_iff _ _).0 within) i in
            rw within (record {
              placed = j.placed;
              listed =
                  find_track-left t u (r.track_at t).scope (r.track_at u).scope _ other j.listed;
              lives = j.lives;
            })
      ])

  leave_entry-lists :
      (q u : ℕ) (c : Scope)
      → find_track c
          (set_at
            (r.track_at t).entry
            (without t (r.track_at t).scope (r.entry_at (r.track_at t).entry))
            r.entry_at
            q).tracks
        ≡ some u
      → IsListed r.allocated (set_at t (shut (r.track_at t)) r.track_at u) q c u
  unfolding leave_entry
  leave_entry-lists q u c f = elim (Bool-cases (q == (r.track_at t).entry)) [
    | inr apart ↦
        let i = h.lists q u c (
          subst (λ (e : RegistryEntry). find_track c e.tracks ≡ some u)
            (set_at-other _ q _ r.entry_at apart) f) in
        rw
          (false_if (u == t) (λ same. cc (
            subst (λ x. (q == (r.track_at x).entry) ≡ false) (sym ((==_iff u t).0 same)) apart,
            (==_iff q _).1 (sym i.of_entry),
          )))
          i
    | inl within ↦
        let (g, away) = left-find_track t u (r.track_at t).scope c _ (
          subst (λ (e : RegistryEntry). find_track c e.tracks ≡ some u)
            (set_at-same _ q _ r.entry_at within) f) in
        let i = h.lists q u c (
          subst (λ x. find_track c (r.entry_at x).tracks ≡ some u) (sym ((==_iff q _).0 within))
            g) in
        rw
          (false_if (u == t) (λ same.
            away ((==_iff u t).0 same)
              (subst (λ x. (r.track_at x).scope ≡ c) ((==_iff u t).0 same) i.of_scope)))
          i
  ]

  leave_entry-maps :
      (j : Key) (q : ℕ)
      → find_entry j r.entries ≡ some q
      → IsMapped r.incarnation_seq
          (set_at
            (r.track_at t).entry
            (without t (r.track_at t).scope (r.entry_at (r.track_at t).entry))
            r.entry_at
            q)
          j
          q
  unfolding leave_entry
  leave_entry-maps j q f = elim (Bool-cases (q == (r.track_at t).entry)) [
    | inr apart ↦ rw apart (h.maps j q f)
    | inl within ↦
        let m =
          subst (λ x. IsMapped r.incarnation_seq (r.entry_at x) j q) ((==_iff q _).0 within)
            (h.maps j q f) in
        rw within (record { of_key = m.of_key; issued = m.issued; in_use = m.in_use })
  ]

  leave_entry-made :
      (u : ℕ)
      → u < r.allocated
      → (set_at t (shut (r.track_at t)) r.track_at u).entry ≤ r.incarnation_seq
  unfolding leave_entry
  leave_entry-made u m = elim (Bool-cases (u == t)) [
    | inl same ↦ rw same (h.made t l)
    | inr other ↦ rw other (h.made u m)
  ]

  leave_entry-ending :
      (u : ℕ)
      → has u r.finalizing ≡ true
      → ((set_at t (shut (r.track_at t)) r.track_at u).closed ≡ true) × (u < r.allocated)
  unfolding leave_entry
  leave_entry-ending u f = elim (Bool-cases (u == t)) [
    | inl same ↦ rw same (refl, (h.ending u f).1)
    | inr other ↦ rw other (h.ending u f)
  ]

pub leave_entry-Holds : (r : Registry) (t : ℕ) → t < r.allocated → Holds r → Holds (leave_entry t r)
unfolding leave_entry
leave_entry-Holds r t l h = record {
  opens = leave_entry-opens r t l h;
  lists = leave_entry-lists r t l h;
  maps = leave_entry-maps r t l h;
  made = leave_entry-made r t l h;
  ending = leave_entry-ending r t l h;
  alive = h.alive;
}
