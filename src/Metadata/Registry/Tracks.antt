-- ===== src/Metadata/Registry/Tracks.antt =====
-- metadata/registry.go: a new track, and another count of references.
use sqls.Base.{
  ==_iff, Bool-cases, ap, arith, false, inl, inr, none, refl, some, subst, sym, true, within, ℕ,
  ◌+◌, ◌<◌, ◌==◌, ◌∙◌, ◌∷◌, ◌≡◌, ◌≤◌,
}
use sqls.Metadata.Budget.{Key}
use sqls.Metadata.Registry.{
  Registry, Track, Scope, find_entry, find_track, new_track, set_at, fresh_track, with_track,
  RegistryEntry, has, same_scope,
}
use sqls.Metadata.Registry.Maps.{same_scope_refl, same_scope_sound}
use sqls.Metadata.Registry.Holds.{Holds, IsOpen, IsListed, IsMapped}

pub equal_self : (a : ℕ) → (a == a) ≡ true
equal_self a = (==_iff a a).1 refl

unequal : (a b : ℕ) → a < b → (a == b) ≡ false
unequal a b h = ground arith

-- The fields of a track or an entry, where they are set.
pub set_at-same : {A : Type 0} (p q : ℕ) (v : A) (f : ℕ → A) → (q == p) ≡ true → set_at p v f q ≡ v
set_at-same p q v f e = rw e refl

pub set_at-other :
    {A : Type 0} (p q : ℕ) (v : A) (f : ℕ → A) → (q == p) ≡ false → set_at p v f q ≡ f q
set_at-other p q v f e = rw e refl

module _ (r : Registry) (e : ℕ) (k : Key) (c : Scope) (found : find_entry k r.entries ≡ some e)
    (absent : find_track c (r.entry_at e).tracks ≡ none) (h : Holds r) where
  new_track-opens :
      (t : ℕ)
      → t < r.allocated + 1
      → (set_at r.allocated (fresh_track e c) r.track_at t).closed ≡ false
      → IsOpen r.entries
          (r.allocated ∷ r.live_tracks)
          (set_at r.allocated (fresh_track e c) r.track_at t)
          (set_at e
            (with_track c r.allocated (r.entry_at e))
            r.entry_at
            (set_at r.allocated (fresh_track e c) r.track_at t).entry)
          t
  unfolding new_track
  new_track-opens t l o = elim (Bool-cases (t == r.allocated)) [
    | inl new ↦ rw new (
        rw (equal_self e) (record {
          placed =
              subst (λ j. find_entry j r.entries ≡ some e) (sym (h.maps k e found).of_key) found;
          listed = rw (same_scope_refl c) (ap some (sym ((==_iff t r.allocated).0 new)));
          lives = rw new refl;
        }))
    | inr old ↦
        let p = h.opens t (ground (arith, l, old)) (
          subst (λ (k : Track). k.closed ≡ false)
            (set_at-other r.allocated t (fresh_track e c) r.track_at old) o) in
        rw old (elim (Bool-cases ((r.track_at t).entry == e)) [
          | inr apart ↦
              rw apart (record { placed = p.placed; listed = p.listed; lives = rw old p.lives })
          | inl within ↦
              let q =
                subst (λ x. IsOpen r.entries r.live_tracks (r.track_at t) (r.entry_at x) t)
                  ((==_iff _ _).0 within) p in
              let other : same_scope c (r.track_at t).scope ≡ false =
                elim (Bool-cases (same_scope c (r.track_at t).scope)) [
                  | inl same ↦ cc (
                    ap (λ s. find_track s (r.entry_at e).tracks) (same_scope_sound c _ same)
                        ∙ q.listed,
                    absent,
                  )
                  | inr other ↦ other
                ] in
              rw within
                (record { placed = q.placed; listed = rw other q.listed; lives = rw old q.lives })
        ])
  ]

  new_track-lists :
      (p t : ℕ) (s : Scope)
      → find_track s (set_at e (with_track c r.allocated (r.entry_at e)) r.entry_at p).tracks
        ≡ some t
      → IsListed (r.allocated + 1) (set_at r.allocated (fresh_track e c) r.track_at t) p s t
  unfolding new_track
  new_track-lists p t s f = elim (Bool-cases (p == e)) [
    | inr other ↦ kept (
        h.lists p t s (
          subst (λ (x : RegistryEntry). find_track s x.tracks ≡ some t)
            (set_at-other e p _ r.entry_at other) f))
    | inl within ↦
        in_entry
          (subst (λ (x : RegistryEntry). find_track s x.tracks ≡ some t)
            (set_at-same e p _ r.entry_at within) f)
          ((==_iff p e).0 within)
  ]
    where
      kept :
          IsListed r.allocated (r.track_at t) p s t
          → IsListed (r.allocated + 1) (set_at r.allocated (fresh_track e c) r.track_at t) p s t
      kept i = rw (unequal t r.allocated i.made) (record {
        made = omega (arith, i.made);
        open_track = i.open_track;
        of_scope = i.of_scope;
        of_entry = i.of_entry;
      })

      in_entry :
          find_track s ((c, r.allocated) ∷ (r.entry_at e).tracks) ≡ some t
          → p ≡ e
          → IsListed (r.allocated + 1) (set_at r.allocated (fresh_track e c) r.track_at t) p s t
      in_entry g q = elim (Bool-cases (same_scope c s)) [
        | inl same ↦
            let there : r.allocated ≡ t = ground (arith, g, same) in
            rw ((==_iff t r.allocated).1 (sym there)) (record {
              made = omega (arith, there);
              open_track = refl;
              of_scope = same_scope_sound c s same;
              of_entry = sym q;
            })
        | inr other ↦ kept (
            h.lists p t s (
              subst (λ x. find_track s (r.entry_at x).tracks ≡ some t) (sym q)
                (ground (arith, g, other))))
      ]

  new_track-maps :
      (j : Key) (p : ℕ)
      → find_entry j r.entries ≡ some p
      → IsMapped r.incarnation_seq
          (set_at e (with_track c r.allocated (r.entry_at e)) r.entry_at p)
          j
          p
  unfolding new_track
  new_track-maps j p f =
      let m = h.maps j p f in
      elim (Bool-cases (p == e)) [
        | inl within ↦
            let n =
              subst (λ x. IsMapped r.incarnation_seq (r.entry_at x) j p) ((==_iff p e).0 within)
                m in
            rw within (record { of_key = n.of_key; issued = n.issued; in_use = n.in_use })
        | inr other ↦ rw other m
      ]

  new_track-made :
      (t : ℕ)
      → t < r.allocated + 1
      → (set_at r.allocated (fresh_track e c) r.track_at t).entry ≤ r.incarnation_seq
  unfolding new_track
  new_track-made t l = elim (Bool-cases (t == r.allocated)) [
    | inl new ↦ rw new (h.maps k e found).issued
    | inr old ↦ rw old (h.made t (ground (arith, l, old)))
  ]

  new_track-ending :
      (t : ℕ)
      → has t r.finalizing ≡ true
      → ((set_at r.allocated (fresh_track e c) r.track_at t).closed ≡ true) × (t < r.allocated + 1)
  unfolding new_track
  new_track-ending t f =
      let (shut, l) = h.ending t f in rw (unequal t r.allocated l) (shut, omega (arith, l))

  new_track-alive : (t : ℕ) → has t (r.allocated ∷ r.live_tracks) ≡ true → t < r.allocated + 1
  unfolding new_track
  new_track-alive t f = elim (Bool-cases (t == r.allocated)) [
    | inl new ↦ ground (arith, new)
    | inr old ↦ omega (arith, h.alive t (ground (arith, f, old)))
  ]

pub new_track-Holds :
    (r : Registry) (e : ℕ) (k : Key) (c : Scope)
    → find_entry k r.entries ≡ some e
    → find_track c (r.entry_at e).tracks ≡ none
    → Holds r
    → Holds (new_track e k c r)
unfolding new_track
new_track-Holds r e k c found absent h = record {
  opens = new_track-opens r e k c found absent h;
  lists = new_track-lists r e k c found absent h;
  maps = new_track-maps r e k c found absent h;
  made = new_track-made r e k c found absent h;
  ending = new_track-ending r e k c found absent h;
  alive = new_track-alive r e k c found absent h;
}

-- Another count of references of a track.
abbrev pub recount : ℕ → ℕ → Registry → Registry
recount t n r = record r { track_at = set_at t (record (r.track_at t) { refs = n }) r.track_at }

pub recount-Holds : (r : Registry) (t n : ℕ) → Holds r → Holds (recount t n r)
recount-Holds r t n h = record {
  opens = opens;
  lists = λ p u c f. keeps_listed p u c (h.lists p u c f);
  maps = h.maps;
  made = λ u l. keeps (λ (k : Track). k.entry ≤ r.incarnation_seq) u (h.made u l) (λ (a : ℕ) i. i);
  ending = λ u f.
      let (shut, l) = h.ending u f in (keeps (λ (k : Track). k.closed ≡ true) u shut (λ a i. i), l);
  alive = h.alive;
}
  where
    keeps :
        (P : Track → Type 0) (u : ℕ)
        → P (r.track_at u)
        → ((a : ℕ) → P (r.track_at t) → P (record (r.track_at t) { refs = n }))
        → P (set_at t (record (r.track_at t) { refs = n }) r.track_at u)
    keeps P u i f = elim (Bool-cases (u == t)) [
      | inl same ↦ rw same (f 0 (subst (λ x. P (r.track_at x)) ((==_iff u t).0 same) i))
      | inr other ↦ rw other i
    ]

    keeps_listed :
        (p u : ℕ) (c : Scope)
        → IsListed r.allocated (r.track_at u) p c u
        → IsListed r.allocated (set_at t (record (r.track_at t) { refs = n }) r.track_at u) p c u
    keeps_listed p u c i =
        keeps (λ k. IsListed r.allocated k p c u) u i
          (λ a j. record {
            made = j.made;
            open_track = j.open_track;
            of_scope = j.of_scope;
            of_entry = j.of_entry;
          })

    opens :
        (u : ℕ)
        → u < r.allocated
        → (set_at t (record (r.track_at t) { refs = n }) r.track_at u).closed ≡ false
        → IsOpen r.entries r.live_tracks
            (set_at t (record (r.track_at t) { refs = n }) r.track_at u)
            (r.entry_at (set_at t (record (r.track_at t) { refs = n }) r.track_at u).entry)
            u
    opens u l o = elim (Bool-cases (u == t)) [
      | inl same ↦
          let q : u ≡ t = (==_iff u t).0 same in
          let p = h.opens u l (
            subst (λ x. (r.track_at x).closed ≡ false) (sym q)
              (subst (λ (k : Track). k.closed ≡ false) (set_at-same t u _ r.track_at same) o)) in
          let i =
            subst
              (λ x.
                IsOpen r.entries r.live_tracks (r.track_at x) (r.entry_at (r.track_at x).entry) u)
              q p in
          rw same (record { placed = i.placed; listed = i.listed; lives = i.lives })
      | inr other ↦ rw other (
          h.opens u l
            (subst (λ (k : Track). k.closed ≡ false) (set_at-other t u _ r.track_at other) o))
    ]
