-- ===== src/Metadata/Registry/Entries.antt =====
-- metadata/registry.go: a new entry, made by `attach`.
use sqls.Base.{
  ==_iff, Bool, Bool-cases, Option, [], ap, arith, false, if◌then◌else◌, inl, inr, none, refl, some,
  subst, sym, ℕ, ◌+◌, ◌<◌, ◌==◌, ◌∙◌, ◌∷◌, ◌≡◌, ◌≤◌,
}
use sqls.Metadata.Budget.{Key, same_key}
use sqls.Metadata.Stores.{same_key_sound}
use sqls.Metadata.Registry.{
  Registry, Scope, find_entry, delete_entry, find_track, live_entry, new_entry,
}
use sqls.Metadata.Registry.Maps.{find_entry-delete_other}
use sqls.Metadata.Registry.Holds.{Holds, IsOpen, IsListed, IsMapped}

apart : (a b : ℕ) → a ≤ b → (a == b + 1) ≡ false
apart a b h = ground arith

-- A key with a live entry keeps it from being new.
no_live_entry :
    (r : Registry) (k : Key) (e : ℕ)
    → Holds r
    → live_entry k r ≡ none
    → find_entry k r.entries ≡ some e
    → ⊥
no_live_entry r k e h n f =
    let m = h.maps k e f in
    cc (
      subst
          (λ o.
            elim o as (λ x. Option ℕ) [
              | none ↦ none
              | some e ↦ if (r.entry_at e).retired then none else some e
            ]
            ≡ none)
          f n,
      m.in_use,
    )

module _ (r : Registry) (k : Key) (n : live_entry k r ≡ none) (h : Holds r) where
  new_entry-opens :
      (t : ℕ)
      → t < r.allocated
      → (r.track_at t).closed ≡ false
      → IsOpen
          ((k, r.incarnation_seq + 1) ∷ delete_entry k r.entries)
          r.live_tracks
          (r.track_at t)
          ((new_entry k r).entry_at (r.track_at t).entry)
          t
  unfolding new_entry
  new_entry-opens t l o =
      let p = h.opens t l o in
      let other : same_key k (r.entry_at (r.track_at t).entry).key ≡ false =
        elim (Bool-cases (same_key k (r.entry_at (r.track_at t).entry).key)) [
          | inl same ↦ absurd (
              no_live_entry r k (r.track_at t).entry h n
                (ap (λ j. find_entry j r.entries) (same_key_sound _ _ same) ∙ p.placed))
          | inr other ↦ other
        ] in
      rw (apart (r.track_at t).entry r.incarnation_seq (h.made t l)) (record {
        placed = rw other (find_entry-delete_other k _ r.entries other ∙ p.placed);
        listed = p.listed;
        lives = p.lives;
      })

  new_entry-lists :
      (p t : ℕ) (c : Scope)
      → find_track c ((new_entry k r).entry_at p).tracks ≡ some t
      → IsListed r.allocated (r.track_at t) p c t
  unfolding new_entry
  new_entry-lists p t c f = elim (Bool-cases (p == r.incarnation_seq + 1)) [
    | inl new ↦ cc (
        subst
          (λ (b : Bool).
            find_track c
              (if b then record { key = k; retired = false; tracks = [] } else r.entry_at p).tracks
            ≡ some t)
          new f)
    | inr old ↦ h.lists p t c (
        subst
          (λ (b : Bool).
            find_track c
              (if b then record { key = k; retired = false; tracks = [] } else r.entry_at p).tracks
            ≡ some t)
          old f)
  ]

  new_entry-maps :
      (j : Key) (p : ℕ)
      → find_entry j ((k, r.incarnation_seq + 1) ∷ delete_entry k r.entries) ≡ some p
      → IsMapped (r.incarnation_seq + 1) ((new_entry k r).entry_at p) j p
  unfolding new_entry
  new_entry-maps j p f = elim (Bool-cases (same_key k j)) [
    | inl same ↦
        let there : r.incarnation_seq + 1 ≡ p = ground (arith, f, same) in
        rw ((==_iff p (r.incarnation_seq + 1)).1 (sym there)) (record {
          of_key = same_key_sound k j same;
          issued = omega (arith, there);
          in_use = refl;
        })
    | inr other ↦
        let m =
          h.maps j p
            (sym (find_entry-delete_other k j r.entries other) ∙ ground (arith, f, other)) in
        rw (apart p r.incarnation_seq m.issued)
          (record { of_key = m.of_key; issued = omega (arith, m.issued); in_use = m.in_use })
  ]

pub new_entry-Holds :
    (r : Registry) (k : Key) → live_entry k r ≡ none → Holds r → Holds (new_entry k r)
unfolding new_entry
new_entry-Holds r k n h = record {
  opens = new_entry-opens r k n h;
  lists = new_entry-lists r k n h;
  maps = new_entry-maps r k n h;
  made = λ t l. omega (arith, h.made t l);
  ending = h.ending;
  alive = h.alive;
}
