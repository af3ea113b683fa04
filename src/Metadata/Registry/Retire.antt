-- ===== src/Metadata/Registry/Retire.antt =====
-- metadata/registry.go: an entry without tracks leaves the registry.
use sqls.Base.{
  ==_iff, Bool, Bool-cases, List, [], ap, arith, false, if◌then◌else◌, inl, inr, is_empty, not,
  refl, some, subst, sym, true, within, ℕ, ◌&&◌, ◌==◌, ◌∙◌, ◌∷◌, ◌≡◌,
}
use sqls.Metadata.Budget.{Key, same_key}
use sqls.Metadata.Stores.{same_key_sound, same_key_refl}
use sqls.Metadata.Registry.{
  Registry, retire_entry, RegistryEntry, Scope, delete_entry, find_entry, find_track, is_pointer,
  set_at,
}
use sqls.Metadata.Registry.Maps.{find_entry-delete_other, find_entry-delete_same}
use sqls.Metadata.Registry.Tracks.{set_at-same, set_at-other, equal_self}
use sqls.Metadata.Registry.Holds.{Holds, IsMapped, IsOpen}

-- `delete(r.entries, entry.key)` for an entry that its key is mapped to.
abbrev unmap : ℕ → Registry → List (Key × ℕ)
unmap p r =
    if is_pointer (find_entry (r.entry_at p).key r.entries) p
    then delete_entry (r.entry_at p).key r.entries
    else r.entries

abbrev retire : RegistryEntry → RegistryEntry
retire e = record e { retired = true }

pub false_if : (b : Bool) → (b ≡ true → ⊥) → b ≡ false
false_if true f = absurd (f refl)
false_if false f = refl

no_track :
    (ts : List (Scope × ℕ)) (c : Scope) (u : ℕ) → is_empty ts ≡ true → find_track c ts ≡ some u → ⊥
no_track [] c u e f = cc
no_track (x ∷ ts) c u e f = cc

-- The other keys stay mapped.
unmap-other :
    (r : Registry) (p : ℕ) (j : Key) (q : ℕ)
    → (q == p) ≡ false
    → find_entry j r.entries ≡ some q
    → find_entry j (unmap p r) ≡ some q
unmap-other r p j q other f =
    elim (Bool-cases (is_pointer (find_entry (r.entry_at p).key r.entries) p)) [
      | inr kept ↦ rw kept f
      | inl gone ↦ rw gone (elim (Bool-cases (same_key (r.entry_at p).key j)) [
        | inl same ↦ cc (
          subst (λ o. is_pointer o p ≡ true)
              (ap (λ k. find_entry k r.entries) (same_key_sound _ j same) ∙ f) gone,
          other,
        )
        | inr apart ↦ find_entry-delete_other _ j r.entries apart ∙ f
      ])
    ]

-- A key that stays mapped is mapped to another entry.
unmap-found :
    (r : Registry) (p : ℕ) (j : Key) (q : ℕ)
    → Holds r
    → find_entry j (unmap p r) ≡ some q
    → IsMapped r.incarnation_seq (r.entry_at q) j q × ((q == p) ≡ false)
unmap-found r p j q h f =
    elim (Bool-cases (is_pointer (find_entry (r.entry_at p).key r.entries) p)) [
      | inr kept ↦
          let m = h.maps j q (
            subst
              (λ (b : Bool).
                find_entry j (if b then delete_entry (r.entry_at p).key r.entries else r.entries)
                ≡ some q)
              kept f) in
          (
            m,
            false_if (q == p) (λ same.
                let there : q ≡ p = (==_iff q p).0 same in
                let own : find_entry (r.entry_at p).key r.entries ≡ some p =
                  ap (λ k. find_entry k r.entries)
                    (ap (λ x. (r.entry_at x).key) (sym there) ∙ m.of_key)
                  ∙ subst
                      (λ (b : Bool).
                        find_entry j
                          (if b then delete_entry (r.entry_at p).key r.entries else r.entries)
                        ≡ some q)
                      kept f
                  ∙ ap some there in
                cc (subst (λ o. is_pointer o p ≡ false) own kept, equal_self p)),
          )
      | inl gone ↦
          let f' =
            subst
              (λ (b : Bool).
                find_entry j (if b then delete_entry (r.entry_at p).key r.entries else r.entries)
                ≡ some q)
              gone f in
          let apart : same_key (r.entry_at p).key j ≡ false =
            false_if (same_key (r.entry_at p).key j) (λ same. cc (
              ap (λ k. find_entry k (delete_entry (r.entry_at p).key r.entries))
                    (sym (same_key_sound _ j same))
                  ∙ find_entry-delete_same _ r.entries,
              f',
            )) in
          let m = h.maps j q (sym (find_entry-delete_other _ j r.entries apart) ∙ f') in
          (
            m,
            false_if (q == p) (λ same. cc (
              subst (λ k. same_key k j ≡ false)
                  (ap (λ x. (r.entry_at x).key) (sym ((==_iff q p).0 same)) ∙ m.of_key) apart,
              same_key_refl j,
            )),
          )
    ]

-- An entry without tracks may leave the registry.
pub retire_entry-Holds : (r : Registry) (p : ℕ) → Holds r → Holds (retire_entry p r)
unfolding retire_entry
retire_entry-Holds r p h =
    elim (Bool-cases (is_empty (r.entry_at p).tracks && not (r.entry_at p).retired)) [
      | inr stays ↦ rw stays h
      | inl goes ↦ rw goes (record {
        opens = λ u l o. retire_opens u (h.opens u l o) (ground (arith, goes));
        lists = λ q t c f. h.lists q t c (retire_lists q t c f);
        maps = retire_maps;
        made = h.made;
        ending = h.ending;
        alive = h.alive;
      })
    ]
  where
    retire_opens :
        (u : ℕ)
        → IsOpen r.entries r.live_tracks (r.track_at u) (r.entry_at (r.track_at u).entry) u
        → is_empty (r.entry_at p).tracks ≡ true
        → IsOpen
            (unmap p r)
            r.live_tracks
            (r.track_at u)
            (set_at p (retire (r.entry_at p)) r.entry_at (r.track_at u).entry)
            u
    retire_opens u i none_left = elim (Bool-cases ((r.track_at u).entry == p)) [
      | inl within ↦ absurd (
          no_track _ _ u none_left (
            subst (λ x. find_track (r.track_at u).scope (r.entry_at x).tracks ≡ some u)
              ((==_iff _ p).0 within) i.listed))
      | inr other ↦ rw other (record {
        placed = unmap-other r p _ (r.track_at u).entry other i.placed;
        listed = i.listed;
        lives = i.lives;
      })
    ]

    retire_lists :
        (q t : ℕ) (c : Scope)
        → find_track c (set_at p (retire (r.entry_at p)) r.entry_at q).tracks ≡ some t
        → find_track c (r.entry_at q).tracks ≡ some t
    retire_lists q t c f = elim (Bool-cases (q == p)) [
      | inl same ↦
          subst (λ x. find_track c (r.entry_at x).tracks ≡ some t) (sym ((==_iff q p).0 same))
            (subst (λ (e : RegistryEntry). find_track c e.tracks ≡ some t)
              (set_at-same p q _ r.entry_at same) f)
      | inr other ↦
          subst (λ (e : RegistryEntry). find_track c e.tracks ≡ some t)
            (set_at-other p q _ r.entry_at other) f
    ]

    retire_maps :
        (j : Key) (q : ℕ)
        → find_entry j (unmap p r) ≡ some q
        → IsMapped r.incarnation_seq (set_at p (retire (r.entry_at p)) r.entry_at q) j q
    retire_maps j q f = let (m, other) = unmap-found r p j q h f in rw other m
