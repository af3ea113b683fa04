-- ===== src/Metadata/Registry/Close.antt =====
-- metadata/registry.go: `Close` keeps what holds of a registry, since it leaves no track open.
use sqls.Base.{
  ==_iff, Bool-cases, List, [], ap, arith, false, if_intro, inl, inr, refl, some, subst, sym, true,
  ℕ, ◌<◌, ◌==◌, ◌∙◌, ◌∷◌, ◌≡◌, ◌⊎◌,
}
use sqls.Metadata.Budget.{Key, same_key}
use sqls.Metadata.Registry.{
  Registry, RegistryEntry, Track, Scope, find_entry, find_track, has, close, close_tracks,
  retire_all, finalize_all,
}
use sqls.Metadata.Registry.Tracks.{set_at-same, set_at-other}
use sqls.Metadata.Registry.Holds.{Holds}

close_tracks-closed :
    (ts : List ℕ) (f : ℕ → Track) (u : ℕ) → has u ts ≡ true → (close_tracks ts f u).closed ≡ true
close_tracks-closed [] f u h = cc
close_tracks-closed (t ∷ ts) f u h = elim (Bool-cases (u == t)) [
  | inl same ↦ rw same refl
  | inr other ↦ rw other (close_tracks-closed ts f u (ground (arith, h, other)))
]

-- Nothing else changes, and a closed track stays closed.
close_tracks-keeps :
    (ts : List ℕ) (f : ℕ → Track) (u : ℕ)
    → ((close_tracks ts f u).entry ≡ (f u).entry)
      × ((f u).closed ≡ true → (close_tracks ts f u).closed ≡ true)
close_tracks-keeps [] f u = (refl, λ h. h)
close_tracks-keeps (t ∷ ts) f u = elim (Bool-cases (u == t)) [
  | inl same ↦ rw same (
    subst (λ x. (close_tracks ts f x).entry ≡ (f u).entry) ((==_iff u t).0 same)
        (close_tracks-keeps ts f u).0,
    λ h. refl,
  )
  | inr other ↦ rw other (close_tracks-keeps ts f u)
]

retire_all-tracks :
    (es : List (Key × ℕ)) (f : ℕ → RegistryEntry) (q u : ℕ) (c : Scope)
    → find_track c (retire_all es f q).tracks ≡ some u
    → find_track c (f q).tracks ≡ some u
retire_all-tracks [] f q u c h = h
retire_all-tracks ((k, e) ∷ es) f q u c h = elim (Bool-cases (q == e)) [
  | inl same ↦ cc (
      subst (λ (x : RegistryEntry). find_track c x.tracks ≡ some u)
        (set_at-same e q _ (retire_all es f) same) h)
  | inr other ↦ retire_all-tracks es f q u c (
      subst (λ (x : RegistryEntry). find_track c x.tracks ≡ some u)
        (set_at-other e q _ (retire_all es f) other) h)
]

retire_all-mapped :
    (es : List (Key × ℕ)) (f : ℕ → RegistryEntry) (j : Key) (q : ℕ)
    → find_entry j es ≡ some q
    → (retire_all es f q).tracks ≡ []
retire_all-mapped [] f j q h = cc
retire_all-mapped ((k, e) ∷ es) f j q h = elim (Bool-cases (q == e)) [
  | inl same ↦ rw same refl
  | inr other ↦ rw other (
      retire_all-mapped es f j q (elim (Bool-cases (same_key k j)) [
        | inl same ↦ absurd (ground (arith, h, same, other))
        | inr apart ↦ ground (arith, h, apart)
      ]))
]

pub finalize_all-has :
    (ts fs : List ℕ) (u : ℕ)
    → has u (finalize_all ts fs) ≡ true
    → (has u ts ≡ true) ⊎ (has u fs ≡ true)
finalize_all-has [] fs u h = inr h
finalize_all-has (t ∷ ts) fs u h = elim (Bool-cases (u == t)) [
  | inl same ↦ inl (rw same refl)
  | inr other ↦ elim (finalize_all-has ts fs u (ground (arith, h, other))) [
    | inl live ↦ inl (rw (other, live) refl)
    | inr old ↦ inr old
  ]
]

pub close-Holds : (r : Registry) → Holds r → Holds (close r)
unfolding close
close-Holds r h = if_intro Holds r.closed _ _ h (record {
  opens = λ u l o. absurd (still_open u l o);
  lists = λ q u c f. absurd (still_listed q u c f);
  maps = λ j q f. cc;
  made = λ u l. omega (arith, (close_tracks-keeps r.live_tracks r.track_at u).0, h.made u l);
  ending = λ u f. elim (finalize_all-has r.live_tracks r.finalizing u f) [
    | inl live ↦ (close_tracks-closed r.live_tracks r.track_at u live, h.alive u live)
    | inr old ↦
        ((close_tracks-keeps r.live_tracks r.track_at u).1 (h.ending u old).0, (h.ending u old).1)
  ];
  alive = h.alive;
})
  where
    still_open :
        (u : ℕ) → u < r.allocated → (close_tracks r.live_tracks r.track_at u).closed ≡ false → ⊥
    still_open u l o = elim (Bool-cases (r.track_at u).closed) [
      | inl shut ↦ cc ((close_tracks-keeps r.live_tracks r.track_at u).1 shut, o)
      | inr open_before ↦
          cc (close_tracks-closed r.live_tracks r.track_at u (h.opens u l open_before).lives, o)
    ]

    still_listed :
        (q u : ℕ) (c : Scope) → find_track c (retire_all r.entries r.entry_at q).tracks ≡ some u → ⊥
    still_listed q u c f =
        let i = h.lists q u c (retire_all-tracks r.entries r.entry_at q u c f) in
        let o = h.opens u i.made i.open_track in
        cc (
          ap (find_track c)
              (sym (retire_all-mapped r.entries r.entry_at _ q (o.placed ∙ ap some i.of_entry))),
          f,
        )
