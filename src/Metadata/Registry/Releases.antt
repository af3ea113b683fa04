-- ===== src/Metadata/Registry/Releases.antt =====
-- metadata/registry.go: the references to the budget, where no track is made or finished.
use sqls.Base.{
  ==_iff, Bool-cases, List, [], ap, arith, false, if_intro, inl, inr, is_empty, leb, not, refl,
  subst, sym, true, ℕ, ◌&&◌, ◌+◌, ◌-◌, ◌==◌, ◌∙◌, ◌∷◌, ◌≡◌, ◌≤◌,
}
use sqls.Metadata.Budget.{Key}
use sqls.Metadata.Sharing.{IsSound, refs_of}
use sqls.Metadata.Registry.{
  Registry, has, new_entry, add_ref, leave_entry, retire_entry, finalize_track, RegistryEntry,
  Track, close, close_tracks, release_track_ref, retire_all, finalize_all,
}
use sqls.Metadata.Registry.Steps.{key_of}
use sqls.Metadata.Registry.Holds.{Holds}
use sqls.Metadata.Registry.Tracks.{recount}
use sqls.Metadata.Registry.Close.{finalize_all-has}
use sqls.Metadata.Registry.Holding.{holding-live}
use sqls.Metadata.Registry.Accounts.{
  Accounts, holding, live_count, live_count-ext, Different, set_at-key, set_at-entry,
}

-- Nothing that counts changes.

kept :
    (r s : Registry)
    → s.budget ≡ r.budget
    → s.live_tracks ≡ r.live_tracks
    → s.returned ≡ r.returned
    → ((t : ℕ) → has t r.live_tracks ≡ true → key_of s t ≡ key_of r t)
    → ((t : ℕ) → has t s.finalizing ≡ true → has t r.live_tracks ≡ true)
    → ((t : ℕ) → has t r.finalizing ≡ true → has t s.finalizing ≡ true)
    → Accounts r
    → Accounts s
kept r s b l g k p q a = record {
  sound = subst IsSound (sym b) a.sound;
  balanced = λ j.
      ap (refs_of j) b
      ∙ a.balanced j
      ∙ live_count-ext j (key_of r) (key_of s) (holding r.returned r.live_tracks)
          (λ t h. sym (k t (holding-live r.returned r.live_tracks t h)))
      ∙ ap (λ ts. live_count j (key_of s) (holding r.returned ts)) (sym l)
      ∙ ap (λ out. live_count j (key_of s) (holding out s.live_tracks)) (sym g);
  once = subst Different (sym l) a.once;
  pending = λ t h. subst (λ ts. has t ts ≡ true) (sym l) (p t h);
  ended = λ t h. q t (a.ended t (subst (λ ts. has t ts ≡ true) g h));
}

pub add_ref-Accounts : (r : Registry) (t : ℕ) → Accounts r → Accounts (add_ref t r)
unfolding add_ref
add_ref-Accounts r t a =
    kept r _ refl refl refl
      (λ u h. ap (λ p. (r.entry_at p).key) (set_at-entry t u _ r.track_at refl)) a.pending
      (λ u h. h) a

pub new_entry-Accounts : (r : Registry) (k : Key) → Holds r → Accounts r → Accounts (new_entry k r)
unfolding new_entry
new_entry-Accounts r k h a =
    kept r _ refl refl refl
      (λ u l.
        rw (key_of, older (r.track_at u).entry r.incarnation_seq (h.made u (h.alive u l))) refl)
      a.pending (λ u h. h) a
  where
    older : (m n : ℕ) → m ≤ n → (m == n + 1) ≡ false
    older m n l = ground arith

leave_entry-Accounts : (r : Registry) (t : ℕ) → Accounts r → Accounts (leave_entry t r)
unfolding leave_entry
leave_entry-Accounts r t a =
    kept r _ refl refl refl
      (λ u h.
        set_at-key _ _ _ r.entry_at refl
        ∙ ap (λ p. (r.entry_at p).key) (set_at-entry t u _ r.track_at refl))
      a.pending (λ u h. h) a

retire_entry-Accounts : (r : Registry) (p : ℕ) → Accounts r → Accounts (retire_entry p r)
unfolding retire_entry
retire_entry-Accounts r p a =
    if_intro Accounts (is_empty (r.entry_at p).tracks && not (r.entry_at p).retired) _ _
      (kept r _ refl refl refl (λ u h. set_at-key p (r.track_at u).entry _ r.entry_at refl)
        a.pending (λ u h. h) a)
      a

finalize_track-Accounts : (r : Registry) (t : ℕ) → Accounts r → Accounts (finalize_track t r)
unfolding finalize_track
finalize_track-Accounts r t a =
    elim (Bool-cases (has t r.live_tracks && not (has t r.finalizing))) [
      | inr off ↦ rw off a
      | inl on ↦ rw on (
          kept r _ refl refl refl (λ u h. refl)
            (λ u h. elim (Bool-cases (u == t)) [
              | inl same ↦
                  subst (λ x. has x r.live_tracks ≡ true) (sym ((==_iff u t).0 same))
                    (ground (arith, on))
              | inr other ↦ a.pending u (ground (arith, h, other))
            ])
            (λ u h. ground (arith, h)) a)
    ]

pub release_track_ref-Accounts :
    (r : Registry) (t : ℕ) → Accounts r → Accounts (release_track_ref t r)
unfolding release_track_ref
release_track_ref-Accounts r t a =
    let d : Registry = recount t ((r.track_at t).refs - 1) r in
    let b : Accounts d =
      kept r d refl refl refl
        (λ u h. ap (λ p. (r.entry_at p).key) (set_at-entry t u _ r.track_at refl)) a.pending
        (λ u h. h) a in
    if_intro Accounts (leb ((r.track_at t).refs - 1) 0) _ _
      (finalize_track-Accounts _ t
        (retire_entry-Accounts _ (r.track_at t).entry (leave_entry-Accounts d t b)))
      b

close_tracks-entry :
    (ts : List ℕ) (f : ℕ → Track) (u : ℕ) → (close_tracks ts f u).entry ≡ (f u).entry
close_tracks-entry [] f u = refl
close_tracks-entry (t ∷ ts) f u =
    set_at-entry t u _ (close_tracks ts f) refl ∙ close_tracks-entry ts f u

retire_all-key :
    (es : List (Key × ℕ)) (f : ℕ → RegistryEntry) (p : ℕ) → (retire_all es f p).key ≡ (f p).key
retire_all-key [] f p = refl
retire_all-key ((k, e) ∷ es) f p = set_at-key e p _ (retire_all es f) refl ∙ retire_all-key es f p

finalize_all-keeps : (ts fs : List ℕ) (u : ℕ) → has u fs ≡ true → has u (finalize_all ts fs) ≡ true
finalize_all-keeps [] fs u h = h
finalize_all-keeps (t ∷ ts) fs u h = ground (arith, finalize_all-keeps ts fs u h)

pub close-Accounts : (r : Registry) → Accounts r → Accounts (close r)
unfolding close
close-Accounts r a = if_intro Accounts r.closed _ _ a (
    kept r _ refl refl refl
      (λ u h.
        retire_all-key r.entries r.entry_at _
        ∙ ap (λ p. (r.entry_at p).key) (close_tracks-entry r.live_tracks r.track_at u))
      (λ u h. elim (finalize_all-has r.live_tracks r.finalizing u h) [
        | inl live ↦ live
        | inr old ↦ a.pending u old
      ])
      (λ u h. finalize_all-keeps r.live_tracks r.finalizing u h) a)
