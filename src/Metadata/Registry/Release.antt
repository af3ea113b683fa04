-- ===== src/Metadata/Registry/Release.antt =====
-- metadata/registry.go: `releaseTrackRef` and the finalizers keep what holds of a registry.
use sqls.Base.{
  ==_iff, Bool-cases, arith, false, if_intro, inl, inr, is_empty, leb, not, refl, subst, sym, true,
  ℕ, ◌&&◌, ◌-◌, ◌<◌, ◌==◌, ◌∙◌, ◌≡◌,
}
use sqls.Metadata.Registry.{
  Registry, has, leave_entry, retire_entry, finalize_track, finalizer_release, finish_finalizer,
  release_track_ref,
}
use sqls.Metadata.Registry.Maps.{has-forget, forget-has}
use sqls.Metadata.Registry.Tracks.{equal_self, recount, recount-Holds}
use sqls.Metadata.Registry.Holds.{Holds}
use sqls.Metadata.Registry.Retire.{retire_entry-Holds}
use sqls.Metadata.Registry.Leave.{leave_entry-Holds}

pub finalizer_release-Holds : (r : Registry) (t : ℕ) → Holds r → Holds (finalizer_release t r)
unfolding finalizer_release
finalizer_release-Holds r t h = record {
  opens = h.opens;
  lists = h.lists;
  maps = h.maps;
  made = h.made;
  ending = h.ending;
  alive = h.alive;
}

pub finish_finalizer-Holds :
    (r : Registry) (t : ℕ) → has t r.finalizing ≡ true → Holds r → Holds (finish_finalizer t r)
unfolding finish_finalizer
finish_finalizer-Holds r t f h = record {
  opens = λ u l o.
      let p = h.opens u l o in
      let other : (u == t) ≡ false = elim (Bool-cases (u == t)) [
        | inl same ↦ cc (
          o,
          subst (λ x. (r.track_at x).closed ≡ true) (sym ((==_iff u t).0 same)) (h.ending t f).0,
        )
        | inr other ↦ other
      ] in
      record {
        placed = p.placed;
        listed = p.listed;
        lives = has-forget u t r.live_tracks other p.lives;
      };
  lists = h.lists;
  maps = h.maps;
  made = h.made;
  ending = λ u g. h.ending u (forget-has u t r.finalizing g);
  alive = λ u g. h.alive u (forget-has u t r.live_tracks g);
}

-- A closed track may be finalized.
pub finalize_track-Holds :
    (r : Registry) (t : ℕ)
    → (r.track_at t).closed ≡ true
    → t < r.allocated
    → Holds r
    → Holds (finalize_track t r)
unfolding finalize_track
finalize_track-Holds r t shut l h =
    if_intro Holds (has t r.live_tracks && not (has t r.finalizing)) _ _
      (record {
        opens = h.opens;
        lists = h.lists;
        maps = h.maps;
        made = h.made;
        ending = λ u g. elim (Bool-cases (u == t)) [
          | inl same ↦ rw ((==_iff u t).0 same) (shut, l)
          | inr other ↦ h.ending u (ground (arith, g, other))
        ];
        alive = h.alive;
      })
      h

retire_entry-shut :
    (r : Registry) (p t : ℕ)
    → (((retire_entry p r).track_at t).closed ≡ (r.track_at t).closed)
      × ((retire_entry p r).allocated ≡ r.allocated)
unfolding retire_entry
retire_entry-shut r p t =
    if_intro
      (λ (s : Registry).
        ((s.track_at t).closed ≡ (r.track_at t).closed) × (s.allocated ≡ r.allocated))
      (is_empty (r.entry_at p).tracks && not (r.entry_at p).retired) _ _ (refl, refl) (refl, refl)

leave_entry-shut : (r : Registry) (t : ℕ) → ((leave_entry t r).track_at t).closed ≡ true
unfolding leave_entry
leave_entry-shut r t = rw (equal_self t) refl

leave_entry-allocated : (r : Registry) (t : ℕ) → (leave_entry t r).allocated ≡ r.allocated
unfolding leave_entry
leave_entry-allocated r t = refl

pub release_track_ref-Holds :
    (r : Registry) (t : ℕ) → t < r.allocated → Holds r → Holds (release_track_ref t r)
unfolding release_track_ref
release_track_ref-Holds r t l h =
    let d = recount t ((r.track_at t).refs - 1) r in
    let i : Holds d = recount-Holds r t ((r.track_at t).refs - 1) h in
    let j = leave_entry-Holds d t l i in
    let s = retire_entry-shut (leave_entry t d) (r.track_at t).entry t in
    if_intro Holds (leb ((r.track_at t).refs - 1) 0) _ _
      (finalize_track-Holds (retire_entry (r.track_at t).entry (leave_entry t d)) t
        (s.0 ∙ leave_entry-shut d t) (omega (arith, l, s.1, leave_entry-allocated d t))
        (retire_entry-Holds (leave_entry t d) (r.track_at t).entry j))
      i
