-- ===== src/Metadata/Registry/Counts.antt =====
-- metadata/registry.go: a track that is not closed has a reference.
use sqls.Base.{
  Bool-cases, List, Option, Option-cases, [], arith, false, if_intro, if◌then◌else◌, inl, inr,
  is_empty, leb, none, not, some, subst, sym, ℕ, ◌&&◌, ◌+◌, ◌-◌, ◌<◌, ◌==◌, ◌∷◌, ◌≡◌,
}
use sqls.Metadata.Budget.{Key}
use sqls.Metadata.Registry.{
  Registry, Track, Scope, set_at, fresh_track, attach, attach_track, new_entry, new_track, add_ref,
  release_track_ref, leave_entry, retire_entry, finalize_track, close, close_tracks, find_track,
  live_entry, Reach, Step, all_closed, attached, finalized, finish_finalizer, finalizer_release,
  given_back, has, here, new_registry, next, released,
}
use sqls.Metadata.Registry.Tracks.{set_at-same, set_at-other, recount}
use sqls.Metadata.Registry.Acquire.{some-injective, not_closed}

abbrev Counted : ℕ → (ℕ → Track) → Type 0
Counted n f = (u : ℕ) → u < n → (f u).closed ≡ false → 0 < (f u).refs

abbrev IsCounted : Registry → Type 0
IsCounted r = Counted r.allocated r.track_at

-- A track's fields are set.
set_at-Counted :
    (n t : ℕ) (k : Track) (f : ℕ → Track)
    → (k.closed ≡ false → 0 < k.refs)
    → ((u : ℕ) → (u == t) ≡ false → u < n → (f u).closed ≡ false → 0 < (f u).refs)
    → Counted n (set_at t k f)
set_at-Counted n t k f new old u l o = elim (Bool-cases (u == t)) [
  | inl same ↦ rw same (new (subst (λ (x : Track). x.closed ≡ false) (set_at-same t u k f same) o))
  | inr other ↦
      rw other
        (old u other l (subst (λ (x : Track). x.closed ≡ false) (set_at-other t u k f other) o))
]

attach_track-IsCounted :
    (r : Registry) (e : ℕ) (k : Key) (c : Scope) → IsCounted r → IsCounted (attach_track e k c r).0
unfolding attach_track new_track add_ref
attach_track-IsCounted r e k c h = elim (Option-cases (find_track c (r.entry_at e).tracks)) [
  | inl f ↦
      rw (attach_track, f)
        (set_at-Counted (r.allocated + 1) r.allocated (fresh_track e c) r.track_at
          (λ o. omega arith) (λ u other l o. h u (ground (arith, l, other)) o))
  | inr (t, f) ↦
      rw (attach_track, f)
        (set_at-Counted r.allocated t _ r.track_at (λ o. omega arith) (λ u other l o. h u l o))
]

new_entry-IsCounted : (r : Registry) (k : Key) → IsCounted r → IsCounted (new_entry k r)
unfolding new_entry
new_entry-IsCounted r k h = h

attach-IsCounted :
    (r s : Registry) (k : Key) (c : Scope) (t : ℕ)
    → attach k c r ≡ some (s, t)
    → IsCounted r
    → IsCounted s
unfolding attach
attach-IsCounted r s k c t f h = go (live_entry k r) f
  where
    go :
        (o : Option ℕ)
        → (if r.closed then none else elim o as (λ x. Option (Registry × ℕ)) [
          | some e ↦ some (attach_track e k c r)
          | none ↦ some (attach_track (r.incarnation_seq + 1) k c (new_entry k r))
        ])
          ≡ some (s, t)
        → IsCounted s
    go none g =
        subst (λ (x : Registry × ℕ). IsCounted x.0)
          (some-injective _ (s, t) (not_closed r.closed _ (s, t) g))
          (attach_track-IsCounted (new_entry k r) (r.incarnation_seq + 1) k c
            (new_entry-IsCounted r k h))
    go (some p) g =
        subst (λ (x : Registry × ℕ). IsCounted x.0)
          (some-injective _ (s, t) (not_closed r.closed _ (s, t) g))
          (attach_track-IsCounted r p k c h)

finalize_track-IsCounted : (r : Registry) (t : ℕ) → IsCounted r → IsCounted (finalize_track t r)
unfolding finalize_track
finalize_track-IsCounted r t h =
    if_intro IsCounted (has t r.live_tracks && not (has t r.finalizing)) _ _ h h

retire_entry-IsCounted : (r : Registry) (p : ℕ) → IsCounted r → IsCounted (retire_entry p r)
unfolding retire_entry
retire_entry-IsCounted r p h =
    if_intro IsCounted (is_empty (r.entry_at p).tracks && not (r.entry_at p).retired) _ _ h h

leave_entry-IsCounted :
    (r : Registry) (t n : ℕ) → IsCounted r → IsCounted (leave_entry t (recount t n r))
unfolding leave_entry
leave_entry-IsCounted r t n h =
    set_at-Counted r.allocated t _ (recount t n r).track_at (λ o. cc)
      (λ u other l o.
        subst (λ (x : Track). 0 < x.refs) (sym (set_at-other t u _ r.track_at other))
          (h u l (subst (λ (x : Track). x.closed ≡ false) (set_at-other t u _ r.track_at other) o)))

-- The last reference closes the track.
release_track_ref-IsCounted :
    (r : Registry) (t : ℕ) → IsCounted r → IsCounted (release_track_ref t r)
unfolding release_track_ref
release_track_ref-IsCounted r t h =
    let n : ℕ = (r.track_at t).refs - 1 in
    elim (Bool-cases (leb n 0)) [
      | inr more ↦ rw more (
          set_at-Counted r.allocated t _ r.track_at (λ o. ground (arith, more))
            (λ u other l o. h u l o))
      | inl last ↦
          let left : Registry = leave_entry t (recount t n r) in
          rw last (
            finalize_track-IsCounted (retire_entry (r.track_at t).entry left) t
              (retire_entry-IsCounted left (r.track_at t).entry (leave_entry-IsCounted r t n h)))
    ]

close-IsCounted : (r : Registry) → IsCounted r → IsCounted (close r)
unfolding close
close-IsCounted r h = if_intro IsCounted r.closed _ _ h (go r.live_tracks)
  where
    go : (ts : List ℕ) → Counted r.allocated (close_tracks ts r.track_at)
    go [] = h
    go (t ∷ ts) =
        set_at-Counted r.allocated t _ (close_tracks ts r.track_at) (λ o. cc)
          (λ u other l o. go ts u l o)

Step-IsCounted : {r s : Registry} → Step r s → IsCounted r → IsCounted s
unfolding finish_finalizer finalizer_release
Step-IsCounted {r} {s} (attached k c t f) h = attach-IsCounted r s k c t f h
Step-IsCounted {r} {s} (released t l e) h =
    subst IsCounted (sym e) (release_track_ref-IsCounted r t h)
Step-IsCounted {r} {s} (given_back t f g e) h = subst IsCounted (sym e) h
Step-IsCounted {r} {s} (finalized t f g e) h = subst IsCounted (sym e) h
Step-IsCounted {r} {s} (all_closed e) h = subst IsCounted (sym e) (close-IsCounted r h)

-- After any sequence of acquisitions, releases, steps of finalizers and closings on a new registry,
-- a track that is not closed has at least one reference: the release that drops the last one closes
-- the track.
pub Reach-counted :
    (m n : ℕ) {r : Registry}
    → Reach (new_registry m n) r
    → (t : ℕ) → t < r.allocated
    → (r.track_at t).closed ≡ false
    → 0 < (r.track_at t).refs
unfolding new_registry
Reach-counted m n here t l o = absurd (omega arith)
Reach-counted m n (next w x) t l o = Step-IsCounted x (Reach-counted m n w) t l o
