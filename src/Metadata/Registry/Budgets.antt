-- ===== src/Metadata/Registry/Budgets.antt =====
-- metadata/registry.go, metadata/budget.go: a `StoreBudget` has one reference for each live track
-- whose finalizer has not given it back.
use sqls.Base.{
  ==_iff, Bool-cases, List, Option, Option-cases, ap, arith, false, if◌then◌else◌, inl, inr, none,
  refl, some, subst, sym, true, ℕ, ◌+◌, ◌-◌, ◌<◌, ◌==◌, ◌↔◌, ◌∙◌, ◌≡◌,
}
use sqls.Metadata.Budget.{Key, same_key, new_budget, find}
use sqls.Metadata.Stores.{find-IsHeld}
use sqls.Metadata.Sharing.{refs_of, refs_in, act, act-IsSound, for_store_call, release_call}
use sqls.Metadata.Lifetime.{refs-act, new_budget-IsSound}
use sqls.Metadata.Registry.{
  Registry, has, new_entry, Scope, Track, find_entry, finish_finalizer, finalizer_release,
  given_back, new_track, Reach, Step, all_closed, attach, attach_track, attached, finalized,
  find_track, forget, here, live_entry, new_registry, next, released,
}
use sqls.Metadata.Registry.Steps.{key_of, Reach-Holds, new_registry-Holds}
use sqls.Metadata.Registry.Holds.{Holds}
use sqls.Metadata.Registry.Maps.{has-forget, forget-has, has-forget_same}
use sqls.Metadata.Registry.Tracks.{set_at-other}
use sqls.Metadata.Registry.Entries.{new_entry-Holds}
use sqls.Metadata.Registry.Acquire.{
  new_track-IsAttached, live_entry-found, new_entry-found, not_closed, some-injective,
}
use sqls.Metadata.Registry.Retire.{false_if}
use sqls.Metadata.Registry.Holding.{
  holding-live, live-holding, Different-holding, holding-cons, holding-forget, holding-new,
}
use sqls.Metadata.Registry.Accounts.{
  Accounts, holding, live_count, live_count-ext, set_at-key, Different-forget, live_count-forget,
}
use sqls.Metadata.Registry.Releases.{
  add_ref-Accounts, close-Accounts, new_entry-Accounts, release_track_ref-Accounts,
}

finalizer_release-Accounts :
    (r : Registry) (t : ℕ)
    → has t r.finalizing ≡ true
    → has t r.returned ≡ false
    → Accounts r
    → Accounts (finalizer_release t r)
unfolding finalizer_release act
finalizer_release-Accounts r t f g a =
    let held = holding r.returned r.live_tracks in
    record {
      sound = act-IsSound (release_call (key_of r t)) r.budget a.sound;
      balanced = λ j.
          refs-act j (release_call (key_of r t)) r.budget a.sound
          ∙ ap (λ n. if same_key (key_of r t) j then n - 1 else n) (a.balanced j)
          ∙ sym (
              live_count-forget j (key_of r) t held
                (Different-holding r.returned r.live_tracks a.once)
                (live-holding r.returned r.live_tracks t (a.pending t f) g))
          ∙ ap (live_count j (key_of r)) (sym (holding-cons t r.returned r.live_tracks));
      once = a.once;
      pending = a.pending;
      ended = λ u h. elim (Bool-cases (u == t)) [
        | inl same ↦ subst (λ x. has x r.finalizing ≡ true) (sym ((==_iff u t).0 same)) f
        | inr other ↦ a.ended u (ground (arith, h, other))
      ];
    }

-- A track that is forgotten is in no list.
forget-implies :
    (t : ℕ) (us ts : List ℕ)
    → ((u : ℕ) → has u us ≡ true → has u ts ≡ true)
    → (u : ℕ) → has u (forget t us) ≡ true
    → has u (forget t ts) ≡ true
forget-implies t us ts f u h = elim (Bool-cases (u == t)) [
  | inl same ↦
      cc (subst (λ x. has x (forget t us) ≡ true) ((==_iff u t).0 same) h, has-forget_same t us)
  | inr other ↦ has-forget u t ts other (f u (forget-has u t us h))
]

finish_finalizer-Accounts :
    (r : Registry) (t : ℕ) → has t r.returned ≡ true → Accounts r → Accounts (finish_finalizer t r)
unfolding finish_finalizer
finish_finalizer-Accounts r t g a = record {
  sound = a.sound;
  balanced = λ j.
      a.balanced j
      ∙ ap (live_count j (key_of r)) (sym (holding-forget t r.returned r.live_tracks g));
  once = Different-forget t r.live_tracks a.once;
  pending = forget-implies t r.finalizing r.live_tracks a.pending;
  ended = forget-implies t r.returned r.finalizing a.ended;
}

new_track-key :
    (r : Registry) (e : ℕ) (k : Key) (c : Scope) (u : ℕ)
    → u < r.allocated
    → key_of (new_track e k c r) u ≡ key_of r u
unfolding new_track
new_track-key r e k c u l =
    set_at-key e _ _ r.entry_at refl
    ∙ ap (λ (x : Track). (r.entry_at x.entry).key)
        (set_at-other r.allocated u _ r.track_at
          (false_if (u == r.allocated) (λ same. absurd (ground (arith, l, same)))))

new_track-Accounts :
    (r : Registry) (e : ℕ) (k : Key) (c : Scope)
    → find_entry k r.entries ≡ some e
    → Holds r
    → Accounts r
    → Accounts (new_track e k c r)
unfolding new_track act
new_track-Accounts r e k c found h a =
    let fresh : has r.allocated r.returned ≡ false = false_if (has r.allocated r.returned) (λ o.
      absurd
        (omega (arith, h.alive r.allocated (a.pending r.allocated (a.ended r.allocated o))))) in
    record {
      sound = act-IsSound (for_store_call k) r.budget a.sound;
      balanced = λ j.
          refs-act j (for_store_call k) r.budget a.sound
          ∙ ap (λ n. if same_key k j then n + 1 else n) (a.balanced j)
          ∙ ap (λ n. if same_key k j then n + 1 else n)
              (live_count-ext j (key_of r) (key_of (new_track e k c r))
                (holding r.returned r.live_tracks)
                (λ u l. sym (
                  new_track-key r e k c u (h.alive u (holding-live r.returned r.live_tracks u l)))))
          ∙ ap
              (λ x.
                if same_key x j
                then live_count j (key_of (new_track e k c r)) (holding r.returned r.live_tracks)
                  + 1
                else live_count j (key_of (new_track e k c r)) (holding r.returned r.live_tracks))
              (sym (new_track-IsAttached r e k c found h).of_key)
          ∙ ap (live_count j (key_of (new_track e k c r)))
              (sym (holding-new r.allocated r.returned r.live_tracks fresh));
      once = (
        false_if (has r.allocated r.live_tracks)
            (λ l. absurd (omega (arith, h.alive r.allocated l))),
        a.once,
      );
      pending = λ u l. ground (arith, a.pending u l);
      ended = a.ended;
    }

attach_track-Accounts :
    (r : Registry) (e : ℕ) (k : Key) (c : Scope)
    → find_entry k r.entries ≡ some e
    → Holds r
    → Accounts r
    → Accounts (attach_track e k c r).0
unfolding attach_track
attach_track-Accounts r e k c found h a = elim (Option-cases (find_track c (r.entry_at e).tracks)) [
  | inl f ↦ rw (attach_track, f) (new_track-Accounts r e k c found h a)
  | inr (t, f) ↦ rw (attach_track, f) (add_ref-Accounts r t a)
]

attach-Accounts :
    (r s : Registry) (k : Key) (c : Scope) (t : ℕ)
    → attach k c r ≡ some (s, t)
    → Holds r
    → Accounts r
    → Accounts s
unfolding attach
attach-Accounts r s k c t f h a = go (live_entry k r) refl f
  where
    go :
        (o : Option ℕ)
        → live_entry k r ≡ o
        → (if r.closed then none else elim o as (λ x. Option (Registry × ℕ)) [
          | some e ↦ some (attach_track e k c r)
          | none ↦ some (attach_track (r.incarnation_seq + 1) k c (new_entry k r))
        ])
          ≡ some (s, t)
        → Accounts s
    go none e g =
        subst (λ (x : Registry × ℕ). Accounts x.0)
          (some-injective _ (s, t) (not_closed r.closed _ (s, t) g))
          (attach_track-Accounts (new_entry k r) (r.incarnation_seq + 1) k c (new_entry-found r k)
            (new_entry-Holds r k e h) (new_entry-Accounts r k h a))
    go (some p) e g =
        subst (λ (x : Registry × ℕ). Accounts x.0)
          (some-injective _ (s, t) (not_closed r.closed _ (s, t) g))
          (attach_track-Accounts r p k c (live_entry-found r k p e) h a)

Step-Accounts : {r s : Registry} → Step r s → Holds r → Accounts r → Accounts s
Step-Accounts {r} {s} (attached k c t f) h a = attach-Accounts r s k c t f h a
Step-Accounts {r} {s} (released t l e) h a =
    subst Accounts (sym e) (release_track_ref-Accounts r t a)
Step-Accounts {r} {s} (given_back t f g e) h a =
    subst Accounts (sym e) (finalizer_release-Accounts r t f g a)
Step-Accounts {r} {s} (finalized t f g e) h a =
    subst Accounts (sym e) (finish_finalizer-Accounts r t g a)
Step-Accounts {r} {s} (all_closed e) h a = subst Accounts (sym e) (close-Accounts r a)

new_registry-Accounts : (m n : ℕ) → Accounts (new_registry m n)
unfolding new_registry new_budget
new_registry-Accounts m n = record {
  sound = new_budget-IsSound m n;
  balanced = λ k. refl;
  once = tt;
  pending = λ t f. cc;
  ended = λ t f. cc;
}

Reach-Accounts : (m n : ℕ) {r : Registry} → Reach (new_registry m n) r → Accounts r
Reach-Accounts m n here = new_registry-Accounts m n
Reach-Accounts m n (next w x) =
    Step-Accounts x (Reach-Holds w (new_registry-Holds m n)) (Reach-Accounts m n w)

-- After any sequence of acquisitions, releases, steps of finalizers and closings on a new registry,
-- the budget counts for every key as many references to its `StoreBudget` as the key has live tracks
-- whose finalizer has not given its reference back, and has no `StoreBudget` for the key exactly where
-- it has no such track.
pub Reach-balanced :
    (m n : ℕ) {r : Registry}
    → Reach (new_registry m n) r
    → (k : Key)
    → (refs_of k r.budget ≡ live_count k (key_of r) (holding r.returned r.live_tracks))
      × ((find k r.budget.stores ≡ none)
          ↔ (live_count k (key_of r) (holding r.returned r.live_tracks) ≡ 0))
Reach-balanced m n {r} w k =
    let a = Reach-Accounts m n w in
    (
      a.balanced k,
      (
        λ e. sym (a.balanced k) ∙ ap refs_in e,
        λ z. elim (Option-cases (find k r.budget.stores)) [
          | inl e ↦ e
          | inr (h, e) ↦ absurd (
              omega (
                arith,
                find-IsHeld k r.budget.stores h a.sound.held e,
                ap refs_in e,
                a.balanced k,
                z,
              ))
        ],
      ),
    )
