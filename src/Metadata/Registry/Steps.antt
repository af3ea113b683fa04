-- ===== src/Metadata/Registry/Steps.antt =====
-- metadata/registry.go: the tracks of a registry after any sequence of calls.
use sqls.Base.{ap, arith, false, if◌then◌else◌, none, refl, some, subst, sym, ℕ, ◌<◌, ◌∙◌, ◌≡◌}
use sqls.Metadata.Budget.{Key}
use sqls.Metadata.Registry.{
  Registry, Scope, Reach, Step, new_registry, find_track, find_entry, attach, attach_track,
  live_entry, add_ref, released, given_back, finalized, all_closed, attached, here, next,
}
use sqls.Metadata.Registry.Holds.{Holds}
use sqls.Metadata.Registry.Acquire.{attach-Holds, IsAttached, some-injective}
use sqls.Metadata.Registry.Release.{
  release_track_ref-Holds, finalizer_release-Holds, finish_finalizer-Holds,
}
use sqls.Metadata.Registry.Close.{close-Holds}

Step-Holds : {r s : Registry} → Step r s → Holds r → Holds s
Step-Holds {r} {s} (attached k c t f) h = (attach-Holds r s k c t f h).0
Step-Holds {r} {s} (released t l e) h = subst Holds (sym e) (release_track_ref-Holds r t l h)
Step-Holds {r} {s} (given_back t f g e) h = subst Holds (sym e) (finalizer_release-Holds r t h)
Step-Holds {r} {s} (finalized t f g e) h = subst Holds (sym e) (finish_finalizer-Holds r t f h)
Step-Holds {r} {s} (all_closed e) h = subst Holds (sym e) (close-Holds r h)

pub new_registry-Holds : (m n : ℕ) → Holds (new_registry m n)
unfolding new_registry
new_registry-Holds m n = record {
  opens = λ t l o. absurd (omega arith);
  lists = λ q t c f. cc;
  maps = λ j q f. cc;
  made = λ t l. absurd (omega arith);
  ending = λ t f. cc;
  alive = λ t f. cc;
}

pub Reach-Holds : {r s : Registry} → Reach r s → Holds r → Holds s
Reach-Holds here h = h
Reach-Holds (next w x) h = Step-Holds x (Reach-Holds w h)

abbrev pub key_of : Registry → ℕ → Key
key_of r t = (r.entry_at (r.track_at t).entry).key

-- After any sequence of acquisitions, releases, steps of finalizers and closings on a new registry,
-- two tracks that are not closed and have the same key and the same scope are one track: there are
-- never two open stores for one key and scope.
pub Reach-one_track :
    (m n : ℕ) {r : Registry}
    → Reach (new_registry m n) r
    → (t u : ℕ) → t < r.allocated
    → u < r.allocated
    → (r.track_at t).closed ≡ false
    → (r.track_at u).closed ≡ false
    → key_of r t ≡ key_of r u
    → (r.track_at t).scope ≡ (r.track_at u).scope
    → t ≡ u
Reach-one_track m n {r} w t u lt lu ot ou k c =
    let h = Reach-Holds w (new_registry-Holds m n) in
    let i = h.opens t lt ot in
    let j = h.opens u lu ou in
    let entries : (r.track_at t).entry ≡ (r.track_at u).entry =
      some-injective _ _ (sym i.placed ∙ ap (λ x. find_entry x r.entries) k ∙ j.placed) in
    some-injective t u (
      sym i.listed
      ∙ ap (λ x. find_track x (r.entry_at (r.track_at t).entry).tracks) c
      ∙ ap (λ p. find_track (r.track_at u).scope (r.entry_at p).tracks) entries
      ∙ j.listed)

live_entry-mapped :
    (r : Registry) (k : Key) (e : ℕ)
    → find_entry k r.entries ≡ some e
    → (r.entry_at e).retired ≡ false
    → live_entry k r ≡ some e
live_entry-mapped r k e f u = rw (live_entry, f, u) refl

-- After any sequence of acquisitions, releases, steps of finalizers and closings on a new registry,
-- `attach` for the key and the scope of a track that is not closed gives that track, with one more
-- reference and nothing else changed, or refuses because the registry is closed.
pub Reach-shares :
    (m n : ℕ) {r : Registry}
    → Reach (new_registry m n) r
    → (t : ℕ) → t < r.allocated
    → (r.track_at t).closed ≡ false
    → attach (key_of r t) (r.track_at t).scope r
      ≡ (if r.closed then none else some (add_ref t r, t))
unfolding attach attach_track
Reach-shares m n {r} w t l o =
    let h = Reach-Holds w (new_registry-Holds m n) in
    let i = h.opens t l o in
    let u = (h.maps (key_of r t) (r.track_at t).entry i.placed).in_use in
    rw (live_entry-mapped r (key_of r t) (r.track_at t).entry i.placed u)
      (rw (attach_track, i.listed) refl)

-- After any sequence of acquisitions, releases, steps of finalizers and closings on a new registry,
-- whatever `attach` gives is a track of the registry that is not closed and has the key and the
-- scope asked for.
pub Reach-attach :
    (m n : ℕ) {r : Registry}
    → Reach (new_registry m n) r
    → (k : Key) (c : Scope) (s : Registry) (t : ℕ) → attach k c r ≡ some (s, t)
    → IsAttached s k c t
Reach-attach m n {r} w k c s t f =
    (attach-Holds r s k c t f (Reach-Holds w (new_registry-Holds m n))).1
