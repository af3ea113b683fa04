-- ===== src/Metadata/Registry/Acquire.antt =====
-- metadata/registry.go: `attach` keeps what holds of a registry.
use sqls.Base.{
  Bool, Option, ap, arith, false, if◌then◌else◌, none, refl, some, subst, true, ℕ, ◌+◌, ◌<◌, ◌∙◌,
  ◌≡◌,
}
use sqls.Metadata.Budget.{Key}
use sqls.Metadata.Stores.{same_key_refl}
use sqls.Metadata.Registry.{
  Registry, Scope, find_entry, find_track, live_entry, new_entry, add_ref, attach_track, new_track,
  attach,
}
use sqls.Metadata.Registry.Tracks.{new_track-Holds, recount-Holds, equal_self}
use sqls.Metadata.Registry.Holds.{Holds}
use sqls.Metadata.Registry.Entries.{new_entry-Holds}

-- The track that `attach` gives.

pub record IsAttached (s : Registry) (k : Key) (c : Scope) (t : ℕ) : Type 0 where
  pub made : t < s.allocated
  pub open_track : (s.track_at t).closed ≡ false
  pub of_key : (s.entry_at (s.track_at t).entry).key ≡ k
  pub of_scope : (s.track_at t).scope ≡ c

add_ref-Holds : (r : Registry) (t : ℕ) → Holds r → Holds (add_ref t r)
unfolding add_ref
add_ref-Holds r t h = recount-Holds r t ((r.track_at t).refs + 1) h

pub new_track-IsAttached :
    (r : Registry) (e : ℕ) (k : Key) (c : Scope)
    → find_entry k r.entries ≡ some e
    → Holds r
    → IsAttached (new_track e k c r) k c r.allocated
unfolding new_track
new_track-IsAttached r e k c found h = record {
  made = omega arith;
  open_track = rw (equal_self r.allocated) refl;
  of_key = rw (equal_self r.allocated) (rw (equal_self e) (h.maps k e found).of_key);
  of_scope = rw (equal_self r.allocated) refl;
}

add_ref-IsAttached :
    (r : Registry) (e t : ℕ) (k : Key) (c : Scope)
    → find_entry k r.entries ≡ some e
    → find_track c (r.entry_at e).tracks ≡ some t
    → Holds r
    → IsAttached (add_ref t r) k c t
unfolding add_ref
add_ref-IsAttached r e t k c found f h =
    let i = h.lists e t c f in
    record {
      made = i.made;
      open_track = rw (equal_self t) i.open_track;
      of_key =
          rw (equal_self t) (ap (λ p. (r.entry_at p).key) i.of_entry ∙ (h.maps k e found).of_key);
      of_scope = rw (equal_self t) i.of_scope;
    }

attach_track-Holds :
    (r : Registry) (e : ℕ) (k : Key) (c : Scope)
    → find_entry k r.entries ≡ some e
    → Holds r
    → Holds (attach_track e k c r).0
      × IsAttached (attach_track e k c r).0 k c (attach_track e k c r).1
unfolding attach_track
attach_track-Holds r e k c found h = go (find_track c (r.entry_at e).tracks) refl
  where
    go :
        (o : Option ℕ)
        → find_track c (r.entry_at e).tracks ≡ o
        → Holds
            (elim o as (λ x. Registry × ℕ) [
              | none ↦ (new_track e k c r, r.allocated)
              | some t ↦ (add_ref t r, t)
            ]).0
          × IsAttached
              (elim o as (λ x. Registry × ℕ) [
                | none ↦ (new_track e k c r, r.allocated)
                | some t ↦ (add_ref t r, t)
              ]).0
              k
              c
              (elim o as (λ x. Registry × ℕ) [
                | none ↦ (new_track e k c r, r.allocated)
                | some t ↦ (add_ref t r, t)
              ]).1
    go none f = (new_track-Holds r e k c found f h, new_track-IsAttached r e k c found h)
    go (some t) f = (add_ref-Holds r t h, add_ref-IsAttached r e t k c found f h)

pub live_entry-found :
    (r : Registry) (k : Key) (e : ℕ) → live_entry k r ≡ some e → find_entry k r.entries ≡ some e
live_entry-found r k e f = go (find_entry k r.entries) refl
  where
    go : (o : Option ℕ) → find_entry k r.entries ≡ o → find_entry k r.entries ≡ some e
    go none g = cc (
        subst
          (λ o.
            elim o as (λ x. Option ℕ) [
              | none ↦ none
              | some e ↦ if (r.entry_at e).retired then none else some e
            ]
            ≡ some e)
          g f)
    go (some p) g =
        let q : (if (r.entry_at p).retired then none else some p) ≡ some e =
          subst
            (λ o.
              elim o as (λ x. Option ℕ) [
                | none ↦ none
                | some e ↦ if (r.entry_at e).retired then none else some e
              ]
              ≡ some e)
            g f in
        g ∙ ap some (ground (arith, q))

pub new_entry-found :
    (r : Registry) (k : Key) → find_entry k (new_entry k r).entries ≡ some (r.incarnation_seq + 1)
unfolding new_entry
new_entry-found r k = rw (same_key_refl k) refl

pub some-injective : {A : Type 0} (x y : A) → some x ≡ some y → x ≡ y
some-injective x y e = cc

pub not_closed :
    {A : Type 0} (b : Bool) (x : Option A) (y : A) → (if b then none else x) ≡ some y → x ≡ some y
not_closed true x y e = cc
not_closed false x y e = e

pub attach-Holds :
    (r s : Registry) (k : Key) (c : Scope) (t : ℕ)
    → attach k c r ≡ some (s, t)
    → Holds r
    → Holds s × IsAttached s k c t
unfolding attach
attach-Holds r s k c t f h = go (live_entry k r) refl f
  where
    given :
        (x : Registry × ℕ)
        → some x ≡ some (s, t)
        → Holds x.0 × IsAttached x.0 k c x.1
        → Holds s × IsAttached s k c t
    given x e i =
        subst (λ (y : Registry × ℕ). Holds y.0 × IsAttached y.0 k c y.1) (some-injective x (s, t) e)
          i

    go :
        (o : Option ℕ)
        → live_entry k r ≡ o
        → (if r.closed then none else elim o as (λ x. Option (Registry × ℕ)) [
          | some e ↦ some (attach_track e k c r)
          | none ↦ some (attach_track (r.incarnation_seq + 1) k c (new_entry k r))
        ])
          ≡ some (s, t)
        → Holds s × IsAttached s k c t
    go none e g = given _ (not_closed r.closed _ (s, t) g) (
        attach_track-Holds (new_entry k r) (r.incarnation_seq + 1) k c (new_entry-found r k)
          (new_entry-Holds r k e h))
    go (some p) e g =
        given _ (not_closed r.closed _ (s, t) g)
          (attach_track-Holds r p k c (live_entry-found r k p e) h)
