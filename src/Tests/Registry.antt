-- ===== src/Tests/Registry.antt =====
-- metadata/registry.go: two leases on one store, a third on another, and a release.
use sqls.Base.{
  Option, String, [], arith, codes, false, if◌then◌else◌, map, none, refl, some, true, ℕ, ◌<◌, ◌↔◌,
  ◌∷◌, ◌≡◌,
}
use sqls.Metadata.Budget.{Key, find}
use sqls.Metadata.Registry.{
  Registry, Scope, Reach, new_registry, attach, attach_track, new_entry, new_track, add_ref,
  release_track_ref, leave_entry, retire_entry, finalize_track, finalizer_release, given_back,
  released, attached, here, next,
}
use sqls.Metadata.Registry.Acquire.{IsAttached}
use sqls.Metadata.Sharing.{refs_of}
use sqls.Metadata.Registry.Accounts.{live_count, holding}
use sqls.Metadata.Registry.Counts.{Reach-counted}
use sqls.Metadata.Registry.Budgets.{Reach-balanced}
use sqls.Metadata.Registry.Steps.{Reach-one_track, Reach-shares, Reach-attach, key_of}

abbrev key : Key
key = record { engine = codes "pg"; url = codes "u" }

abbrev scope : String → Scope
scope p = record { principal = codes p; role = []; text_policy = [] }

abbrev registry_of : Option (Registry × ℕ) → Registry
registry_of none = new_registry 0 0
registry_of (some (r, t)) = r

abbrev one : Registry
one = registry_of (attach key (scope "a") (new_registry 6 3))

abbrev two : Registry
two = registry_of (attach key (scope "b") one)

-- The first track's last lease is released.
abbrev three : Registry
three = release_track_ref 0 two

tracks-three : map (λ t. (three.track_at t).closed) (0 ∷ 1 ∷ []) ≡ true ∷ false ∷ []
unfolding attach attach_track new_entry new_track add_ref new_registry release_track_ref leave_entry
    retire_entry finalize_track
tracks-three = refl

Reach-two : Reach (new_registry 6 3) two
unfolding attach attach_track new_entry new_track add_ref new_registry
Reach-two = next (next here (attached key (scope "a") 0 refl)) (attached key (scope "b") 1 refl)

Reach-three : Reach (new_registry 6 3) three
unfolding attach attach_track new_entry new_track add_ref new_registry
Reach-three = next Reach-two (released 0 (omega arith) refl)

three_made : 1 < three.allocated
unfolding attach attach_track new_entry new_track add_ref new_registry release_track_ref leave_entry
    retire_entry finalize_track
three_made = omega arith

three_open : (three.track_at 1).closed ≡ false
unfolding attach attach_track new_entry new_track add_ref new_registry release_track_ref leave_entry
    retire_entry finalize_track
three_open = refl

abbrev last_track : ℕ
last_track = 1

Reach-one_track_example : last_track ≡ last_track
Reach-one_track_example =
    Reach-one_track 6 3 Reach-three 1 1 three_made three_made three_open three_open refl refl

Reach-shares_example :
    attach (key_of three 1) (three.track_at 1).scope three
    ≡ (if three.closed then none else some (add_ref 1 three, 1))
Reach-shares_example = Reach-shares 6 3 Reach-three 1 three_made three_open

given_zero : attach key (scope "a") (new_registry 6 3) ≡ some (one, 0)
unfolding attach attach_track new_entry new_track add_ref new_registry
given_zero = refl

Reach-attach_example : IsAttached one key (scope "a") 0
Reach-attach_example = Reach-attach 6 3 here key (scope "a") one 0 given_zero

-- The first track's finalizer gives its reference back, and has not finished.
abbrev four : Registry
four = finalizer_release 0 three

Reach-four : Reach (new_registry 6 3) four
unfolding attach attach_track new_entry new_track add_ref new_registry release_track_ref leave_entry
    retire_entry finalize_track
Reach-four = next Reach-three (given_back 0 refl refl refl)

tracks-four : (four.live_tracks ≡ 1 ∷ 0 ∷ []) × (holding four.returned four.live_tracks ≡ 1 ∷ [])
unfolding attach attach_track new_entry new_track add_ref new_registry release_track_ref leave_entry
    retire_entry finalize_track finalizer_release
tracks-four = (refl, refl)

Reach-balanced_example :
    (refs_of key four.budget
      ≡ live_count key (key_of four) (holding four.returned four.live_tracks))
    × ((find key four.budget.stores ≡ none)
        ↔ (live_count key (key_of four) (holding four.returned four.live_tracks) ≡ 0))
Reach-balanced_example = Reach-balanced 6 3 Reach-four key

Reach-counted_example : 0 < (three.track_at 1).refs
Reach-counted_example = Reach-counted 6 3 Reach-three 1 three_made three_open
