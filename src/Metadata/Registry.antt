-- ===== src/Metadata/Registry.antt =====
-- metadata/registry.go: `Registry`, its entries and its tracks. The pointer to an entry is its
-- incarnation, since each entry has one of its own; the pointer to a track is the number of its
-- allocation; the fields behind the pointers are functions of those numbers. `finalizing` holds the
-- tracks whose finalizer has been started by `finalizeOnce` and has not finished, and `returned` those
-- of them whose finalizer has given the reference to the budget back, which it does before it takes
-- the lock of the registry.
pub mod Maps
pub mod Holds
pub mod Tracks
pub mod Entries
pub mod Acquire
pub mod Retire
pub mod Leave
pub mod Release
pub mod Close
pub mod Steps
pub mod Counts
pub mod Accounts
pub mod Holding
pub mod Releases
pub mod Budgets
use sqls.Base.{
  Bool, List, Option, [], eqb, false, if◌then◌else◌, is_empty, leb, none, not, some, true, ℕ, ◌&&◌,
  ◌+◌, ◌-◌, ◌<◌, ◌==◌, ◌||◌, ◌∷◌, ◌≡◌,
}
use sqls.Metadata.Budget.{Key, Budget, same_key, for_store, release, new_budget}

-- `scopeKey`
pub record Scope : Type 0 where
  pub principal : List ℕ
  pub role : List ℕ
  pub text_policy : List ℕ

abbrev pub same_scope : Scope → Scope → Bool
same_scope a b = eqb a.principal b.principal && eqb a.role b.role && eqb a.text_policy b.text_policy

-- `registryEntry`
pub record RegistryEntry : Type 0 where
  pub key : Key
  pub retired : Bool
  pub tracks : List (Scope × ℕ)

-- `track`
pub record Track : Type 0 where
  pub entry : ℕ
  pub scope : Scope
  pub refs : ℕ
  pub closed : Bool

pub record Registry : Type 0 where
  pub budget : Budget
  pub entries : List (Key × ℕ)
  pub incarnation_seq : ℕ
  pub closed : Bool
  pub live_tracks : List ℕ
  pub allocated : ℕ
  pub finalizing : List ℕ
  pub returned : List ℕ
  pub entry_at : ℕ → RegistryEntry
  pub track_at : ℕ → Track

-- Lookup and `delete`, for the two kinds of maps.
abbrev pub find_entry : Key → List (Key × ℕ) → Option ℕ
find_entry k [] = none
find_entry k ((j, e) ∷ es) = if same_key j k then some e else find_entry k es

abbrev pub delete_entry : Key → List (Key × ℕ) → List (Key × ℕ)
delete_entry k [] = []
delete_entry k ((j, e) ∷ es) =
    if same_key j k then delete_entry k es else (j, e) ∷ delete_entry k es

abbrev pub find_track : Scope → List (Scope × ℕ) → Option ℕ
find_track s [] = none
find_track s ((r, t) ∷ ts) = if same_scope r s then some t else find_track s ts

abbrev pub delete_track : Scope → List (Scope × ℕ) → List (Scope × ℕ)
delete_track s [] = []
delete_track s ((r, t) ∷ ts) =
    if same_scope r s then delete_track s ts else (r, t) ∷ delete_track s ts

abbrev pub has : ℕ → List ℕ → Bool
has t [] = false
has t (u ∷ us) = t == u || has t us

-- `delete(r.liveTracks, t)`
abbrev pub forget : ℕ → List ℕ → List ℕ
forget t [] = []
forget t (u ∷ us) = if u == t then forget t us else u ∷ forget t us

-- The fields behind a pointer are set.
abbrev pub set_at : {A : Type 0} → ℕ → A → (ℕ → A) → ℕ → A
set_at p v f q = if q == p then v else f q

abbrev pub is_pointer : Option ℕ → ℕ → Bool
is_pointer none p = false
is_pointer (some q) p = q == p

unfoldable pub new_registry : ℕ → ℕ → Registry
new_registry host_jobs store_jobs = record {
  budget = new_budget host_jobs store_jobs;
  entries = [];
  incarnation_seq = 0;
  closed = false;
  live_tracks = [];
  allocated = 0;
  finalizing = [];
  returned = [];
  entry_at = λ e. record { key = record { engine = []; url = [] }; retired = true; tracks = [] };
  track_at = λ t. record {
    entry = 0;
    scope = record { principal = []; role = []; text_policy = [] };
    refs = 0;
    closed = true;
  };
}

-- The entry of a key in `attach`: `none` where the key has none that is not retired.
abbrev pub live_entry : Key → Registry → Option ℕ
live_entry k r = elim (find_entry k r.entries) [
  | none ↦ none
  | some e ↦ if (r.entry_at e).retired then none else some e
]

-- A new incarnation.
unfoldable pub new_entry : Key → Registry → Registry
new_entry k r =
    let e = r.incarnation_seq + 1 in
    record r {
      incarnation_seq = e;
      entries = (k, e) ∷ delete_entry k r.entries;
      entry_at = set_at e (record { key = k; retired = false; tracks = [] }) r.entry_at;
    }

abbrev pub fresh_track : ℕ → Scope → Track
fresh_track e s = record { entry = e; scope = s; refs = 1; closed = false }

-- `entry.tracks[sk] = t`, where the entry has none of that scope.
abbrev pub with_track : Scope → ℕ → RegistryEntry → RegistryEntry
with_track s t e = record e { tracks = (s, t) ∷ e.tracks }

-- A new track, in the entry `e`.
unfoldable pub new_track : ℕ → Key → Scope → Registry → Registry
unfolding for_store
new_track e k s r =
    let t = r.allocated in
    record r {
      budget = (for_store k r.budget).0;
      allocated = t + 1;
      live_tracks = t ∷ r.live_tracks;
      track_at = set_at t (fresh_track e s) r.track_at;
      entry_at = set_at e (with_track s t (r.entry_at e)) r.entry_at;
    }

-- `t.refs++`
unfoldable pub add_ref : ℕ → Registry → Registry
add_ref t r = record r {
  track_at = set_at t (record (r.track_at t) { refs = (r.track_at t).refs + 1 }) r.track_at;
}

-- The second half of `attach`: the track of the scope in the entry `e`.
unfoldable pub attach_track : ℕ → Key → Scope → Registry → Registry × ℕ
unfolding new_track add_ref
attach_track e k s r = elim (find_track s (r.entry_at e).tracks) [
  | none ↦ (new_track e k s r, r.allocated)
  | some t ↦ (add_ref t r, t)
]

-- `attach`: none is `ErrClosed`.
unfoldable pub attach : Key → Scope → Registry → Option (Registry × ℕ)
unfolding attach_track new_entry
attach k s r = if r.closed then none else elim (live_entry k r) [
  | some e ↦ some (attach_track e k s r)
  | none ↦ some (attach_track (r.incarnation_seq + 1) k s (new_entry k r))
]

-- `finalizeTrack`, up to the start of its goroutine; a track that has been finalized is not live.
unfoldable pub finalize_track : ℕ → Registry → Registry
finalize_track t r =
    if has t r.live_tracks && not (has t r.finalizing)
    then record r { finalizing = t ∷ r.finalizing }
    else r

-- `r.budget.release(t.entry.key)` in that goroutine, without the lock of the registry.
unfoldable pub finalizer_release : ℕ → Registry → Registry
unfolding release
finalizer_release t r = record r {
  budget = release (r.entry_at (r.track_at t).entry).key r.budget;
  returned = t ∷ r.returned;
}

-- The end of that goroutine, under the lock.
unfoldable pub finish_finalizer : ℕ → Registry → Registry
finish_finalizer t r = record r {
  live_tracks = forget t r.live_tracks;
  finalizing = forget t r.finalizing;
  returned = forget t r.returned;
}

-- `t.closed.Store(true)` and the track leaves its entry.
unfoldable pub leave_entry : ℕ → Registry → Registry
leave_entry t r =
    let k = r.track_at t in
    let e = r.entry_at k.entry in
    let tracks =
      if is_pointer (find_track k.scope e.tracks) t
      then delete_track k.scope e.tracks
      else e.tracks in
    record r {
      track_at = set_at t (record k { closed = true }) r.track_at;
      entry_at = set_at k.entry (record e { tracks = tracks }) r.entry_at;
    }

-- An entry without tracks is retired, and leaves the registry.
unfoldable pub retire_entry : ℕ → Registry → Registry
retire_entry p r =
    let e = r.entry_at p in
    if is_empty e.tracks && not e.retired
    then record r {
      entry_at = set_at p (record e { retired = true }) r.entry_at;
      entries =
          if is_pointer (find_entry e.key r.entries) p
          then delete_entry e.key r.entries
          else r.entries;
    }
    else r

-- `releaseTrackRef`
unfoldable pub release_track_ref : ℕ → Registry → Registry
unfolding leave_entry retire_entry finalize_track
release_track_ref t r =
    let k = r.track_at t in
    let d = record r { track_at = set_at t (record k { refs = k.refs - 1 }) r.track_at } in
    if leb (k.refs - 1) 0 then finalize_track t (retire_entry k.entry (leave_entry t d)) else d

-- `Close`, up to its wait: every live track is closed and finalized, and every entry retired.
abbrev pub close_tracks : List ℕ → (ℕ → Track) → ℕ → Track
close_tracks [] f = f
close_tracks (t ∷ ts) f = let g = close_tracks ts f in set_at t (record (g t) { closed = true }) g

abbrev pub retire_all : List (Key × ℕ) → (ℕ → RegistryEntry) → ℕ → RegistryEntry
retire_all [] f = f
retire_all ((k, e) ∷ es) f =
    let g = retire_all es f in set_at e (record (g e) { retired = true; tracks = [] }) g

abbrev pub finalize_all : List ℕ → List ℕ → List ℕ
finalize_all [] finalizing = finalizing
finalize_all (t ∷ ts) finalizing =
    let rest = finalize_all ts finalizing in if has t rest then rest else t ∷ rest

unfoldable pub close : Registry → Registry
close r = if r.closed then r else record r {
  closed = true;
  track_at = close_tracks r.live_tracks r.track_at;
  finalizing = finalize_all r.live_tracks r.finalizing;
  entry_at = retire_all r.entries r.entry_at;
  entries = [];
}

pub data Step (r s : Registry) : Type 0 where
  attached : (k : Key) (c : Scope) (t : ℕ) → attach k c r ≡ some (s, t) → Step r s
  released : (t : ℕ) → t < r.allocated → s ≡ release_track_ref t r → Step r s
  given_back :
      (t : ℕ)
      → has t r.finalizing ≡ true
      → has t r.returned ≡ false
      → s ≡ finalizer_release t r
      → Step r s
  finalized :
      (t : ℕ)
      → has t r.finalizing ≡ true
      → has t r.returned ≡ true
      → s ≡ finish_finalizer t r
      → Step r s
  all_closed : s ≡ close r → Step r s

pub data Reach (r : Registry) : Registry → Type 0 where
  here : Reach r r
  next : {s t : Registry} → Reach r s → Step s t → Reach r t
