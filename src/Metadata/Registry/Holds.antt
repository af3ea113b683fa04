-- ===== src/Metadata/Registry/Holds.antt =====
-- metadata/registry.go: what holds of a registry between the calls.
use sqls.Base.{List, false, some, true, ℕ, ◌<◌, ◌≡◌, ◌≤◌}
use sqls.Metadata.Budget.{Key}
use sqls.Metadata.Registry.{Registry, RegistryEntry, Track, Scope, find_entry, find_track, has}

-- A track `t` with the fields `k`, in an entry with the fields `e` that its key is mapped to.
pub record IsOpen (entries : List (Key × ℕ)) (live : List ℕ) (k : Track) (e : RegistryEntry) (t : ℕ)
    : Type 0 where
  pub placed : find_entry e.key entries ≡ some k.entry
  pub listed : find_track k.scope e.tracks ≡ some t
  pub lives : has t live ≡ true

-- A track `t` with the fields `k` that the entry `p` lists under `c`.
pub record IsListed (allocated : ℕ) (k : Track) (p : ℕ) (c : Scope) (t : ℕ) : Type 0 where
  pub made : t < allocated
  pub open_track : k.closed ≡ false
  pub of_scope : k.scope ≡ c
  pub of_entry : k.entry ≡ p

-- An entry `p` with the fields `e` that the key `j` is mapped to.
pub record IsMapped (seq : ℕ) (e : RegistryEntry) (j : Key) (p : ℕ) : Type 0 where
  pub of_key : e.key ≡ j
  pub issued : p ≤ seq
  pub in_use : e.retired ≡ false

pub record Holds (r : Registry) : Type 0 where
  -- A track that is not closed is in its entry, which is the one of its key.
  pub opens :
      (t : ℕ)
      → t < r.allocated
      → (r.track_at t).closed ≡ false
      → IsOpen r.entries r.live_tracks (r.track_at t) (r.entry_at (r.track_at t).entry) t
  pub lists :
      (p t : ℕ) (c : Scope)
      → find_track c (r.entry_at p).tracks ≡ some t
      → IsListed r.allocated (r.track_at t) p c t
  pub maps :
      (j : Key) (p : ℕ)
      → find_entry j r.entries ≡ some p
      → IsMapped r.incarnation_seq (r.entry_at p) j p
  pub made : (t : ℕ) → t < r.allocated → (r.track_at t).entry ≤ r.incarnation_seq
  pub ending :
      (t : ℕ) → has t r.finalizing ≡ true → ((r.track_at t).closed ≡ true) × (t < r.allocated)
  pub alive : (t : ℕ) → has t r.live_tracks ≡ true → t < r.allocated
