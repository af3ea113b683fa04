-- ===== src/Catalog/Snapshot.antt =====
-- catalog/metadata.go: the states of the categories of one generation, and what they say of it as a whole.
use sqls.Base.{
  Bool, List, Option, [], false, if◌then◌else◌, is_empty, none, not, some, true, ◌&&◌, ◌||◌, ◌∷◌,
}
use sqls.Catalog.Cache.{MetadataKind, MetadataState, blocked, cancelled, failed, ready, unsupported}

-- The fields of `MetadataSnapshot` that its methods read, with the states of `Status`.
pub record StatusView : Type 0 where
  pub started : Bool
  pub start_failed : Bool
  pub status : List (MetadataKind × MetadataState)

abbrev pub is_terminal : MetadataState → Bool
is_terminal ready = true
is_terminal failed = true
is_terminal blocked = true
is_terminal cancelled = true
is_terminal unsupported = true
is_terminal _ = false

abbrev pub all_terminal : List (MetadataKind × MetadataState) → Bool
all_terminal [] = true
all_terminal ((k, s) ∷ m) = is_terminal s && all_terminal m

-- `(*MetadataSnapshot).Settled`; a nil snapshot is not settled.
unfoldable pub is_settled : Option StatusView → Bool
is_settled none = false
is_settled (some s) =
    if not s.started && not s.start_failed || is_empty s.status
    then false
    else all_terminal s.status

abbrev pub is_broken : MetadataState → Bool
is_broken failed = true
is_broken blocked = true
is_broken _ = false

abbrev pub any_broken : List (MetadataKind × MetadataState) → Bool
any_broken [] = false
any_broken ((k, s) ∷ m) = is_broken s || any_broken m

-- `(*MetadataSnapshot).Degraded`
unfoldable pub is_degraded : Option StatusView → Bool
is_degraded none = false
is_degraded (some s) =
    if is_empty s.status then false else if s.start_failed then true else any_broken s.status
