-- ===== src/Metadata/Details.antt =====
-- metadata/details.go: `detailStore`. The map `entries` and the doubly linked list have the same
-- members, since every insertion and every removal is made in both: they are one list, the most
-- recently used entry first. The pointer to an entry is the number of its allocation. A goroutine of
-- `run` is a `Run`, and what an entry's waiters get when `ready` is closed is a result.
pub mod Sizes
pub mod Flights
pub mod Bounded
pub mod Steps
use sqls.Base.{
  Bool, List, Option, [], eqb, false, if◌then◌else◌, length, ltb, none, not, some, true, ℕ, ◌&&◌,
  ◌++◌, ◌+◌, ◌-◌, ◌==◌, ◌∷◌, ◌≡◌,
}

-- `body` is `Description.Body`; the other fields have no weight and are not read here.
pub record Detail : Type 0 where
  pub text : List ℕ
  pub provenance : List ℕ
  pub body : List ℕ

-- `detailWeight`
abbrev pub detail_weight : Detail → ℕ
detail_weight d = length d.text + length d.provenance + length d.body

abbrev pub default_max_detail_bytes : ℕ
default_max_detail_bytes = 67108864

-- `err_stale` is `ErrStale`, `err_detail_limit` is `ErrDetailLimit`.
pub data Outcome : Type 0 where
  answer : Detail → Outcome
  err_stale err_detail_limit load_error : Outcome

pub record Entry : Type 0 where
  pub id : ℕ
  pub coverage : List ℕ
  pub volatile : Bool
  pub size : ℕ
  pub settled : Bool

pub record Run : Type 0 where
  pub entry : Entry
  pub generation : ℕ

pub record Store : Type 0 where
  pub max_bytes : ℕ
  pub generation : ℕ
  pub stale : Bool
  pub entries : List Entry
  pub total_bytes : ℕ
  pub allocated : ℕ
  pub runs : List Run
  pub results : List (ℕ × Outcome)

abbrev pub find_entry : List ℕ → List Entry → Option Entry
find_entry c [] = none
find_entry c (e ∷ es) = if eqb e.coverage c then some e else find_entry c es

-- `removeLocked` and `delete(d.entries, coverage)`
abbrev pub remove_entry : List ℕ → List Entry → List Entry
remove_entry c [] = []
remove_entry c (e ∷ es) = if eqb e.coverage c then es else e ∷ remove_entry c es

-- `clearLocked`
unfoldable pub clear : Store → Store
clear d = record d { entries = []; total_bytes = 0 }

unfoldable pub begin_generation : ℕ → Store → Store
unfolding clear
begin_generation g d = clear (record d { generation = g; stale = false })

unfoldable pub new_detail_store : ℕ → Store
unfolding begin_generation
new_detail_store max_bytes = begin_generation 1 (record {
  max_bytes = if max_bytes == 0 then default_max_detail_bytes else max_bytes;
  generation = 0;
  stale = false;
  entries = [];
  total_bytes = 0;
  allocated = 0;
  runs = [];
  results = [];
})

unfoldable pub mark_stale : Store → Store
unfolding clear
mark_stale d = clear (record d { stale = true })

-- `touchLocked`
unfoldable pub touch : Entry → Store → Store
touch e d = record d { entries = e ∷ remove_entry e.coverage d.entries }

-- A coverage that has no entry gets one, and its load starts.
unfoldable pub start_load : ℕ → List ℕ → Bool → Store → Store
start_load g c v d =
    let e : Entry = record {
      id = d.allocated;
      coverage = c;
      volatile = v;
      size = 0;
      settled = false;
    } in
    record d {
      entries = e ∷ d.entries;
      allocated = d.allocated + 1;
      runs = (record { entry = e; generation = g }) ∷ d.runs;
    }

-- `acquire`, up to the wait: the entry to wait for, or none for `ErrStale`.
unfoldable pub acquire : ℕ → List ℕ → Bool → Store → Store × Option ℕ
acquire g c v d =
    if d.stale
    then (d, none)
    else if not (g == d.generation)
    then (d, none)
    else elim (find_entry c d.entries) [
      | some e ↦ (touch e d, some e.id)
      | none ↦ (start_load g c v d, some d.allocated)
    ]

-- `evictLocked`: from the least recently used entry on.
unfoldable pub evict : ℕ → List Entry → ℕ → List Entry × ℕ
evict max [] total = ([], total)
evict max (e ∷ es) total =
    let (kept, left) = evict max es total in
    if ltb max left && e.settled then (kept, left - e.size) else (e ∷ kept, left)

-- The entry of a run gets its value.
abbrev pub set_settled : ℕ → List ℕ → List Entry → List Entry
set_settled size c [] = []
set_settled size c (e ∷ es) =
    if eqb e.coverage c
    then record e { size = size; settled = true } ∷ es
    else e ∷ set_settled size c es

-- `stillMapped && current == entry`
unfoldable pub still_mapped : Run → Store → Bool
still_mapped r d = elim (find_entry r.entry.coverage d.entries) [
  | none ↦ false
  | some e ↦ e.id == r.entry.id
]

abbrev pub drop : Run → Store → Store
drop r d = record d { entries = remove_entry r.entry.coverage d.entries }

-- The last case of `settle`.
unfoldable pub keep_value : Run → ℕ → Store → Store
unfolding evict
keep_value r size d =
    let (kept, total) =
      evict d.max_bytes (set_settled size r.entry.coverage d.entries) (d.total_bytes + size) in
    record d { entries = kept; total_bytes = total }

-- `settle`, up to `close(entry.ready)`: the store, and what the entry's waiters get.
unfoldable pub settle : Run → Option Detail → Store → Store × Outcome
settle r loaded d =
    if not (still_mapped r d && not d.stale && r.generation == d.generation)
    then (if still_mapped r d then drop r d else d, err_stale)
    else elim loaded [
      | none ↦ (drop r d, load_error)
      | some v ↦
          if ltb d.max_bytes (detail_weight v)
          then (drop r d, err_detail_limit)
          else (if r.entry.volatile then drop r d else keep_value r (detail_weight v) d, answer v)
    ]

-- The run is over: it is one of `front ++ r ∷ back`, and its entry's `ready` is closed.
unfoldable pub finish_run : List Run → Run → List Run → Option Detail → Store → Store
finish_run front r back loaded d =
    let (d', o) = settle r loaded d in
    record d' { runs = front ++ back; results = (r.entry.id, o) ∷ d'.results }

pub data Step (d e : Store) : Type 0 where
  generation_begun : (g : ℕ) → e ≡ begin_generation g d → Step d e
  marked_stale : e ≡ mark_stale d → Step d e
  acquired : (g : ℕ) (c : List ℕ) (v : Bool) → e ≡ (acquire g c v d).0 → Step d e
  run_finished :
      (front back : List Run) (r : Run) (loaded : Option Detail)
      → d.runs ≡ front ++ r ∷ back
      → e ≡ finish_run front r back loaded d
      → Step d e

pub data Reach (d : Store) : Store → Type 0 where
  here : Reach d d
  next : {e f : Store} → Reach d e → Step e f → Reach d f
