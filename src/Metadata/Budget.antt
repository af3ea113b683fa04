-- ===== src/Metadata/Budget.antt =====
-- metadata/budget.go: `Budget`, `StoreBudget`, the wakers and the permits. A semaphore is the number of
-- its permits in use and its capacity. A waker is the number of its broadcasts.
use sqls.Base.{
  Bool, List, Option, [], eqb, if◌then◌else◌, leb, ltb, none, some, ℕ, ◌&&◌, ◌++◌, ◌+◌, ◌-◌, ◌==◌,
  ◌∷◌,
}

abbrev pub default_host_jobs : ℕ
default_host_jobs = 6

abbrev pub default_store_jobs : ℕ
default_store_jobs = 3

abbrev pub Waker : Type 0
Waker = ℕ

unfoldable pub broadcast : Waker → Waker
broadcast w = w + 1

-- `metadata.Key`
pub record Key : Type 0 where
  pub engine : List ℕ
  pub url : List ℕ

abbrev pub same_key : Key → Key → Bool
same_key k j = eqb k.engine j.engine && eqb k.url j.url

-- `storeBudgetHandle`; the pointer to the `StoreBudget` is the number of its allocation.
pub record Handle : Type 0 where
  pub budget : ℕ
  pub refs : ℕ

-- A map entry.
pub record Entry : Type 0 where
  pub key : Key
  pub handle : Handle

-- `Budget`, without the host's semaphore; `allocated` counts the `StoreBudget`s made.
pub record Budget : Type 0 where
  pub host_capacity : ℕ
  pub per_store : ℕ
  pub stores : List Entry
  pub allocated : ℕ

-- `NewBudget`; the code's `host <= 0` is 0 here, where a negative argument stands for 0.
unfoldable pub new_budget : ℕ → ℕ → Budget
new_budget host per_store = record {
  host_capacity = if host == 0 then default_host_jobs else host;
  per_store = if per_store == 0 then default_store_jobs else per_store;
  stores = [];
  allocated = 0;
}

-- `b.stores[key]`
abbrev pub find : Key → List Entry → Option Handle
find key [] = none
find key (e ∷ es) = if same_key e.key key then some e.handle else find key es

-- The handle of a key gets another count of references.
abbrev pub set_refs : Key → ℕ → List Entry → List Entry
set_refs key n [] = []
set_refs key n (e ∷ es) =
    if same_key e.key key
    then record e { handle = record e.handle { refs = n } } ∷ es
    else e ∷ set_refs key n es

-- `delete(b.stores, key)`
abbrev pub remove : Key → List Entry → List Entry
remove key [] = []
remove key (e ∷ es) = if same_key e.key key then es else e ∷ remove key es

abbrev pub fresh : Key → ℕ → Entry
fresh key n = record { key = key; handle = record { budget = n; refs = 1 } }

-- `ForStore`: the budget and the `StoreBudget`.
unfoldable pub for_store : Key → Budget → Budget × ℕ
for_store key b = elim (find key b.stores) [
  | none ↦ (
    record b { stores = b.stores ++ fresh key b.allocated ∷ []; allocated = b.allocated + 1 },
    b.allocated,
  )
  | some h ↦ (record b { stores = set_refs key (h.refs + 1) b.stores }, h.budget)
]

-- `release`
unfoldable pub release : Key → Budget → Budget
release key b = elim (find key b.stores) [
  | none ↦ b
  | some h ↦
      if leb (h.refs - 1) 0
      then record b { stores = remove key b.stores }
      else record b { stores = set_refs key (h.refs - 1) b.stores }
]

-- The semaphores and the wakers that `acquire` uses, of every `StoreBudget`.
pub record Permits : Type 0 where
  pub host_capacity : ℕ
  pub store_capacity : ℕ
  pub host : ℕ
  pub host_wake : Waker
  pub sem : ℕ → ℕ
  pub store_wake : ℕ → Waker

abbrev pub update : (ℕ → ℕ) → ℕ → ℕ → ℕ → ℕ
update f s v t = if t == s then v else f t

-- `sb.sem <- struct{}{}`, where there is room.
unfoldable pub take_store : ℕ → Permits → Option Permits
take_store s p =
    if ltb (p.sem s) p.store_capacity
    then some (record p { sem = update p.sem s (p.sem s + 1) })
    else none

-- `sb.host <- struct{}{}`, where there is room.
unfoldable pub take_host : Permits → Option Permits
take_host p = if ltb p.host p.host_capacity then some (record p { host = p.host + 1 }) else none

-- `<-sb.sem; sb.storeWake.broadcast()`
unfoldable pub give_store : ℕ → Permits → Permits
unfolding broadcast
give_store s p = record p {
  sem = update p.sem s (p.sem s - 1);
  store_wake = update p.store_wake s (broadcast (p.store_wake s));
}

-- `<-sb.host; sb.hostWake.broadcast()`
unfoldable pub give_host : Permits → Permits
unfolding broadcast
give_host p = record p { host = p.host - 1; host_wake = broadcast p.host_wake }
