-- ===== src/Metadata/Running.antt =====
-- metadata/budget.go: what holds of the permits of a new budget, whatever its callers do.
use sqls.Base.{All, List, [], arith, refl, sym, ℕ, ◌<◌, ◌∙◌, ◌∷◌, ◌≡◌, ◌≤◌}
use sqls.Metadata.Budget.{Budget, Permits, new_budget, take_store, give_host, give_store, take_host}
use sqls.Metadata.Permits.{
  Caller, IsBalanced, Reach, Step, Step-IsBalanced, World, cancel, enter, give_back_host,
  give_back_store, here, host_users, next, outside, run, store_users,
}

-- The permits that `NewBudget` and `ForStore` make.
abbrev pub new_permits : Budget → Permits
new_permits b = record {
  host_capacity = b.host_capacity;
  store_capacity = b.per_store;
  host = 0;
  host_wake = 0;
  sem = λ s. 0;
  store_wake = λ s. 0;
}

abbrev pub IsOutside : Caller → Type 0
IsOutside c = c.phase ≡ outside

abbrev pub start : ℕ → ℕ → List Caller → World
start host per_store callers = record {
  permits = new_permits (new_budget host per_store);
  callers = callers;
}

host_users-outside : (cs : List Caller) → All IsOutside cs → host_users cs ≡ 0
host_users-outside [] h = refl
host_users-outside (c ∷ cs) h = rw h.0 (omega (arith, host_users-outside cs h.1))

store_users-outside : (s : ℕ) (cs : List Caller) → All IsOutside cs → store_users s cs ≡ 0
store_users-outside s [] h = refl
store_users-outside s (c ∷ cs) h = rw h.0 (ground (arith, store_users-outside s cs h.1))

record HaveCapacities (h k : ℕ) (p : Permits) : Type 0 where
  hosts : p.host_capacity ≡ h
  stores : p.store_capacity ≡ k

Step-HaveCapacities :
    {w v : World} (h k : ℕ) → Step w v → HaveCapacities h k w.permits → HaveCapacities h k v.permits
unfolding take_store take_host give_store give_host
Step-HaveCapacities h k (enter front back s p e t) c =
    rw t.1 (record { hosts = ground (arith, c.hosts); stores = ground (arith, c.stores) })
Step-HaveCapacities h k (run front back s p e t) c =
    rw t.1 (record { hosts = ground (arith, c.hosts); stores = ground (arith, c.stores) })
Step-HaveCapacities h k (cancel front back s t) c =
    rw t.1 (record { hosts = c.hosts; stores = c.stores })
Step-HaveCapacities h k (give_back_host front back s t) c =
    rw t.1 (record { hosts = c.hosts; stores = c.stores })
Step-HaveCapacities h k (give_back_store front back s t) c =
    rw t.1 (record { hosts = c.hosts; stores = c.stores })

-- The worlds that a new budget gets to.
module _ (host per_store : ℕ) (callers : List Caller) (out : All IsOutside callers) where
  pub Reach-IsBalanced : {w : World} → Reach (start host per_store callers) w → IsBalanced w
  Reach-IsBalanced here = record {
    host_counted = sym (host_users-outside callers out);
    host_fits = omega arith;
    store_counted = λ s. sym (store_users-outside s callers out);
    store_fits = λ s. omega arith;
  }
  Reach-IsBalanced (next r s) = Step-IsBalanced s (Reach-IsBalanced r)

  Reach-HaveCapacities :
      {w : World}
      → Reach (start host per_store callers) w
      → HaveCapacities
          (new_budget host per_store).host_capacity
          (new_budget host per_store).per_store
          w.permits
  Reach-HaveCapacities here = record { hosts = refl; stores = refl }
  Reach-HaveCapacities (next r s) = Step-HaveCapacities _ _ s (Reach-HaveCapacities r)

  pub capacities-positive :
      {w : World}
      → Reach (start host per_store callers) w
      → (0 < w.permits.host_capacity) × (0 < w.permits.store_capacity)
  unfolding new_budget
  capacities-positive r = let c = Reach-HaveCapacities r in ground (arith, c.hosts, c.stores)

-- What the callers of a world hold.
pub record IsWithin (b : Budget) (w : World) : Type 0 where
  -- Native calls that run at once, in all and for a store.
  pub host_bound : host_users w.callers ≤ b.host_capacity
  pub store_bound : (s : ℕ) → store_users s w.callers ≤ b.per_store
  -- Where no caller is inside, no permit is in use.
  pub released : All IsOutside w.callers → (w.permits.host ≡ 0) × ((s : ℕ) → w.permits.sem s ≡ 0)

-- Whatever the callers of a new budget do, in any interleaving, from a start at which none is
-- inside: no more of them hold a permit of the host, or of a store, than the capacity given, and
-- once all are outside again no permit is in use.
pub Reach-IsWithin :
    (host per_store : ℕ) (callers : List Caller)
    → All IsOutside callers
    → {w : World} → Reach (start host per_store callers) w
    → IsWithin (new_budget host per_store) w
Reach-IsWithin host per_store callers out r =
    let b = Reach-IsBalanced host per_store callers out r in
    let c = Reach-HaveCapacities host per_store callers out r in
    record {
      host_bound = omega (arith, b.host_counted, b.host_fits, c.hosts);
      store_bound = λ s. omega (arith, b.store_counted s, b.store_fits s, c.stores);
      released = λ h. (
        b.host_counted ∙ host_users-outside _ h,
        λ s. b.store_counted s ∙ store_users-outside s _ h,
      );
    }
