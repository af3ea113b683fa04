-- ===== src/Metadata/Permits.antt =====
-- metadata/budget.go: callers of `acquire` and of its release function, in any interleaving.
use sqls.Base.{List, [], arith, if◌then◌else◌, some, ℕ, ◌++◌, ◌+◌, ◌==◌, ◌∷◌, ◌≡◌, ◌≤◌}
use sqls.Metadata.Budget.{Permits, give_host, give_store, take_host, take_store}

-- Where a caller is: outside; between the two `select`s, with a store's permit; with both permits,
-- until its native call has returned; in the release function, behind `<-sb.host`.
pub data Phase : Type 0 where
  outside holds_one holds_both returning : Phase

pub record Caller : Type 0 where
  pub store : ℕ
  pub phase : Phase

pub record World : Type 0 where
  pub permits : Permits
  pub callers : List Caller

abbrev pub at : ℕ → Phase → Caller
at s ph = record { store = s; phase = ph }

-- One caller goes from one phase to another, and the permits change.
abbrev Turns : World → World → List Caller → List Caller → ℕ → Phase → Phase → Permits → Type 0
Turns w v front back s from to p =
    (w.callers ≡ front ++ at s from ∷ back)
    × (v ≡ record { permits = p; callers = front ++ at s to ∷ back })

-- The atomic steps of `acquire` and of the function that it returns. A `select` that ends by
-- `ctx.Done()` before the first permit leaves everything as it is.
pub data Step (w v : World) : Type 0 where
  enter :
      (front back : List Caller) (s : ℕ) (p : Permits)
      → take_store s w.permits ≡ some p
      → Turns w v front back s outside holds_one p
      → Step w v
  run :
      (front back : List Caller) (s : ℕ) (p : Permits)
      → take_host w.permits ≡ some p
      → Turns w v front back s holds_one holds_both p
      → Step w v
  cancel :
      (front back : List Caller) (s : ℕ)
      → Turns w v front back s holds_one outside (give_store s w.permits)
      → Step w v
  give_back_host :
      (front back : List Caller) (s : ℕ)
      → Turns w v front back s holds_both returning (give_host w.permits)
      → Step w v
  give_back_store :
      (front back : List Caller) (s : ℕ)
      → Turns w v front back s returning outside (give_store s w.permits)
      → Step w v

pub data Reach (w : World) : World → Type 0 where
  here : Reach w w
  next : {v u : World} → Reach w v → Step v u → Reach w u

-- The permits that a caller has.
abbrev pub host_held : Phase → ℕ
host_held holds_both = 1
host_held _ = 0

abbrev pub store_held : Phase → ℕ
store_held outside = 0
store_held _ = 1

abbrev pub store_part : ℕ → Caller → ℕ
store_part s c = if c.store == s then store_held c.phase else 0

abbrev pub host_users : List Caller → ℕ
host_users [] = 0
host_users (c ∷ cs) = host_held c.phase + host_users cs

abbrev pub store_users : ℕ → List Caller → ℕ
store_users s [] = 0
store_users s (c ∷ cs) = store_part s c + store_users s cs

host_users-append : (xs ys : List Caller) → host_users (xs ++ ys) ≡ host_users xs + host_users ys
host_users-append [] ys = omega arith
host_users-append (c ∷ xs) ys = omega (arith, host_users-append xs ys)

store_users-append :
    (s : ℕ) (xs ys : List Caller) → store_users s (xs ++ ys) ≡ store_users s xs + store_users s ys
store_users-append s [] ys = omega arith
store_users-append s (c ∷ xs) ys = omega (arith, store_users-append s xs ys)

-- Every permit in use is held by a caller, and none is in use beyond the capacity.
pub record IsBalanced (w : World) : Type 0 where
  pub host_counted : w.permits.host ≡ host_users w.callers
  pub host_fits : w.permits.host ≤ w.permits.host_capacity
  pub store_counted : (s : ℕ) → w.permits.sem s ≡ store_users s w.callers
  pub store_fits : (s : ℕ) → w.permits.sem s ≤ w.permits.store_capacity

-- The counts of a list in which one caller has another phase.
module _ (front back : List Caller) (s : ℕ) (from to : Phase) where
  host-turn :
      host_users (front ++ at s to ∷ back) + host_held from
      ≡ host_users (front ++ at s from ∷ back) + host_held to
  host-turn =
      omega (
        arith,
        host_users-append front (at s to ∷ back),
        host_users-append front (at s from ∷ back),
      )

  store-turn :
      (t : ℕ)
      → store_users t (front ++ at s to ∷ back) + store_part t (at s from)
        ≡ store_users t (front ++ at s from ∷ back) + store_part t (at s to)
  store-turn t = omega (
    arith,
    store_users-append t front (at s to ∷ back),
    store_users-append t front (at s from ∷ back),
  )

-- The permits `q` count what they should after the turn.
turn-IsBalanced :
    (w v : World) (front back : List Caller) (s : ℕ) (from to : Phase) (q : Permits)
    → IsBalanced w
    → Turns w v front back s from to q
    → (q.host + host_held from ≡ w.permits.host + host_held to)
    → (q.host ≤ q.host_capacity)
    → ((t : ℕ) → q.sem t + store_part t (at s from) ≡ w.permits.sem t + store_part t (at s to))
    → ((t : ℕ) → q.sem t ≤ q.store_capacity)
    → IsBalanced v
turn-IsBalanced w v front back s from to q b (before, after) h hf k kf = rw after (record {
  host_counted = omega (arith, h, host-turn front back s from to, rw before at b.host_counted);
  host_fits = hf;
  store_counted =
      λ t. omega (arith, k t, store-turn front back s from to t, rw before at (b.store_counted t));
  store_fits = kf;
})

-- What a caller has is counted.
module _ (front back : List Caller) (s : ℕ) (ph : Phase) where
  host-holder : host_held ph ≤ host_users (front ++ at s ph ∷ back)
  host-holder = omega (arith, host_users-append front (at s ph ∷ back))

  store-holder : (t : ℕ) → store_part t (at s ph) ≤ store_users t (front ++ at s ph ∷ back)
  store-holder t = omega (arith, store_users-append t front (at s ph ∷ back))

pub Step-IsBalanced : {w v : World} → Step w v → IsBalanced w → IsBalanced v
unfolding take_store take_host give_store give_host
Step-IsBalanced {w} {v} (enter front back s p e t) b =
    turn-IsBalanced w v front back s outside holds_one p b t (ground arith)
      (ground (arith, b.host_fits)) (λ u. ground arith) (λ u. ground (arith, b.store_fits u))
Step-IsBalanced {w} {v} (run front back s p e t) b =
    turn-IsBalanced w v front back s holds_one holds_both p b t (ground arith)
      (ground (arith, b.host_fits)) (λ u. ground arith) (λ u. ground (arith, b.store_fits u))
Step-IsBalanced {w} {v} (cancel front back s t) b =
    turn-IsBalanced w v front back s holds_one outside (give_store s w.permits) b t (omega arith)
      b.host_fits
      (λ u. ground (arith, store-holder front back s holds_one u, rw t.0 at (b.store_counted u)))
      (λ u. ground (arith, b.store_fits u))
Step-IsBalanced {w} {v} (give_back_host front back s t) b =
    turn-IsBalanced w v front back s holds_both returning (give_host w.permits) b t
      (omega (arith, host-holder front back s holds_both, rw t.0 at b.host_counted))
      (omega (arith, b.host_fits)) (λ u. ground arith) b.store_fits
Step-IsBalanced {w} {v} (give_back_store front back s t) b =
    turn-IsBalanced w v front back s returning outside (give_store s w.permits) b t (omega arith)
      b.host_fits
      (λ u. ground (arith, store-holder front back s returning u, rw t.0 at (b.store_counted u)))
      (λ u. ground (arith, b.store_fits u))
