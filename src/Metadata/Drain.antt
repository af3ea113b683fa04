-- ===== src/Metadata/Drain.antt =====
-- metadata/budget.go: that the callers of a budget never block one another for good.
use sqls.Base.{
  All, Bool, Bool-cases, List, [], ap, arith, false, inl, inr, ltb, refl, some, suc, true, zero, ℕ,
  ◌++◌, ◌+◌, ◌<◌, ◌∷◌, ◌≡◌, ◌≤◌,
}
use sqls.Metadata.Budget.{Permits, take_host, give_host, give_store}
use sqls.Metadata.Permits.{
  Caller, IsBalanced, Phase, Reach, Step, World, at, cancel, enter, give_back_host, give_back_store,
  holds_both, holds_one, host_users, next, outside, returning, run, host_held,
}
use sqls.Metadata.Running.{IsOutside, Reach-IsBalanced, capacities-positive, start}

-- Steps of callers that are inside, and none of them a cancellation.
abbrev pub is_onward : {w v : World} → Step w v → Bool
is_onward (enter front back s p e t) = false
is_onward (run front back s p e t) = true
is_onward (cancel front back s t) = false
is_onward (give_back_host front back s t) = true
is_onward (give_back_store front back s t) = true

pub data Onward : World → World → Type 0 where
  stay : {w : World} → Onward w w
  go : {w v u : World} (s : Step w v) → is_onward s ≡ true → Onward v u → Onward w u

-- The steps that a caller still has to take.
abbrev left : Phase → ℕ
left outside = 0
left holds_one = 3
left holds_both = 2
left returning = 1

abbrev work : List Caller → ℕ
work [] = 0
work (c ∷ cs) = left c.phase + work cs

work-append : (xs ys : List Caller) → work (xs ++ ys) ≡ work xs + work ys
work-append [] ys = omega arith
work-append (c ∷ xs) ys = omega (arith, work-append xs ys)

work-turn :
    (front back : List Caller) (s : ℕ) (from to : Phase)
    → work (front ++ at s to ∷ back) + left from ≡ work (front ++ at s from ∷ back) + left to
work-turn front back s from to =
    omega (arith, work-append front (at s to ∷ back), work-append front (at s from ∷ back))

work-zero : (cs : List Caller) → work cs ≡ 0 → All IsOutside cs
work-zero [] h = tt
work-zero (c ∷ cs) h = (idle c.phase (omega arith), work-zero cs (omega arith))
  where
    idle : (ph : Phase) → left ph ≡ 0 → ph ≡ outside
    idle outside e = refl
    idle holds_one e = cc
    idle holds_both e = cc
    idle returning e = cc

-- Where a caller stands in a list.
abbrev Stands : List Caller → Phase → Type 0
Stands cs ph =
    (front : List Caller) × (back : List Caller) × (s : ℕ) × (cs ≡ front ++ at s ph ∷ back)

Stands-cons : (c : Caller) (cs : List Caller) (ph : Phase) → Stands cs ph → Stands (c ∷ cs) ph
Stands-cons c cs ph (front, back, s, e) = (c ∷ front, back, s, ap (λ l. c ∷ l) e)

busy : (cs : List Caller) → 0 < work cs → (ph : Phase) × Stands cs ph × (0 < left ph)
busy [] h = absurd (omega arith)
busy (c ∷ cs) h = elim (Bool-cases (ltb 0 (left c.phase))) [
  | inl moves ↦ (c.phase, ([], cs, c.store, refl), ground arith)
  | inr idle ↦ let (ph, st, p) = busy cs (ground arith) in (ph, Stands-cons c cs ph st, p)
]

user-first :
    (c : Caller) (cs : List Caller) (ph : Phase)
    → ph ≡ c.phase
    → (host_held c.phase ≡ 0 → Stands cs holds_both)
    → Stands (c ∷ cs) holds_both
user-first c cs outside e later = Stands-cons c cs holds_both (later (rw (← e) refl))
user-first c cs holds_one e later = Stands-cons c cs holds_both (later (rw (← e) refl))
user-first c cs returning e later = Stands-cons c cs holds_both (later (rw (← e) refl))
user-first c cs holds_both e later = ([], cs, c.store, rw e refl)

user : (cs : List Caller) → 0 < host_users cs → Stands cs holds_both
user [] h = absurd (omega arith)
user (c ∷ cs) h = user-first c cs c.phase refl (λ e. user cs (omega arith))

-- A step onward, with less work left.
abbrev Goes : World → Type 0
Goes w = (v : World) × (s : Step w v) × (is_onward s ≡ true) × (work v.callers < work w.callers)

give-Goes : (w : World) → Stands w.callers holds_both → Goes w
give-Goes w (front, back, s, e) = (
  record { permits = give_host w.permits; callers = front ++ at s returning ∷ back },
  give_back_host front back s (e, refl),
  refl,
  omega (arith, work-turn front back s holds_both returning, ap work e),
)

store-Goes : (w : World) → Stands w.callers returning → Goes w
store-Goes w (front, back, s, e) = (
  record { permits = give_store s w.permits; callers = front ++ at s outside ∷ back },
  give_back_store front back s (e, refl),
  refl,
  omega (arith, work-turn front back s returning outside, ap work e),
)

room : (p : Permits) → p.host < p.host_capacity → (q : Permits) × (take_host p ≡ some q)
unfolding take_host
room p h = (record p { host = p.host + 1 }, ground arith)

run-Goes :
    (w : World) → IsBalanced w → 0 < w.permits.host_capacity → Stands w.callers holds_one → Goes w
run-Goes w b pos (front, back, s, e) =
    elim (Bool-cases (ltb w.permits.host w.permits.host_capacity)) [
      | inl free ↦
          let (q, t) = room w.permits (ground arith) in
          (
            record { permits = q; callers = front ++ at s holds_both ∷ back },
            run front back s q t (e, refl),
            refl,
            omega (arith, work-turn front back s holds_one holds_both, ap work e),
          )
      | inr full ↦ give-Goes w (user w.callers (ground (arith, b.host_counted)))
    ]

busy-Goes :
    (w : World) (ph : Phase)
    → IsBalanced w
    → 0 < w.permits.host_capacity
    → Stands w.callers ph
    → 0 < left ph
    → Goes w
busy-Goes w outside b pos st h = absurd (omega arith)
busy-Goes w holds_one b pos st h = run-Goes w b pos st
busy-Goes w holds_both b pos st h = give-Goes w st
busy-Goes w returning b pos st h = store-Goes w st

module _ (host per_store : ℕ) (callers : List Caller) (out : All IsOutside callers) where
  drain :
      (f : ℕ) {w : World}
      → work w.callers ≤ f
      → Reach (start host per_store callers) w
      → (v : World) × Onward w v × All IsOutside v.callers
  drain zero {w} h r = (w, stay, work-zero w.callers (omega arith))
  drain (suc f) {w} h r = elim (Bool-cases (ltb 0 (work w.callers))) [
    | inr none_busy ↦ (w, stay, work-zero w.callers (ground arith))
    | inl some_busy ↦
        let (ph, st, p) = busy w.callers (ground arith) in
        let (v, s, o, less) =
          busy-Goes w ph (Reach-IsBalanced host per_store callers out r)
            (capacities-positive host per_store callers out r).0 st p in
        let (u, on, all) = drain f {w = v} (omega arith) (next r s) in (u, go s o on, all)
  ]

-- From every world that a new budget gets to, steps of the callers that are inside lead to a world
-- with all callers outside: the calls that wait for a permit of the host get it, with no
-- cancellation.
pub Reach-Onward :
    (host per_store : ℕ) (callers : List Caller)
    → All IsOutside callers
    → {w : World} → Reach (start host per_store callers) w
    → (v : World) × Onward w v × All IsOutside v.callers
Reach-Onward host per_store callers out {w} r =
    drain host per_store callers out (work w.callers) {w = w} (omega arith) r
