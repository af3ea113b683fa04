-- ===== src/Tests/Metadata.antt =====
-- metadata: two callers of one store and a host with room for one, and the results at that run.
use sqls.Base.{All, List, [], none, refl, ◌∷◌, ◌≡◌}
use sqls.Metadata.Budget.{new_budget, take_store, take_host, update}
use sqls.Metadata.Permits.{
  Caller, Reach, World, at, enter, here, holds_both, holds_one, next, outside, run,
}
use sqls.Metadata.Running.{IsOutside, start, IsWithin, Reach-IsWithin}
use sqls.Metadata.Drain.{Onward, Reach-Onward}

abbrev two : List Caller
two = at 7 outside ∷ at 7 outside ∷ []

abbrev opened : World
opened = start 1 2 two

abbrev first_in : World
first_in = record {
  permits = record opened.permits { sem = update opened.permits.sem 7 1 };
  callers = at 7 holds_one ∷ at 7 outside ∷ [];
}

abbrev both_in : World
both_in = record {
  permits = record first_in.permits { sem = update first_in.permits.sem 7 2 };
  callers = at 7 holds_one ∷ at 7 holds_one ∷ [];
}

abbrev one_runs : World
one_runs = record {
  permits = record both_in.permits { host = 1 };
  callers = at 7 holds_one ∷ at 7 holds_both ∷ [];
}

Reach-one_runs : Reach opened one_runs
unfolding new_budget take_store take_host
Reach-one_runs =
    next
      (next (next here (enter [] (at 7 outside ∷ []) 7 first_in.permits refl (refl, refl)))
        (enter (at 7 holds_one ∷ []) [] 7 both_in.permits refl (refl, refl)))
      (run (at 7 holds_one ∷ []) [] 7 one_runs.permits refl (refl, refl))

-- The host is full.
take_host-one_runs : take_host one_runs.permits ≡ none
unfolding new_budget take_host
take_host-one_runs = refl

Reach-IsWithin_example : IsWithin (new_budget 1 2) one_runs
Reach-IsWithin_example = Reach-IsWithin 1 2 two (refl, (refl, tt)) Reach-one_runs

Reach-Onward_example : (v : World) × Onward one_runs v × All IsOutside v.callers
Reach-Onward_example = Reach-Onward 1 2 two (refl, (refl, tt)) Reach-one_runs
