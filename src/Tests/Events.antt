-- ===== src/Tests/Events.antt =====
-- metadata/events.go: a hub with a slow reader, a reader that leaves and a late subscriber.
use sqls.Base.{List, Option, [], if◌then◌else◌, map, none, refl, some, ℕ, ◌∷◌, ◌≡◌}
use sqls.Metadata.Events.{
  Hub, Operation, publish, run_all, new_event_hub, coalesce_send, published_event, send_all,
  subscribe, subscribed, unsubscribe, unsubscribed,
}
use sqls.Metadata.Delivery.{after_publish, run_all-delivers}

abbrev busy_hub : List (Operation ℕ)
busy_hub =
    subscribed
    ∷ subscribed
    ∷ published_event 1
    ∷ unsubscribed 1
    ∷ published_event 2
    ∷ subscribed
    ∷ []

run_all-delivers_example :
    (h : Hub ℕ) × (run_all ℕ busy_hub (new_event_hub ℕ) ≡ some h)
    × (publish ℕ 3 h
        ≡ some (if h.closed then h else record h { subs = map (after_publish ℕ 3) h.subs }))
run_all-delivers_example = run_all-delivers ℕ busy_hub 3

-- The first reader has the second event only, the one that left keeps the first, the last has none.
slots : Option (Hub ℕ) → List (Option ℕ)
slots none = []
slots (some h) = map (λ s. s.channel.slot) h.subs

slots-busy_hub : slots (run_all ℕ busy_hub (new_event_hub ℕ)) ≡ some 2 ∷ some 1 ∷ none ∷ []
unfolding slots run_all subscribe unsubscribe publish send_all coalesce_send
slots-busy_hub = refl
