-- ===== src/Metadata/Events.antt =====
-- metadata/events.go: the hub that passes a store's events on. A subscriber is its place among those
-- made so far, `listed` tells whether it is in the map `subs`, and a lock is held for the whole of each
-- operation. The hub does not look into an event. `none` is a panic: a send to a closed channel, or a
-- second `close`.
use sqls.Base.{
  Bool, List, Option, [], false, if◌then◌else◌, none, not, some, suc, true, zero, ℕ, ◌++◌, ◌∷◌,
}

infixl 5 ◌>>=◌
abbrev pub ◌>>=◌ : {A B : Type 0} → Option A → (A → Option B) → Option B
none >>= later = none
some a >>= later = later a

module _ (Event : Type 0) where
  -- A channel of capacity one.
  pub record Channel : Type 0 where
    pub slot : Option Event
    pub is_closed : Bool

  pub record Subscriber : Type 0 where
    pub channel : Channel
    pub listed : Bool

  pub record Hub : Type 0 where
    pub subs : List Subscriber
    pub closed : Bool

  abbrev pub new_event_hub : Hub
  new_event_hub = record { subs = []; closed = false }

  unfoldable pub subscribe : Hub → Hub
  subscribe h = record h {
    subs =
        h.subs
        ++ (record {
          channel = record { slot = none; is_closed = h.closed };
          listed = not h.closed;
        })
          ∷ [];
  }

  abbrev pub unlist : ℕ → List Subscriber → List Subscriber
  unlist i [] = []
  unlist zero (s ∷ ss) = record s { listed = false } ∷ ss
  unlist (suc i) (s ∷ ss) = s ∷ unlist i ss

  unfoldable pub unsubscribe : ℕ → Hub → Hub
  unsubscribe i h = record h { subs = unlist i h.subs }

  -- The loop of `coalesceSend`: a round that finds the channel full takes the event out.
  abbrev pub coalesce_rounds : ℕ → Event → Channel → Option Channel
  coalesce_rounds zero ev ch = none
  coalesce_rounds (suc fuel) ev ch =
      let again = coalesce_rounds fuel ev (record ch { slot = none }) in
      if ch.is_closed
      then none
      else elim ch.slot [ none ↦ some (record ch { slot = some ev }) | some old ↦ again ]

  unfoldable pub coalesce_send : Event → Channel → Option Channel
  coalesce_send ev ch = coalesce_rounds 2 ev ch

  -- The loops over `subs`.
  unfoldable pub send_all : Event → List Subscriber → Option (List Subscriber)
  unfolding coalesce_send
  send_all ev [] = some []
  send_all ev (s ∷ ss) =
      let rest = send_all ev ss in
      if s.listed
      then (do
        ch ← coalesce_send ev s.channel
        more ← rest
        some (record s { channel = ch } ∷ more))
      else (do more ← rest; some (s ∷ more))

  unfoldable pub close_listed : List Subscriber → Option (List Subscriber)
  close_listed [] = some []
  close_listed (s ∷ ss) =
      let rest = close_listed ss in
      if s.listed
      then (if s.channel.is_closed then none else (do
        more ← rest
        some (record s { channel = record s.channel { is_closed = true }; listed = false } ∷ more)))
      else (do more ← rest; some (s ∷ more))

  unfoldable pub publish : Event → Hub → Option Hub
  unfolding send_all
  publish ev h =
      if h.closed then some h else (do subs ← send_all ev h.subs; some (record h { subs = subs }))

  unfoldable pub close_all : Hub → Option Hub
  unfolding close_listed
  close_all h = do subs ← close_listed h.subs; some (record { subs = subs; closed = true })

  -- A subscriber reads its channel.
  abbrev pub empty_slot : ℕ → List Subscriber → List Subscriber
  empty_slot i [] = []
  empty_slot zero (s ∷ ss) = record s { channel = record s.channel { slot = none } } ∷ ss
  empty_slot (suc i) (s ∷ ss) = s ∷ empty_slot i ss

  unfoldable pub receive : ℕ → Hub → Hub
  receive i h = record h { subs = empty_slot i h.subs }

  pub data Operation : Type 0 where
    subscribed closed_all : Operation
    unsubscribed received : ℕ → Operation
    published_event : Event → Operation

  abbrev pub perform : Operation → Hub → Option Hub
  perform subscribed h = some (subscribe h)
  perform (unsubscribed i) h = some (unsubscribe i h)
  perform (received i) h = some (receive i h)
  perform (published_event ev) h = publish ev h
  perform closed_all h = close_all h

  unfoldable pub run_all : List Operation → Hub → Option Hub
  run_all [] h = some h
  run_all (o ∷ os) h = do h' ← perform o h; run_all os h'
