-- ===== src/Metadata/Delivery.antt =====
-- metadata/events.go: that the hub never panics, and what its subscribers get.
use sqls.Base.{
  All, All-append, Bool-cases, List, Option-cases, [], arith, false, if◌then◌else◌, inl, inr, map,
  refl, some, suc, true, zero, ℕ, ◌∷◌, ◌≡◌, ◌⊎◌,
}
use sqls.Metadata.Events.{
  Channel, Subscriber, Hub, close_listed, coalesce_send, send_all, ◌>>=◌, Operation, close_all,
  closed_all, empty_slot, new_event_hub, perform, publish, published_event, receive, received,
  run_all, subscribe, subscribed, unlist, unsubscribe, unsubscribed,
}

module _ (Event : Type 0) where
  -- The channel of a subscriber that is in the map is open.
  abbrev pub IsOpen : Subscriber Event → Type 0
  IsOpen s = s.listed ≡ true → s.channel.is_closed ≡ false

  abbrev pub AllOpen : Hub Event → Type 0
  AllOpen h = All IsOpen h.subs

  coalesce_send-open :
      (ev : Event) (ch : Channel Event)
      → ch.is_closed ≡ false
      → coalesce_send Event ev ch ≡ some (record ch { slot = some ev })
  unfolding coalesce_send
  coalesce_send-open ev ch h = elim (Option-cases ch.slot) [
    | inl empty ↦ ground arith
    | inr (old, full) ↦ ground arith
  ]

  -- What a subscriber has after an event is published.
  abbrev pub after_publish : Event → Subscriber Event → Subscriber Event
  after_publish ev s =
      if s.listed then record s { channel = record s.channel { slot = some ev } } else s

  send_all-map :
      (ev : Event) (ss : List (Subscriber Event))
      → All IsOpen ss
      → send_all Event ev ss ≡ some (map (after_publish ev) ss)
  unfolding send_all
  send_all-map ev [] o = refl
  send_all-map ev (s ∷ ss) o = elim (Bool-cases s.listed) [
    | inl on ↦ rw (on, coalesce_send-open ev s.channel (o.0 on), send_all-map ev ss o.1, ◌>>=◌) refl
    | inr off ↦ rw (off, send_all-map ev ss o.1, ◌>>=◌) refl
  ]

  after_close : Subscriber Event → Subscriber Event
  after_close s =
      if s.listed
      then record s { channel = record s.channel { is_closed = true }; listed = false }
      else s

  close_listed-map :
      (ss : List (Subscriber Event))
      → All IsOpen ss
      → close_listed Event ss ≡ some (map after_close ss)
  unfolding close_listed after_close
  close_listed-map [] o = refl
  close_listed-map (s ∷ ss) o = elim (Bool-cases s.listed) [
    | inl on ↦ rw (on, o.0 on, close_listed-map ss o.1, ◌>>=◌) refl
    | inr off ↦ rw (off, close_listed-map ss o.1, ◌>>=◌) refl
  ]

  -- Each operation keeps the channels of the listed subscribers open.
  subscribe-AllOpen : (h : Hub Event) → AllOpen h → AllOpen (subscribe Event h)
  unfolding subscribe
  subscribe-AllOpen h o = All-append _ h.subs _ o ((λ e. ground arith), tt)

  unlist-AllOpen :
      (i : ℕ) (ss : List (Subscriber Event)) → All IsOpen ss → All IsOpen (unlist Event i ss)
  unlist-AllOpen i [] o = tt
  unlist-AllOpen zero (s ∷ ss) o = ((λ e. cc), o.1)
  unlist-AllOpen (suc i) (s ∷ ss) o = (o.0, unlist-AllOpen i ss o.1)

  empty_slot-AllOpen :
      (i : ℕ) (ss : List (Subscriber Event)) → All IsOpen ss → All IsOpen (empty_slot Event i ss)
  empty_slot-AllOpen i [] o = tt
  empty_slot-AllOpen zero (s ∷ ss) o = (o.0, o.1)
  empty_slot-AllOpen (suc i) (s ∷ ss) o = (o.0, empty_slot-AllOpen i ss o.1)

  after_publish-AllOpen :
      (ev : Event) (ss : List (Subscriber Event))
      → All IsOpen ss
      → All IsOpen (map (after_publish ev) ss)
  after_publish-AllOpen ev [] o = tt
  after_publish-AllOpen ev (s ∷ ss) o = elim (Bool-cases s.listed) [
    | inl on ↦ ((λ e. rw on (o.0 on)), after_publish-AllOpen ev ss o.1)
    | inr off ↦ ((λ e. ground arith), after_publish-AllOpen ev ss o.1)
  ]

  after_close-AllOpen : (ss : List (Subscriber Event)) → All IsOpen (map after_close ss)
  unfolding after_close
  after_close-AllOpen [] = tt
  after_close-AllOpen (s ∷ ss) = ((λ e. ground arith), after_close-AllOpen ss)

  publish-map :
      (ev : Event) (h : Hub Event)
      → AllOpen h
      → publish Event ev h
        ≡ some (if h.closed then h else record h { subs = map (after_publish ev) h.subs })
  unfolding publish
  publish-map ev h o = elim (Bool-cases h.closed) [
    | inl shut ↦ rw shut refl
    | inr live ↦ rw (live, send_all-map ev h.subs o, ◌>>=◌) refl
  ]

  close_all-map :
      (h : Hub Event)
      → AllOpen h
      → close_all Event h ≡ some (record { subs = map after_close h.subs; closed = true })
  unfolding close_all
  close_all-map h o = rw (close_listed-map h.subs o, ◌>>=◌) refl

  Performs : Hub Event → Operation Event → Type 0
  Performs h o = (h' : Hub Event) × (perform Event o h ≡ some h') × AllOpen h'

  perform-total : (o : Operation Event) (h : Hub Event) → AllOpen h → Performs h o
  unfolding Performs unsubscribe receive
  perform-total subscribed h k = (subscribe Event h, refl, subscribe-AllOpen h k)
  perform-total (unsubscribed i) h k = (unsubscribe Event i h, refl, unlist-AllOpen i h.subs k)
  perform-total (received i) h k = (receive Event i h, refl, empty_slot-AllOpen i h.subs k)
  perform-total (published_event ev) h k = (_, publish-map ev h k, kept (Bool-cases h.closed))
    where
      kept :
          (h.closed ≡ true) ⊎ (h.closed ≡ false)
          → AllOpen (if h.closed then h else record h { subs = map (after_publish ev) h.subs })
      kept (inl shut) = rw shut k
      kept (inr live) = rw live (after_publish-AllOpen ev h.subs k)
  perform-total closed_all h k = (_, close_all-map h k, after_close-AllOpen h.subs)

  run_all-AllOpen :
      (os : List (Operation Event)) (h : Hub Event)
      → AllOpen h
      → (h' : Hub Event) × (run_all Event os h ≡ some h') × AllOpen h'
  unfolding run_all Performs
  run_all-AllOpen [] h k = (h, refl, k)
  run_all-AllOpen (o ∷ os) h k =
      let (h', e, k') = perform-total o h k in
      let (h'', e', k'') = run_all-AllOpen os h' k' in (h'', rw (e, ◌>>=◌) e', k'')

  -- No sequence of operations on a new hub panics, in whatever order subscriptions, reads,
  -- publications and closings come: there is no send to a closed channel and no second close; and
  -- one more publication leaves each subscriber that is in the map with that event to read and
  -- nothing else, any older one dropped, and changes no other subscriber and no closed hub.
  pub run_all-delivers :
      (os : List (Operation Event)) (ev : Event)
      → (h : Hub Event) × (run_all Event os (new_event_hub Event) ≡ some h)
        × (publish Event ev h
            ≡ some (if h.closed then h else record h { subs = map (after_publish ev) h.subs }))
  run_all-delivers os ev =
      let (h, e, k) = run_all-AllOpen os (new_event_hub Event) tt in (h, e, publish-map ev h k)
