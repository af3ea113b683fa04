-- ===== src/Diagnostics/Drained.antt =====
-- internal/handler/diagnostics_scheduler.go: the consumer and the callers' signals alone get through
-- all queued work.
use sqls.Base.{
  Bool, Bool-cases, List, [], ap, arith, contains, false, inl, inr, is_empty, ltb, not, refl, some,
  true, ◌++◌, ◌+◌, ◌<◌, ◌||◌, ◌∙◌, ◌∷◌, ◌≡◌,
}
use sqls.Diagnostics.Queue.{Work, pending, Uri, no_work, taken_documents}
use sqls.Diagnostics.Steps.{
  Phase, World, Step, consume, signal, act, all_queued, asleep, awake, checking, consumed,
  document_queued, left, publishing, queue_all, queue_document, shut_down, signalled, stopped,
  Event, Reach, all_files, file, here, next, opened,
}
use sqls.Diagnostics.Kept.{owed, published, Reach-Keeps, Step-cancelled, held}

-- Whoever queues work goes on to signal, and the consumer does what it has to do: no new work.
pub data Onward : World → World → Type 0 where
  stay : {w : World} → Onward w w
  send : {w v : World} → 0 < w.due → Onward (signal w) v → Onward w v
  go : {w v u : World} → consume w ≡ some v → Onward v u → Onward w u

-- Queued work is under way: the consumer is awake, or it will be woken.
abbrev is_safe : World → Phase → Bool
is_safe w asleep = not (pending w.work) || w.wake || ltb 0 w.due
is_safe w stopped = false
is_safe w awake = true
is_safe w checking = true
is_safe w (publishing all us) = true

-- The steps of the callers leave the consumer where it is.
marked-is_safe :
    (w : World) (ph : Phase) (k : Work)
    → is_safe w ph ≡ true
    → is_safe (record w { work = k; due = w.due + 1 }) ph ≡ true
marked-is_safe w asleep k h = ground arith
marked-is_safe w awake k h = refl
marked-is_safe w checking k h = refl
marked-is_safe w stopped k h = h
marked-is_safe w (publishing all us) k h = refl

signal-is_safe :
    (w : World) (ph : Phase)
    → w.cancelled ≡ false
    → is_safe w ph ≡ true
    → is_safe (signal w) ph ≡ true
unfolding signal
signal-is_safe w asleep c h = ground arith
signal-is_safe w awake c h = refl
signal-is_safe w checking c h = refl
signal-is_safe w stopped c h = h
signal-is_safe w (publishing all us) c h = refl

act-is_safe :
    (ph : Phase) (w v : World) → act ph w ≡ some v → v.cancelled ≡ false → is_safe v v.phase ≡ true
act-is_safe asleep w v e c = ground arith
act-is_safe awake w v e c = ground arith
act-is_safe checking w v e c = ground arith
act-is_safe stopped w v e c = cc
act-is_safe (publishing true us) w v e c = ground arith
act-is_safe (publishing false []) w v e c = ground arith
act-is_safe (publishing false (x ∷ us)) w v e c = ground arith

Step-is_safe :
    {w v : World}
    → Step w v
    → v.cancelled ≡ false
    → is_safe w w.phase ≡ true
    → is_safe v v.phase ≡ true
unfolding queue_document queue_all signal consume
Step-is_safe {w} {v} (document_queued x e) c h =
    rw e (marked-is_safe w w.phase (queue_document x w).work h)
Step-is_safe {w} {v} (all_queued e) c h = rw e (marked-is_safe w w.phase (queue_all w).work h)
Step-is_safe {w} {v} (signalled d e) c h =
    rw e (signal-is_safe w w.phase (Step-cancelled (signalled d e) c) h)
Step-is_safe {w} {v} (consumed e) c h = act-is_safe w.phase w v e c
Step-is_safe {w} {v} (left p d e) c h = absurd (ground arith)
Step-is_safe {w} {v} (shut_down e) c h = absurd (ground arith)

Reach-is_safe : {w : World} → Reach opened w → w.cancelled ≡ false → is_safe w w.phase ≡ true
unfolding pending
Reach-is_safe here c = refl
Reach-is_safe (next r s) c = Step-is_safe s c (Reach-is_safe r (Step-cancelled s c))

Onward-append : {w v u : World} → Onward w v → Onward v u → Onward w u
Onward-append stay o = o
Onward-append (send d p) o = send d (Onward-append p o)
Onward-append (go e p) o = go e (Onward-append p o)

Onward-Reach : {w v u : World} → Reach w v → Onward v u → Reach w u
Onward-Reach r stay = r
Onward-Reach r (send d o) = Onward-Reach (next r (signalled d refl)) o
Onward-Reach r (go e o) = Onward-Reach (next r (consumed e)) o

consume-act : (w : World) (ph : Phase) → w.phase ≡ ph → consume w ≡ act ph w
unfolding consume
consume-act w ph p = ap (λ x. act x w) p

-- A world to which the consumer gets, with the queued work given.
abbrev Gets : World → Phase → Work → Type 0
Gets w ph k = (v : World) × Onward w v × (v.phase ≡ ph) × (v.work ≡ k) × (v.cancelled ≡ false)

publishing-Gets :
    (all : Bool) (us : List Uri) (w : World)
    → w.cancelled ≡ false
    → w.phase ≡ publishing all us
    → Gets w checking w.work
publishing-Gets true us w c p = (
  record w { phase = checking; log = w.log ++ all_files ∷ [] },
  go (consume-act w _ p) stay,
  refl,
  refl,
  c,
)
publishing-Gets false [] w c p =
    (record w { phase = checking }, go (consume-act w _ p) stay, refl, refl, c)
publishing-Gets false (u ∷ us) w c p =
    let w' = record w { phase = publishing false us; log = w.log ++ file u ∷ [] } in
    let (v, o, q, k, d) = publishing-Gets false us w' c refl in
    (v, go (consume-act w (publishing false (u ∷ us)) p ∙ rw c refl) o, q, k, d)

-- The consumer sleeps and there is no work.
abbrev pub Rests : World → Type 0
Rests w = (w.phase ≡ asleep) × (pending w.work ≡ false)

-- Calls and signals alone lead to such a world.
abbrev Settles : World → Type 0
Settles w = (v : World) × Onward w v × Rests v × (v.cancelled ≡ false)

checked-Settles :
    (w : World) → w.cancelled ≡ false → w.phase ≡ checking → pending w.work ≡ false → Settles w
checked-Settles w c p k =
    (record w { phase = asleep }, go (consume-act w checking p ∙ rw k refl) stay, (refl, k), c)

awake-Settles : (w : World) → w.cancelled ≡ false → w.phase ≡ awake → Settles w
unfolding pending
awake-Settles w c p =
    let w' = record w {
      work = no_work;
      phase = publishing w.work.all_open (taken_documents w.work);
    } in
    let (v, o, q, k, d) = publishing-Gets w.work.all_open (taken_documents w.work) w' c refl in
    let (u, s, r, e) = checked-Settles v d q (rw k refl) in
    (u, go (consume-act w awake p) (Onward-append o s), r, e)

checking-Settles : (w : World) → w.cancelled ≡ false → w.phase ≡ checking → Settles w
checking-Settles w c p = elim (Bool-cases (pending w.work)) [
  | inr none_left ↦ checked-Settles w c p none_left
  | inl more ↦
      let (v, o, r, d) = awake-Settles (record w { phase = awake }) c refl in
      (v, go (consume-act w checking p ∙ rw more refl) o, r, d)
]

woken-Settles : (w : World) → w.cancelled ≡ false → w.phase ≡ asleep → w.wake ≡ true → Settles w
woken-Settles w c p k =
    let (v, o, r, d) = awake-Settles (record w { wake = false; phase = awake }) c refl in
    (v, go (consume-act w asleep p ∙ rw k refl) o, r, d)

signal-Settles : (w : World) → w.cancelled ≡ false → w.phase ≡ asleep → 0 < w.due → Settles w
unfolding signal
signal-Settles w c p k =
    let (v, o, r, d) = woken-Settles (signal w) c p (rw c refl) in (v, send k o, r, d)

asleep-Settles :
    (w : World) → w.cancelled ≡ false → w.phase ≡ asleep → is_safe w asleep ≡ true → Settles w
asleep-Settles w c p h = elim (Bool-cases (pending w.work)) [
  | inr none_left ↦ (w, stay, (p, none_left), c)
  | inl more ↦ elim (Bool-cases w.wake) [
    | inl woken ↦ woken-Settles w c p woken
    | inr quiet ↦ signal-Settles w c p (ground arith)
  ]
]

settle :
    (ph : Phase) (w : World) → w.cancelled ≡ false → w.phase ≡ ph → is_safe w ph ≡ true → Settles w
settle asleep w c p h = asleep-Settles w c p h
settle awake w c p h = awake-Settles w c p
settle checking w c p h = checking-Settles w c p
settle stopped w c p h = cc
settle (publishing all us) w c p h =
    let (v, o, q, k, d) = publishing-Gets all us w c p in
    let (u, s, r, e) = checking-Settles v d q in (u, Onward-append o s, r, e)

Rests-owed : (v : World) (u : Uri) → Rests v → owed u v ≡ false
unfolding pending
Rests-owed v u (p, k) = rw (ap (λ ph. held ph u) p) (no_documents v.work.documents (ground arith))
  where
    no_documents :
        (us : List Uri)
        → (v.work.all_open || not (is_empty us)) ≡ false
        → (v.work.all_open || contains us u) ≡ false
    no_documents [] e = e
    no_documents (x ∷ us) e = ground arith

-- In every world that the server gets to before it is shut down, the consumer's own actions and the
-- signals that callers still owe lead, with no new work, to a world where the consumer sleeps and no
-- work is queued; on the way every document that was owed is published, by itself or as one of all.
pub Reach-Published :
    {w : World}
    → Reach opened w
    → w.cancelled ≡ false
    → (v : World) × (new : List Event) × Onward w v
      × Rests v
      × (v.log ≡ w.log ++ new)
      × ((u : Uri) → owed u w ≡ true → published u new ≡ true)
Reach-Published {w} r c =
    let (v, o, (q, k), d) = settle w.phase w c refl (Reach-is_safe r c) in
    let (new, l, kept) = Reach-Keeps (Onward-Reach here o) d in
    (v, new, o, (q, k), l, λ u h. ground (arith, kept u h, Rests-owed v u (q, k)))
