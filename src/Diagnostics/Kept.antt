-- ===== src/Diagnostics/Kept.antt =====
-- internal/handler/diagnostics_scheduler.go: no queued document is lost before the server is shut
-- down, and the consumer never sleeps over queued work that nothing will wake it for.
use sqls.Base.{
  Bool, List, [], ap, append-nil, append_assoc, arith, contains, eqb, false, inl, inr, refl, some,
  sym, true, ◌++◌, ◌||◌, ◌∙◌, ◌∷◌, ◌≡◌, ◌⊎◌,
}
use sqls.Diagnostics.Queue.{Uri, contains-insert, contains-taken_documents, contains-insert_self}
use sqls.Diagnostics.Steps.{
  Phase, Event, World, all_files, asleep, awake, checking, consume, file, publishing, queue_all,
  queue_document, stopped, Reach, Step, act, all_queued, consumed, document_queued, here, left,
  next, shut_down, signal, signalled,
}

-- The consumer has taken the document and not yet published it.
abbrev pub held : Phase → Uri → Bool
held asleep u = false
held awake u = false
held checking u = false
held stopped u = false
held (publishing all us) u = all || contains us u

-- The document is queued or held, by itself or as one of all.
abbrev pub owed : Uri → World → Bool
owed u w = held w.phase u || w.work.all_open || contains w.work.documents u

abbrev pub answers : Uri → Event → Bool
answers u all_files = true
answers u (file v) = eqb v u

-- The document is published by some of the events.
abbrev pub published : Uri → List Event → Bool
published u [] = false
published u (e ∷ es) = answers u e || published u es

pub published-append :
    (u : Uri) (xs ys : List Event) → published u (xs ++ ys) ≡ (published u xs || published u ys)
published-append u [] ys = refl
published-append u (e ∷ xs) ys = ground (arith, published-append u xs ys)

-- What became of the documents that were owed.
abbrev pub Keeps : World → World → Type 0
Keeps w v =
    (new : List Event) × (v.log ≡ w.log ++ new)
    × ((u : Uri) → owed u w ≡ true → (owed u v || published u new) ≡ true)

document_queued-Keeps : (x : Uri) (w : World) → Keeps w (queue_document x w)
unfolding queue_document
document_queued-Keeps x w =
    ([], sym (append-nil w.log), λ u h. ground (arith, contains-insert x u w.work.documents))

all_queued-Keeps : (w : World) → Keeps w (queue_all w)
unfolding queue_all
all_queued-Keeps w = ([], sym (append-nil w.log), λ u h. ground arith)

consumed-Keeps :
    (ph : Phase) (w v : World) → w.phase ≡ ph → consume w ≡ some v → v.cancelled ≡ false → Keeps w v
unfolding consume
consumed-Keeps asleep w v p e c =
    let a = rw p at e in ([], ground (arith, append-nil w.log), λ u h. ground arith)
consumed-Keeps awake w v p e c =
    let a = rw p at e in
    ([], ground (arith, append-nil w.log), λ u h. ground (arith, contains-taken_documents w.work u))
consumed-Keeps checking w v p e c =
    let a = rw p at e in ([], ground (arith, append-nil w.log), λ u h. ground arith)
consumed-Keeps stopped w v p e c = let a = rw p at e in cc
consumed-Keeps (publishing true us) w v p e c =
    let a = rw p at e in (all_files ∷ [], ground arith, λ u h. ground arith)
consumed-Keeps (publishing false []) w v p e c =
    let a = rw p at e in ([], ground (arith, append-nil w.log), λ u h. ground arith)
consumed-Keeps (publishing false (x ∷ us)) w v p e c =
    let a = rw p at e in (file x ∷ [], ground arith, λ u h. ground arith)

same-Keeps :
    (w v : World)
    → v.log ≡ w.log
    → v.work ≡ w.work
    → ((u : Uri) → held w.phase u ≡ held v.phase u)
    → Keeps w v
same-Keeps w v l k p = (
  [],
  l ∙ sym (append-nil w.log),
  λ u h. ground (arith, p u, ap (λ x. x.all_open) k, ap (λ x. contains x.documents u) k),
)

Step-Keeps : {w v : World} → Step w v → v.cancelled ≡ false → Keeps w v
unfolding signal
Step-Keeps {w} {v} (document_queued x e) c = rw e (document_queued-Keeps x w)
Step-Keeps {w} {v} (all_queued e) c = rw e (all_queued-Keeps w)
Step-Keeps {w} {v} (signalled d e) c = rw e (same-Keeps w (signal w) refl refl (λ u. refl))
Step-Keeps {w} {v} (consumed e) c = consumed-Keeps w.phase w v refl e c
Step-Keeps {w} {v} (left p d e) c = absurd (ground arith)
Step-Keeps {w} {v} (shut_down e) c = absurd (ground arith)

-- A server that is not shut down was not before.
pub Step-cancelled : {w v : World} → Step w v → v.cancelled ≡ false → w.cancelled ≡ false
unfolding queue_document queue_all signal consume
Step-cancelled {w} {v} (document_queued x e) c = ground arith
Step-cancelled {w} {v} (all_queued e) c = ground arith
Step-cancelled {w} {v} (signalled d e) c = ground arith
Step-cancelled {w} {v} (consumed e) c = act-cancelled w.phase w v e c
  where
    act-cancelled :
        (ph : Phase) (w v : World) → act ph w ≡ some v → v.cancelled ≡ false → w.cancelled ≡ false
    act-cancelled asleep w v e c = ground arith
    act-cancelled awake w v e c = ground arith
    act-cancelled checking w v e c = ground arith
    act-cancelled stopped w v e c = cc
    act-cancelled (publishing true us) w v e c = ground arith
    act-cancelled (publishing false []) w v e c = ground arith
    act-cancelled (publishing false (x ∷ us)) w v e c = ground arith
Step-cancelled {w} {v} (left p d e) c = ground arith
Step-cancelled {w} {v} (shut_down e) c = ground arith

-- From any world on, as long as the server is not shut down: a document that is owed stays owed
-- until it is published, by itself or as one of all.
pub Reach-Keeps : {w v : World} → Reach w v → v.cancelled ≡ false → Keeps w v
Reach-Keeps here c = ([], sym (append-nil _), λ u h. ground arith)
Reach-Keeps {w} (next r s) c =
    let (old, l, k) = Reach-Keeps r (Step-cancelled s c) in
    let (new, m, j) = Step-Keeps s c in
    (
      old ++ new,
      m ∙ ap (λ x. x ++ new) l ∙ append_assoc w.log old new,
      λ u h. ground (arith, k u, j u, published-append u old new),
    )

queue_document-owed : (u : Uri) (w : World) → owed u (queue_document u w) ≡ true
unfolding queue_document
queue_document-owed u w = ground (arith, contains-insert_self u w.work.documents)

queue_all-owed : (u : Uri) (w : World) → owed u (queue_all w) ≡ true
unfolding queue_all
queue_all-owed u w = ground arith

-- A document that `queueDiagnosticDocument` marks, or any document once `queueAllDiagnostics` has
-- marked all, is in every later world before the server is shut down either still queued or taken
-- and not yet published, or it has been published since the mark.
pub queued-Keeps :
    (u : Uri) (w v : World)
    → Reach (queue_document u w) v ⊎ Reach (queue_all w) v
    → v.cancelled ≡ false
    → (new : List Event) × (v.log ≡ w.log ++ new) × ((owed u v || published u new) ≡ true)
unfolding queue_document queue_all
queued-Keeps u w v (inl r) c =
    let (new, l, k) = Reach-Keeps r c in (new, l, k u (queue_document-owed u w))
queued-Keeps u w v (inr r) c =
    let (new, l, k) = Reach-Keeps r c in (new, l, k u (queue_all-owed u w))
