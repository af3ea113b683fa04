-- ===== src/Tests/Diagnostics.antt =====
-- internal/handler/diagnostics_scheduler.go: a run in which a document is queued while another is
-- published, and the results at that run.
use sqls.Base.{List, [], arith, codes, false, inl, refl, true, ◌++◌, ◌||◌, ◌∷◌, ◌≡◌}
use sqls.Diagnostics.Queue.{Uri, taken_documents, mark_document, no_work}
use sqls.Diagnostics.Steps.{
  Event, World, Reach, opened, consume, signal, awake, consumed, document_queued, here, next,
  publishing, queue_document, signalled,
}
use sqls.Diagnostics.Kept.{owed, published, queued-Keeps}
use sqls.Diagnostics.Drained.{Onward, Rests, Reach-Published}

abbrev first_uri : Uri
first_uri = codes "file:///b.sql"

abbrev second_uri : Uri
second_uri = codes "file:///a.sql"

-- The consumer has the first document; the second is queued and not yet signalled.
abbrev busy : World
busy = record {
  work = record { all_open = false; documents = second_uri ∷ [] };
  wake = false;
  due = 1;
  phase = publishing false (first_uri ∷ []);
  cancelled = false;
  log = [];
}

abbrev taken : World
taken = record {
  work = no_work;
  wake = false;
  due = 0;
  phase = publishing false (first_uri ∷ []);
  cancelled = false;
  log = [];
}

-- The consumer is woken.
abbrev woken : World
woken = record taken {
  phase = awake;
  work = record { all_open = false; documents = first_uri ∷ [] };
}

Reach-woken : (w : World) → Reach w (queue_document first_uri opened) → Reach w woken
unfolding queue_document signal consume
Reach-woken w r = next (next r (signalled (omega arith) refl)) (consumed refl)

Reach-taken : (w : World) → Reach w woken → Reach w taken
unfolding consume
Reach-taken w r = next r (consumed refl)

Reach-busy : Reach (queue_document first_uri opened) busy
unfolding queue_document
Reach-busy = next (Reach-taken _ (Reach-woken _ here)) (document_queued second_uri refl)

queued-Keeps_example :
    (new : List Event) × (busy.log ≡ opened.log ++ new)
    × ((owed first_uri busy || published first_uri new) ≡ true)
queued-Keeps_example = queued-Keeps first_uri opened busy (inl Reach-busy) refl

Reach-opened-busy : Reach opened busy
unfolding queue_document signal consume
Reach-opened-busy =
    next (Reach-taken _ (Reach-woken _ (next here (document_queued first_uri refl))))
      (document_queued second_uri refl)

Reach-Published_example :
    (v : World) × (new : List Event) × Onward busy v
    × Rests v
    × (v.log ≡ busy.log ++ new)
    × ((u : Uri) → owed u busy ≡ true → published u new ≡ true)
Reach-Published_example = Reach-Published Reach-opened-busy refl

-- `sort.Strings`
taken_in_order :
    taken_documents
      (mark_document first_uri (mark_document second_uri (mark_document first_uri no_work)))
    ≡ second_uri ∷ first_uri ∷ []
unfolding taken_documents mark_document
taken_in_order = refl
