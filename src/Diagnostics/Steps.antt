-- ===== src/Diagnostics/Steps.antt =====
-- internal/handler/diagnostics_scheduler.go and diagnostics.go: the goroutine of
-- `runDiagnosticSignals` and the callers that queue work, in any interleaving. Each action under a
-- lock, on the channel or of publishing is a step of its own.
use sqls.Base.{
  Bool, List, Option, [], false, if◌then◌else◌, none, some, true, ℕ, ◌++◌, ◌+◌, ◌-◌, ◌<◌, ◌∷◌, ◌≡◌,
}
use sqls.Diagnostics.Queue.{Uri, Work, no_work, mark_all, mark_document, pending, taken_documents}

-- Where the consumer is: at the `select`; before `takeDiagnosticWork`; with what it took, still to be
-- published; before the test of `pending`; returned.
pub data Phase : Type 0 where
  asleep awake checking stopped : Phase
  publishing : Bool → List Uri → Phase

-- A call of `republishOpenDiagnostics`, and of `publishDocumentDiagnostics` for a document.
pub data Event : Type 0 where
  all_files : Event
  file : Uri → Event

-- `wake` is the channel of capacity one, `due` the number of callers between their mark and their
-- signal, `cancelled` whether `lifecycleCtx` is done.
pub record World : Type 0 where
  pub work : Work
  pub wake : Bool
  pub due : ℕ
  pub phase : Phase
  pub cancelled : Bool
  pub log : List Event

abbrev pub opened : World
opened = record {
  work = no_work;
  wake = false;
  due = 0;
  phase = asleep;
  cancelled = false;
  log = [];
}

-- The callers, up to their signal.
unfoldable pub queue_document : Uri → World → World
unfolding mark_document
queue_document u w = record w { work = mark_document u w.work; due = w.due + 1 }

unfoldable pub queue_all : World → World
unfolding mark_all
queue_all w = record w { work = mark_all w.work; due = w.due + 1 }

-- `signalDiagnostics`
unfoldable pub signal : World → World
signal w = record w { wake = if w.cancelled then w.wake else true; due = w.due - 1 }

-- The consumer's next action, where it does not wait.
abbrev pub act : Phase → World → Option World
act asleep w = if w.wake then some (record w { wake = false; phase = awake }) else none
act awake w =
    some (record w { work = no_work; phase = publishing w.work.all_open (taken_documents w.work) })
act (publishing true us) w = some (record w { phase = checking; log = w.log ++ all_files ∷ [] })
act (publishing false []) w = some (record w { phase = checking })
act (publishing false (u ∷ us)) w =
    if w.cancelled
    then some (record w { phase = stopped })
    else some (record w { phase = publishing false us; log = w.log ++ file u ∷ [] })
act checking w = some (record w { phase = if pending w.work then awake else asleep })
act stopped w = none

unfoldable pub consume : World → Option World
unfolding taken_documents pending
consume w = act w.phase w

pub data Step (w v : World) : Type 0 where
  document_queued : (u : Uri) → v ≡ queue_document u w → Step w v
  all_queued : v ≡ queue_all w → Step w v
  signalled : 0 < w.due → v ≡ signal w → Step w v
  consumed : consume w ≡ some v → Step w v
  -- the `select` meets a `lifecycleCtx` that is done
  left : w.phase ≡ asleep → w.cancelled ≡ true → v ≡ record w { phase = stopped } → Step w v
  shut_down : v ≡ record w { cancelled = true } → Step w v

pub data Reach (w : World) : World → Type 0 where
  here : Reach w w
  next : {v u : World} → Reach w v → Step v u → Reach w u
