-- ===== src/Diagnostics/Queue.antt =====
-- internal/handler/diagnostics_scheduler.go: the work that is queued. A set of URIs is a list in which
-- none stands twice; a lock is held for the whole of each function here.
use sqls.Base.{
  Bool, List, [], ap, arith, contains, eqb, eqb_refl, false, if◌then◌else◌, is_empty, ltb, not,
  refl, true, ℕ, ◌&&◌, ◌==◌, ◌||◌, ◌∙◌, ◌∷◌, ◌≡◌,
}

abbrev pub Uri : Type 0
Uri = List ℕ

-- `diagnosticAllOpen` and `diagnosticDocuments`.
pub record Work : Type 0 where
  pub all_open : Bool
  pub documents : List Uri

abbrev pub no_work : Work
no_work = record { all_open = false; documents = [] }

-- `m[uri] = struct{}{}`
abbrev pub insert : Uri → List Uri → List Uri
insert u us = if contains us u then us else u ∷ us

-- The locked part of `queueDiagnosticDocument` and of `queueAllDiagnostics`.
unfoldable pub mark_document : Uri → Work → Work
mark_document u w = if w.all_open then w else record w { documents = insert u w.documents }

unfoldable pub mark_all : Work → Work
mark_all w = record { all_open = true; documents = [] }

-- The order of Go's strings.
abbrev string_less : Uri → Uri → Bool
string_less [] [] = false
string_less [] (d ∷ ds) = true
string_less (c ∷ cs) [] = false
string_less (c ∷ cs) (d ∷ ds) = ltb c d || (c == d && string_less cs ds)

abbrev insert_sorted : Uri → List Uri → List Uri
insert_sorted u [] = u ∷ []
insert_sorted u (v ∷ vs) =
    let behind = insert_sorted u vs in if string_less v u then v ∷ behind else u ∷ v ∷ vs

-- `sort.Strings`
abbrev sort_strings : List Uri → List Uri
sort_strings [] = []
sort_strings (u ∷ us) = insert_sorted u (sort_strings us)

-- What `takeDiagnosticWork` returns; it leaves `no_work`.
unfoldable pub taken_documents : Work → List Uri
taken_documents w = if w.all_open then [] else sort_strings w.documents

-- `pending` in `runDiagnosticSignals`.
unfoldable pub pending : Work → Bool
pending w = w.all_open || not (is_empty w.documents)

contains-insert_sorted :
    (u v : Uri) (us : List Uri) → contains (insert_sorted u us) v ≡ (eqb u v || contains us v)
contains-insert_sorted u v [] = refl
contains-insert_sorted u v (w ∷ us) = ground (arith, contains-insert_sorted u v us)

pub contains-sort_strings : (us : List Uri) (v : Uri) → contains (sort_strings us) v ≡ contains us v
contains-sort_strings [] v = refl
contains-sort_strings (u ∷ us) v =
    contains-insert_sorted u v (sort_strings us)
    ∙ ap (λ b. eqb u v || b) (contains-sort_strings us v)

pub contains-insert_self : (u : Uri) (us : List Uri) → contains (insert u us) u ≡ true
contains-insert_self u us = ground (arith, eqb_refl u)

pub contains-insert :
    (u v : Uri) (us : List Uri) → contains us v ≡ true → contains (insert u us) v ≡ true
contains-insert u v us h = ground arith

-- `sort.Strings` loses no document.
pub contains-taken_documents :
    (w : Work) (u : Uri)
    → w.all_open ≡ false
    → contains (taken_documents w) u ≡ contains w.documents u
unfolding taken_documents
contains-taken_documents w u h = rw h (contains-sort_strings w.documents u)
