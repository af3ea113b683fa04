-- ===== src/QueryParams/Compile.antt =====
-- internal/queryparams/scan.go: the second half of `Compile`, from the fragments to the batch.
use sqls.Base.{Bool, List, [], false, if◌then◌else◌, is_empty, not, trim, ℕ, ◌&&◌, ◌++◌, ◌||◌, ◌∷◌}
use sqls.QueryParams.Scan.{
  ◌>>=◌, Fragment, Statement, Batch, Result, ok, err, unsupported_statement, scan_text,
}
use sqls.QueryParams.Trivia.{trim_leading_trivia, supported_statement_start}

-- `hasMarker` behind its loop.
unfoldable pub has_marker : List Fragment → Bool
has_marker [] = false
has_marker (f ∷ fs) = not (is_empty f.keys) || has_marker fs

abbrev pub statement_of : Fragment → Statement
statement_of f = record { sql = trim f.sql; keys = f.keys }

-- `TrimLeadingTrivia(f.sql) == ""`
abbrev pub is_trivia : Fragment → Bool
is_trivia f = is_empty (trim_leading_trivia f.sql)

-- The loop over the fragments; `batch.Statements` is what it has appended.
unfoldable pub collect : Bool → List Fragment → List Statement → Result (List Statement)
unfolding trim_leading_trivia supported_statement_start
collect marked [] out = ok out
collect marked (f ∷ fs) out =
    let more = collect marked fs (out ++ statement_of f ∷ []) in
    let same = collect marked fs out in
    if is_trivia f
    then same
    else if marked && not (supported_statement_start (trim f.sql))
    then err unsupported_statement
    else more

unfoldable pub compile : List ℕ → Result Batch
unfolding scan_text has_marker collect
compile text = do
  s ← scan_text text
  statements ← collect (has_marker s.fragments) s.fragments []
  ok (record { parameters = s.parameters; statements = statements })
