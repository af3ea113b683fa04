-- ===== src/QueryParams/Trivia.antt =====
-- internal/queryparams/scan.go: `TrimLeadingTrivia`, `leadingWord` and `supportedStatementStart`.
use sqls.Base.{
  Bool, List, Option, [], codes, contains, eqb, false, has_prefix, head_is, if◌then◌else◌, length,
  none, skip, some, suc, to_upper, trim_left, true, within, zero, ℕ, ◌&&◌, ◌==◌, ◌||◌, ◌∷◌,
}

-- `text[idx+1:]` for `idx := strings.IndexByte(text, '\n')`, or "" where there is none.
abbrev pub after_newline : List ℕ → List ℕ
after_newline [] = []
after_newline (c ∷ cs) = if c == b'\n' then cs else after_newline cs

-- `text[idx+2:]` for `idx := strings.Index(text, "*/")`, if there is one.
abbrev pub after_close : List ℕ → Option (List ℕ)
after_close [] = none
after_close (c ∷ cs) = if c == b'*' && head_is b'/' cs then some (skip cs) else after_close cs

-- The loop of `TrimLeadingTrivia`, with fuel for its rounds.
unfoldable pub trim_trivia : ℕ → List ℕ → List ℕ
trim_trivia zero text = text
trim_trivia (suc fuel) text =
    let trimmed = trim_left text in
    let after_line = trim_trivia fuel (after_newline trimmed) in
    if has_prefix (codes "--") trimmed
    then after_line
    else if has_prefix (codes "/*") trimmed
    then (elim (after_close (skip (skip trimmed))) [
      | none ↦ trimmed
      | some rest ↦ trim_trivia fuel rest
    ])
    else trimmed

unfoldable pub trim_leading_trivia : List ℕ → List ℕ
unfolding trim_trivia
trim_leading_trivia text = trim_trivia (suc (length text)) text

abbrev is_letter : ℕ → Bool
is_letter b = within b'A' b'Z' b || within b'a' b'z' b

-- The two results of `leadingWord`.
abbrev pub leading_word : List ℕ → List ℕ
leading_word [] = []
leading_word (b ∷ s) = if is_letter b then b ∷ leading_word s else []

abbrev pub after_word : List ℕ → List ℕ
after_word [] = []
after_word (b ∷ s) = if is_letter b then after_word s else b ∷ s

abbrev starters : List (List ℕ)
starters = codes "SELECT" ∷ codes "INSERT" ∷ codes "UPDATE" ∷ codes "DELETE" ∷ codes "WITH" ∷ []

unfoldable pub supported_statement_start : List ℕ → Bool
unfolding trim_leading_trivia
supported_statement_start sql =
    let body = trim_leading_trivia sql in
    let first = to_upper (leading_word body) in
    if contains starters first
    then true
    else if eqb first (codes "EXECUTE")
    then eqb (to_upper (leading_word (trim_left (after_word body)))) (codes "PROCEDURE")
    else false
