-- ===== src/QueryType/Kind.antt =====
-- internal/database/query_type.go: `QueryExecType`. `strings.TrimSpace` and `strings.ToUpper`, which know
-- all of Unicode, are the arguments `trim_space` and `to_upper`. Its first result is the type of the
-- statement, the second whether it is run as a query.
use sqls.Base.{
  Bool, List, Option, [], codes, contains, eqb, false, if◌then◌else◌, is_empty, length, none, not,
  some, suc, true, zero, ℕ, ◌&&◌, ◌++◌, ◌==◌, ◌||◌, ◌∷◌,
}
use sqls.QueryParams.Trivia.{trim_leading_trivia}
use sqls.QueryType.Tables.{query_map, exec_map, create_ignore}
use sqls.QueryType.Split.{split_multi_sep, single_bytes}

abbrev pub separators : List ℕ
separators = b' ' ∷ b'\t' ∷ b'\n' ∷ []

-- `strings.Join(words, " ")`
abbrev pub join : List (List ℕ) → List ℕ
join [] = []
join (w ∷ []) = w
join (w ∷ v ∷ ws) = w ++ b' ' ∷ join (v ∷ ws)

abbrev pub prefix : ℕ → List (List ℕ) → List (List ℕ)
prefix zero ws = []
prefix (suc n) [] = []
prefix (suc n) (w ∷ ws) = w ∷ prefix n ws

abbrev pub second_is : List ℕ → List (List ℕ) → Bool
second_is x (w ∷ v ∷ ws) = eqb v x
second_is x ws = false

-- The words that are not among some.
abbrev pub leave_out : List (List ℕ) → List (List ℕ) → List (List ℕ)
leave_out ignored [] = []
leave_out ignored (w ∷ ws) =
    if contains ignored w then leave_out ignored ws else w ∷ leave_out ignored ws

abbrev pub rest_of : List (List ℕ) → List (List ℕ)
rest_of [] = []
rest_of (w ∷ ws) = ws

-- The switch that normalizes prefixes.
abbrev pub normalize : List ℕ → List (List ℕ) → List (List ℕ)
normalize pref sp =
    if eqb pref (codes "CREATE")
    then codes "CREATE" ∷ leave_out create_ignore (rest_of sp)
    else if eqb pref (codes "DROP")
    then codes "DROP" ∷ leave_out (codes "PROCEDURAL" ∷ []) (rest_of sp)
    else sp

-- `_, ok := m[word]`, for the two maps
unfoldable pub in_query_map : List ℕ → Bool
in_query_map word = contains query_map word

unfoldable pub in_exec_map : List ℕ → Bool
in_exec_map words = contains exec_map words

-- The loop over the prefixes, from `i` words down.
unfoldable pub longest_match : ℕ → List (List ℕ) → Option (List ℕ)
longest_match zero sp = none
longest_match (suc i) sp =
    let shorter = longest_match i sp in
    if in_exec_map (join (prefix (suc i) sp)) then some (join (prefix (suc i) sp)) else shorter

abbrev pub has_equals : List ℕ → Bool
has_equals [] = false
has_equals (c ∷ cs) = c == b'=' || has_equals cs

-- The results behind the loop.
abbrev pub match_or : List ℕ → Option (List ℕ) → List ℕ × Bool
match_or pref none = (pref, false)
match_or pref (some typ) = (typ, false)

module _ (trim_space to_upper : List ℕ → List ℕ) where
  -- The first word that is not blank, in upper case.
  abbrev pub first_word : List (List ℕ) → List ℕ
  first_word [] = []
  first_word (s ∷ sp) = if is_empty (trim_space s) then first_word sp else to_upper (trim_space s)

  -- The results for a prefix of the query map.
  abbrev pub query_kind : List ℕ → List (List ℕ) → List ℕ → List ℕ × Bool
  query_kind pref sp sqlstr =
      if eqb pref (codes "SELECT") && second_is (codes "INTO") sp
      then (codes "SELECT INTO", false)
      else if eqb pref (codes "PRAGMA")
      then (pref, not (has_equals sqlstr))
      else (pref, true)

  -- The results for another prefix.
  unfoldable pub exec_kind : List ℕ → List (List ℕ) → List ℕ × Bool
  unfolding longest_match
  exec_kind pref sp =
      let words = normalize pref sp in match_or pref (longest_match (length words) words)

  unfoldable pub kind_of_words : List (List ℕ) → List ℕ → List ℕ × Bool
  unfolding exec_kind
  kind_of_words [] sqlstr = ([], false)
  kind_of_words (w ∷ ws) sqlstr =
      let pref = first_word (w ∷ ws) in
      if in_query_map pref then query_kind pref (w ∷ ws) sqlstr else exec_kind pref (w ∷ ws)

  unfoldable pub query_exec_type : List ℕ → List ℕ → List ℕ × Bool
  unfolding kind_of_words trim_leading_trivia split_multi_sep
  query_exec_type text sqlstr =
      let trimmed = trim_leading_trivia text in
      if is_empty trimmed
      then (codes "EXEC", false)
      else kind_of_words (split_multi_sep trimmed (single_bytes separators)) sqlstr
