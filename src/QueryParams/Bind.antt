-- ===== src/QueryParams/Bind.antt =====
-- internal/queryparams/value.go: `Bind`. The maps `required`, `seen` and `converted` are lists. Go
-- visits a map in no fixed order: where several parameters have no value, the model names the first.
use sqls.Base.{List, [], contains, eqb, if◌then◌else◌, map, not, ℕ, ◌∷◌}
use sqls.QueryParams.Scan.{Parameter, Statement, Batch}
use sqls.QueryParams.Keys.{param_keys}
use sqls.QueryParams.Value.{
  ◌>>=◌, GoLib, Argument, Bound, Value, bound_twice, convert, done, no_value, not_used,
  null_argument, refused,
}

-- The loop over `required`.

unfoldable pub check_required : List (List ℕ) → List Parameter → Bound (Unit {0})
check_required seen [] = done tt
check_required seen (p ∷ ps) =
    if contains seen p.key then check_required seen ps else refused (no_value p.name)

module _ (lib : GoLib) where
  abbrev pub key_of : Value → List ℕ
  key_of v = lib.to_upper v.name

  abbrev pub keys_of : List Value → List (List ℕ)
  keys_of [] = []
  keys_of (v ∷ vs) = key_of v ∷ keys_of vs

  -- The first loop of `Bind`, on the keys seen so far; it returns all of them.
  unfoldable pub check_values : List (List ℕ) → List (List ℕ) → List Value → Bound (List (List ℕ))
  check_values required seen [] = done seen
  check_values required seen (v ∷ vs) =
      let rest = check_values required (key_of v ∷ seen) vs in
      if not (contains required (key_of v))
      then refused (not_used v.name)
      else if contains seen (key_of v)
      then refused (bound_twice v.name)
      else rest

  -- The loop that fills `converted`.
  unfoldable pub convert_all : List Value → Bound (List (List ℕ × Argument lib))
  convert_all [] = done []
  convert_all (v ∷ vs) = do a ← convert lib v; m ← convert_all vs; done ((key_of v, a) ∷ m)

  -- `converted[key]`, nil where there is none.
  abbrev pub argument : List (List ℕ × Argument lib) → List ℕ → Argument lib
  argument [] key = null_argument
  argument ((k, a) ∷ m) key = if eqb k key then a else argument m key

  -- The last loop of `Bind`.
  abbrev pub arguments : List (List ℕ × Argument lib) → List Statement → List (List (Argument lib))
  arguments m = map (λ s. map (argument m) s.keys)

  unfoldable pub bind : Batch → List Value → Bound (List (List (Argument lib)))
  unfolding check_values check_required convert_all
  bind batch values = do
    seen ← check_values (param_keys batch.parameters) [] values
    checked ← check_required seen batch.parameters
    converted ← convert_all values
    done (arguments converted batch.statements)
