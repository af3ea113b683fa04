-- ===== src/QueryType/Split.antt =====
-- internal/database/query_type.go: `splitMultiSep`. A text is the list of its bytes.
use sqls.Base.{
  Bool, List, [], false, has_prefix, if◌then◌else◌, length, map, none, skip, some, suc, zero, ℕ,
  ◌++◌, ◌-◌, ◌==◌, ◌||◌, ◌∷◌,
}
use sqls.Language.Utf8.{decode_rune}

-- A byte more at the start of the first piece.
abbrev pub cons_first : ℕ → List (List ℕ) → List (List ℕ)
cons_first c [] = (c ∷ []) ∷ []
cons_first c (w ∷ ws) = (c ∷ w) ∷ ws

-- `strings.Split` for a separator with a byte: `skip` is the number of the bytes of an occurrence of
-- the separator that are still ahead.
abbrev pub split_from : ℕ → List ℕ → List ℕ → List (List ℕ)
split_from skip sep [] = [] ∷ []
split_from (suc skip) sep (c ∷ s) = split_from skip sep s
split_from zero sep (c ∷ s) =
    let found = has_prefix sep (c ∷ s) in
    let rest = split_from (if found then length sep - 1 else 0) sep s in
    if found then [] ∷ rest else cons_first c rest

-- The size of the UTF-8 sequence at the start of a text; an invalid one has a byte.
abbrev rune_size : List ℕ → ℕ
rune_size s = elim (decode_rune s) [ none ↦ 1 | some (r, n) ↦ n ]

-- `strings.Split` for the empty separator: the UTF-8 sequences. `left` is the number of the bytes
-- that the current one still has.
abbrev pub explode : ℕ → List ℕ → List (List ℕ)
unfolding decode_rune
explode left [] = []
explode left (c ∷ s) =
    let behind = (if left == 0 then rune_size (c ∷ s) else left) - 1 in
    let rest = explode behind s in if behind == 0 then (c ∷ []) ∷ rest else cons_first c rest

-- `strings.Split`
abbrev pub split : List ℕ → List ℕ → List (List ℕ)
split [] s = explode 0 s
split (c ∷ sep) s = split_from 0 (c ∷ sep) s

-- `ret2 = append(ret2, f(r)...)` for every `r`
abbrev pub append_all : (List ℕ → List (List ℕ)) → List (List ℕ) → List (List ℕ)
append_all f [] = []
append_all f (r ∷ rs) = f r ++ append_all f rs

unfoldable pub split_multi_sep : List ℕ → List (List ℕ) → List (List ℕ)
split_multi_sep s [] = s ∷ []
split_multi_sep s (sep ∷ []) = split sep s
split_multi_sep s (sep ∷ next ∷ seps) =
    append_all (λ r. split_multi_sep r (next ∷ seps)) (split sep s)

-- A reading of the text in one pass, which ends a piece at any of the separators.
unfoldable pub split_any : (ℕ → Bool) → List ℕ → List (List ℕ)
split_any is_sep [] = [] ∷ []
split_any is_sep (c ∷ s) =
    if is_sep c then [] ∷ split_any is_sep s else cons_first c (split_any is_sep s)

abbrev pub among : List ℕ → ℕ → Bool
among [] c = false
among (sep ∷ seps) c = c == sep || among seps c

-- Each byte as a separator.
abbrev pub single_bytes : List ℕ → List (List ℕ)
single_bytes = map (λ c. c ∷ [])
