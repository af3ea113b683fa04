-- ===== src/Tests/QueryType.antt =====
-- internal/database/query_type.go: runs of `QueryExecType`. Trimming and upper case of ASCII stand for
-- Go's.
use sqls.Base.{List, [], codes, false, is_empty, refl, to_upper, trim, true, ℕ, ◌↔◌, ◌∷◌, ◌≡◌}
use sqls.QueryParams.Trivia.{trim_leading_trivia, trim_trivia}
use sqls.QueryType.Split.{split_multi_sep, split_any, among, single_bytes}
use sqls.QueryType.Words.{split_multi_sep-split_any}
use sqls.Language.Utf8.{decode_rune}
use sqls.QueryType.Kind.{
  query_exec_type, kind_of_words, exec_kind, longest_match, in_exec_map, in_query_map, normalize,
}
use sqls.QueryType.Results.{
  query_exec_type_iff, query_exec_type-IsNamed, IsQuery, IsNamed, words_of, leading,
}

abbrev create : List ℕ
create = codes "-- new\nCREATE OR REPLACE VIEW v"

run-create : query_exec_type trim to_upper create [] ≡ (codes "CREATE VIEW", false)
unfolding query_exec_type trim_leading_trivia trim_trivia split_multi_sep kind_of_words exec_kind
    longest_match in_exec_map in_query_map
run-create = refl

-- The second word is compared as it is written.
run-select :
    query_exec_type trim to_upper (codes "select into t from s") [] ≡ (codes "SELECT", true)
unfolding query_exec_type trim_leading_trivia trim_trivia split_multi_sep kind_of_words in_query_map
run-select = refl

run-into :
    query_exec_type trim to_upper (codes "SELECT INTO t FROM s") [] ≡ (codes "SELECT INTO", false)
unfolding query_exec_type trim_leading_trivia trim_trivia split_multi_sep kind_of_words in_query_map
run-into = refl

some_text : is_empty (trim_leading_trivia create) ≡ false
unfolding trim_leading_trivia trim_trivia
some_text = refl

not_listed : in_query_map (leading trim to_upper create) ≡ false
unfolding trim_leading_trivia trim_trivia split_any in_query_map
not_listed = refl

query_exec_type_iff_example :
    ((query_exec_type trim to_upper create []).1 ≡ true) ↔ IsQuery trim to_upper create []
query_exec_type_iff_example = query_exec_type_iff trim to_upper create []

query_exec_type-IsNamed_example :
    IsNamed
      (leading trim to_upper create)
      (normalize (leading trim to_upper create) (words_of trim to_upper create))
      (query_exec_type trim to_upper create []).0
query_exec_type-IsNamed_example =
    query_exec_type-IsNamed trim to_upper create [] some_text not_listed

-- Longer separators.
split-long :
    split_multi_sep (codes "xab") (codes "b" ∷ codes "ab" ∷ []) ≡ codes "xa" ∷ codes "" ∷ []
unfolding split_multi_sep
split-long = refl

split-overlap : split_multi_sep (codes "aaab") (codes "aa" ∷ []) ≡ codes "" ∷ codes "ab" ∷ []
unfolding split_multi_sep
split-overlap = refl

split-empty :
    split_multi_sep (97 ∷ 195 ∷ 169 ∷ 255 ∷ []) ([] ∷ [])
    ≡ (97 ∷ []) ∷ (195 ∷ 169 ∷ []) ∷ (255 ∷ []) ∷ []
unfolding split_multi_sep decode_rune
split-empty = refl

split_multi_sep-split_any_example :
    split_multi_sep (codes "a b\tc") (single_bytes (b' ' ∷ b'\t' ∷ []))
    ≡ split_any (among (b' ' ∷ b'\t' ∷ [])) (codes "a b\tc")
split_multi_sep-split_any_example = split_multi_sep-split_any (codes "a b\tc") (b' ' ∷ b'\t' ∷ [])
