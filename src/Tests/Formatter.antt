-- ===== src/Tests/Formatter.antt =====
-- internal/formatter/verify.go: texts that the check accepts and refuses. The folding of ASCII letters
-- stands for Unicode's.
use sqls.Base.{List, codes, none, refl, some, to_upper, ℕ, ◌↔◌, ◌≡◌}
use sqls.Dialect.Keyword.{match_keyword}
use sqls.Token.Step.{number_run}
use sqls.Token.Quoted.{delimited_loop, comment_loop}
use sqls.Token.Word.{make_keyword, make_word}
use sqls.Dialect.Rules.{postgresql}
use sqls.Token.Stream.{tokenize}
use sqls.Formatter.Verify.{verify_formatted, tokens_joined, token_changed, tokens_split}
use sqls.Formatter.Safety.{verify_formatted_iff, verify_formatted-same, Unchanged, code}

abbrev original : List ℕ
original = codes "select \"A\" from t -- all"

abbrev formatted : List ℕ
formatted = codes "SELECT\n  \"A\"\nFROM\n  t\n  -- all"

accepted : verify_formatted to_upper to_upper postgresql original formatted ≡ none
unfolding verify_formatted tokenize number_run delimited_loop comment_loop make_keyword make_word
    match_keyword
accepted = refl

joined :
    verify_formatted to_upper to_upper postgresql (codes "2 desc") (codes "2desc")
    ≡ some (tokens_joined 1)
unfolding verify_formatted tokenize number_run delimited_loop comment_loop make_keyword make_word
    match_keyword
joined = refl

pulled_apart :
    verify_formatted to_upper to_upper postgresql (codes "a||b") (codes "a| |b")
    ≡ some (tokens_split 2)
unfolding verify_formatted tokenize number_run delimited_loop comment_loop make_keyword make_word
    match_keyword
pulled_apart = refl

renamed :
    verify_formatted to_upper to_upper postgresql (codes "select a") (codes "select A")
    ≡ some (token_changed 1)
unfolding verify_formatted tokenize number_run delimited_loop comment_loop make_keyword make_word
    match_keyword
renamed = refl

verify_formatted_iff_example :
    (verify_formatted to_upper to_upper postgresql original formatted ≡ none) ↔ (
      ((tokenize to_upper postgresql original).error ≡ none)
      × ((tokenize to_upper postgresql formatted).error ≡ none)
      × Unchanged to_upper to_upper none
          (code to_upper to_upper postgresql original)
          (code to_upper to_upper postgresql formatted))
verify_formatted_iff_example = verify_formatted_iff to_upper to_upper postgresql original formatted

verify_formatted-same_example :
    (verify_formatted to_upper to_upper postgresql original original ≡ none)
    ↔ ((tokenize to_upper postgresql original).error ≡ none)
verify_formatted-same_example = verify_formatted-same to_upper to_upper postgresql original
