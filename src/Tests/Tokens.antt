-- ===== src/Tests/Tokens.antt =====
-- token: runs of the tokenizer, and its results at inputs that meet their conditions.
use sqls.Base.{List, codes, length, none, refl, some, to_upper, ℕ, ◌<◌, ◌∷◌, ◌≡◌, ◌≢◌}
use sqls.Dialect.Rules.{postgresql}
use sqls.Dialect.Variant.{interbase_driver, DriverVariant, dialect_for_driver_variant, interbase3}
use sqls.Token.Pos.{Pos}
use sqls.Token.Step.{number_run, preserves}
use sqls.Token.Lexer.{next}
use sqls.Token.Stream.{skip_bom, new_tokenizer, out_of_fuel, tokenize, illegal_text}
use sqls.Token.Advance.{Moves}
use sqls.Token.Progress.{next-Moves}
use sqls.Token.Order.{ChainsTo, tokenize-ChainsTo, tokenize-ne-out_of_fuel}
use sqls.Token.RoundTrip.{print}
use sqls.Token.Printable.{print-tokenize_driver}
use sqls.Token.Quoted.{quoted_loop, comment_loop, delimited_loop}
use sqls.Token.Word.{make_word, make_keyword, word_string}
use sqls.Dialect.Keyword.{interbase_match_keyword}

-- Text with a doubled quote, a delimited identifier, a comment and an operator.
abbrev query : List ℕ
query = codes "SELECT 'a''b', \"My \"\"c\" <= 1.5e-3 -- z\n/* d **/"

abbrev interbase3_connection : DriverVariant
interbase3_connection = record { driver = interbase_driver; variant = interbase3 }

tokenize-query :
    (tokenize to_upper (dialect_for_driver_variant interbase3_connection) query).error ≡ none
unfolding tokenize next dialect_for_driver_variant preserves quoted_loop delimited_loop number_run
    comment_loop word_string make_keyword make_word interbase_match_keyword
tokenize-query = refl

-- The scanner drops one byte order mark at the start.
print-bom :
    print
      (tokenize to_upper (dialect_for_driver_variant interbase3_connection) (65279 ∷ query)).tokens
    ≡ query
unfolding tokenize next dialect_for_driver_variant preserves quoted_loop delimited_loop number_run
    comment_loop word_string make_keyword make_word interbase_match_keyword
print-bom = refl

query_legal :
    (tokenize to_upper (dialect_for_driver_variant interbase3_connection) query).error
    ≢ some illegal_text
query_legal e = cc (tokenize-query, e)

print-tokenize_driver_example :
    print (tokenize to_upper (dialect_for_driver_variant interbase3_connection) query).tokens
    ≡ skip_bom query
print-tokenize_driver_example =
    print-tokenize_driver to_upper interbase3_connection query tt refl query_legal

tokenize-ne-out_of_fuel_example : (tokenize to_upper postgresql query).error ≢ some out_of_fuel
tokenize-ne-out_of_fuel_example = tokenize-ne-out_of_fuel to_upper postgresql query

tokenize-ChainsTo_example :
    (q : Pos) × ChainsTo
      (record { line = 0; col = 0 })
      (tokenize to_upper postgresql query).tokens
      q
tokenize-ChainsTo_example = tokenize-ChainsTo to_upper postgresql query

next-Moves_example :
    (length (next to_upper postgresql (new_tokenizer query)).1.input < length query)
    × Moves
        (new_tokenizer query)
        (next to_upper postgresql (new_tokenizer query)).0
        (next to_upper postgresql (new_tokenizer query)).1
next-Moves_example = next-Moves to_upper postgresql (new_tokenizer query) (λ e. cc)
