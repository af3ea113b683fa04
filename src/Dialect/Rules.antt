-- ===== src/Dialect/Rules.antt =====
-- dialect/dialect.go, dialect/interbase.go, dialect/postgresql_lexer.go: the interface `Dialect`, the
-- optional interfaces that token/lexer.go asks for, and the dialects that implement them. A rune is
-- its code point. The scanner's EOF, -1, lies in none of the ranges below, so each test is false there
-- and takes a code point only.
use sqls.Base.{Bool, List, Option, false, none, not, some, true, within, ℕ, ◌&&◌, ◌==◌, ◌||◌}
use sqls.Dialect.Keyword.{KeywordKind, duckdb_match_keyword, interbase_match_keyword}

-- An optional interface is a field that is `none` where the dialect does not implement it.
pub record Dialect : Type 0 where
  pub is_identifier_start : ℕ → Bool
  pub is_identifier_part : ℕ → Bool
  pub is_delimited_identifier_start : ℕ → Bool
  pub is_place_holder_start : ℕ → Bool
  pub is_place_holder_part : ℕ → Bool
  pub match_keyword : Option (List ℕ → KeywordKind)
  pub preserves_quoted_string_escapes : Option Bool
  pub scans_whole_delimited_identifier : Option Bool
  pub supports_escape_string_literals : Option Bool
  pub supports_dollar_quoted_strings : Option Bool

abbrev is_ascii_letter : ℕ → Bool
is_ascii_letter r = within b'a' b'z' r || within b'A' b'Z' r

abbrev is_digit : ℕ → Bool
is_digit r = within b'0' b'9' r

abbrev pub generic : Dialect
generic = record {
  is_identifier_start = λ r. is_ascii_letter r || r == b'@';
  is_identifier_part = λ r. is_ascii_letter r || is_digit r || r == b'@' || r == b'_';
  is_delimited_identifier_start = λ r. r == b'"' || r == b'`';
  is_place_holder_start = λ r. r == b'$';
  is_place_holder_part = λ r. is_ascii_letter r || is_digit r;
  match_keyword = none;
  preserves_quoted_string_escapes = none;
  scans_whole_delimited_identifier = none;
  supports_escape_string_literals = none;
  supports_dollar_quoted_strings = none;
}

-- `postgreSQLDialect` embeds the generic one.
abbrev pub postgresql : Dialect
postgresql = record generic {
  preserves_quoted_string_escapes = some true;
  scans_whole_delimited_identifier = some true;
  supports_escape_string_literals = some true;
  supports_dollar_quoted_strings = some true;
}

abbrev pub duckdb : Dialect
duckdb = record postgresql { match_keyword = some duckdb_match_keyword }

-- `InterBaseDialect` with its field `SQLDialect`.
abbrev pub interbase : ℕ → Dialect
interbase sql_dialect = record {
  is_identifier_start = is_ascii_letter;
  is_identifier_part = λ r. is_ascii_letter r || is_digit r || r == b'_' || r == b'$';
  is_delimited_identifier_start = λ r. r == b'"' && not (sql_dialect == 1);
  is_place_holder_start = λ r. r == b'?';
  is_place_holder_part = λ r. false;
  match_keyword = some interbase_match_keyword;
  preserves_quoted_string_escapes = some true;
  scans_whole_delimited_identifier = some true;
  supports_escape_string_literals = none;
  supports_dollar_quoted_strings = none;
}
