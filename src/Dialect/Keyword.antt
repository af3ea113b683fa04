-- ===== src/Dialect/Keyword.antt =====
-- dialect/keyword.go, dialect/interbase.go, dialect/duckdb.go: the kinds of keywords, the table `match` and `MatchKeyword`. The table is
-- written in three parts, in the source's order.
use sqls.Base.{List, Option, [], codes, contains, eqb, if◌then◌else◌, none, some, ℕ, ◌++◌, ◌∷◌}

pub data KeywordKind : Type 0 where
  matched dml ddl dcl unmatched : KeywordKind

abbrev pub match_a_to_f : List (List ℕ × KeywordKind)
match_a_to_f =
    (codes "ABS", matched)
    ∷ (codes "ADD", matched)
    ∷ (codes "ASC", matched)
    ∷ (codes "ALL", matched)
    ∷ (codes "ALLOCATE", matched)
    ∷ (codes "ALTER", ddl)
    ∷ (codes "AND", matched)
    ∷ (codes "ANY", matched)
    ∷ (codes "ARE", matched)
    ∷ (codes "ARRAY", matched)
    ∷ (codes "ARRAY_AGG", matched)
    ∷ (codes "ARRAY_MAX_CARDINALITY", matched)
    ∷ (codes "AS", matched)
    ∷ (codes "ASENSITIVE", matched)
    ∷ (codes "ASYMMETRIC", matched)
    ∷ (codes "AT", matched)
    ∷ (codes "ATOMIC", matched)
    ∷ (codes "AUTHORIZATION", matched)
    ∷ (codes "AVG", matched)
    ∷ (codes "BEGIN", matched)
    ∷ (codes "BEGIN_FRAME", matched)
    ∷ (codes "BEGIN_PARTITION", matched)
    ∷ (codes "BETWEEN", matched)
    ∷ (codes "BIGINT", matched)
    ∷ (codes "BINARY", matched)
    ∷ (codes "BLOB", matched)
    ∷ (codes "BOOLEAN", matched)
    ∷ (codes "BOTH", matched)
    ∷ (codes "BY", matched)
    ∷ (codes "BYTEA", matched)
    ∷ (codes "CALL", matched)
    ∷ (codes "CALLED", matched)
    ∷ (codes "CARDINALITY", matched)
    ∷ (codes "CASCADED", matched)
    ∷ (codes "CASE", matched)
    ∷ (codes "CAST", matched)
    ∷ (codes "CEIL", matched)
    ∷ (codes "CEILING", matched)
    ∷ (codes "CHR", matched)
    ∷ (codes "CHAR", matched)
    ∷ (codes "CHAR_LENGTH", matched)
    ∷ (codes "CHARACTER", matched)
    ∷ (codes "CHARACTER_LENGTH", matched)
    ∷ (codes "CHECK", matched)
    ∷ (codes "CLOB", matched)
    ∷ (codes "CLOSE", matched)
    ∷ (codes "COALESCE", matched)
    ∷ (codes "COLLATE", matched)
    ∷ (codes "COLLECT", matched)
    ∷ (codes "COLUMN", matched)
    ∷ (codes "COMMIT", dml)
    ∷ (codes "CONDITION", matched)
    ∷ (codes "CONNECT", matched)
    ∷ (codes "CONSTRAINT", matched)
    ∷ (codes "CONTAINS", matched)
    ∷ (codes "CONVERT", matched)
    ∷ (codes "COPY", matched)
    ∷ (codes "CORR", matched)
    ∷ (codes "CORRESPONDING", matched)
    ∷ (codes "COUNT", matched)
    ∷ (codes "COVAR_POP", matched)
    ∷ (codes "COVAR_SAMP", matched)
    ∷ (codes "CREATE", ddl)
    ∷ (codes "CROSS", matched)
    ∷ (codes "CSV", matched)
    ∷ (codes "CUBE", matched)
    ∷ (codes "CUME_DIST", matched)
    ∷ (codes "CURRENT", matched)
    ∷ (codes "CURRENT_CATALOG", matched)
    ∷ (codes "CURRENT_DATE", matched)
    ∷ (codes "CURRENT_DEFAULT_TRANSFORM_GROUP", matched)
    ∷ (codes "CURRENT_PATH", matched)
    ∷ (codes "CURRENT_ROLE", matched)
    ∷ (codes "CURRENT_ROW", matched)
    ∷ (codes "CURRENT_SCHEMA", matched)
    ∷ (codes "CURRENT_TIME", matched)
    ∷ (codes "CURRENT_TIMESTAMP", matched)
    ∷ (codes "CURRENT_TRANSFORM_GROUP_FOR_TYPE", matched)
    ∷ (codes "CURRENT_USER", matched)
    ∷ (codes "CURSOR", matched)
    ∷ (codes "CYCLE", matched)
    ∷ (codes "DATE", matched)
    ∷ (codes "DAY", matched)
    ∷ (codes "DEALLOCATE", matched)
    ∷ (codes "DEC", matched)
    ∷ (codes "DECIMAL", matched)
    ∷ (codes "DECLARE", matched)
    ∷ (codes "DEFAULT", matched)
    ∷ (codes "DELETE", dml)
    ∷ (codes "DENSE_RANK", matched)
    ∷ (codes "DEREF", matched)
    ∷ (codes "DESC", matched)
    ∷ (codes "DESCRIBE", matched)
    ∷ (codes "DETERMINISTIC", matched)
    ∷ (codes "DISCONNECT", matched)
    ∷ (codes "DISTINCT", matched)
    ∷ (codes "DOUBLE", matched)
    ∷ (codes "DROP", ddl)
    ∷ (codes "DYNAMIC", matched)
    ∷ (codes "EACH", matched)
    ∷ (codes "ELEMENT", matched)
    ∷ (codes "ELSE", matched)
    ∷ (codes "END", matched)
    ∷ (codes "END_FRAME", matched)
    ∷ (codes "END_PARTITION", matched)
    ∷ (codes "EQUALS", matched)
    ∷ (codes "ESCAPE", matched)
    ∷ (codes "EVERY", matched)
    ∷ (codes "EXCEPT", matched)
    ∷ (codes "EXEC", matched)
    ∷ (codes "EXECUTE", matched)
    ∷ (codes "EXISTS", matched)
    ∷ (codes "EXP", matched)
    ∷ (codes "EXTERNAL", matched)
    ∷ (codes "EXTRACT", matched)
    ∷ (codes "FALSE", matched)
    ∷ (codes "FETCH", matched)
    ∷ (codes "FILTER", matched)
    ∷ (codes "FIRST_VALUE", matched)
    ∷ (codes "FLOAT", matched)
    ∷ []

abbrev pub match_f_to_r : List (List ℕ × KeywordKind)
match_f_to_r =
    (codes "FLOOR", matched)
    ∷ (codes "FOLLOWING", matched)
    ∷ (codes "FOR", matched)
    ∷ (codes "FOREIGN", matched)
    ∷ (codes "FRAME_ROW", matched)
    ∷ (codes "FREE", matched)
    ∷ (codes "FROM", matched)
    ∷ (codes "FULL", matched)
    ∷ (codes "FUNCTION", matched)
    ∷ (codes "FUSION", matched)
    ∷ (codes "GET", matched)
    ∷ (codes "GLOBAL", matched)
    ∷ (codes "GRANT", matched)
    ∷ (codes "GROUP", matched)
    ∷ (codes "GROUPING", matched)
    ∷ (codes "GROUPS", matched)
    ∷ (codes "HAVING", matched)
    ∷ (codes "HEADER", matched)
    ∷ (codes "HOLD", matched)
    ∷ (codes "HOUR", matched)
    ∷ (codes "IDENTITY", matched)
    ∷ (codes "IN", matched)
    ∷ (codes "INDICATOR", matched)
    ∷ (codes "INNER", matched)
    ∷ (codes "INOUT", matched)
    ∷ (codes "INSENSITIVE", matched)
    ∷ (codes "INSERT", dml)
    ∷ (codes "INT", matched)
    ∷ (codes "INTEGER", matched)
    ∷ (codes "INTERSECT", matched)
    ∷ (codes "INTERSECTION", matched)
    ∷ (codes "INTERVAL", matched)
    ∷ (codes "INTO", matched)
    ∷ (codes "IS", matched)
    ∷ (codes "JOIN", matched)
    ∷ (codes "KEY", matched)
    ∷ (codes "LAG", matched)
    ∷ (codes "LANGUAGE", matched)
    ∷ (codes "LARGE", matched)
    ∷ (codes "LAST_VALUE", matched)
    ∷ (codes "LATERAL", matched)
    ∷ (codes "LEAD", matched)
    ∷ (codes "LEADING", matched)
    ∷ (codes "LEFT", matched)
    ∷ (codes "LIKE", matched)
    ∷ (codes "LIKE_REGEX", matched)
    ∷ (codes "LIMIT", matched)
    ∷ (codes "LN", matched)
    ∷ (codes "LOCAL", matched)
    ∷ (codes "LOCALTIME", matched)
    ∷ (codes "LOCALTIMESTAMP", matched)
    ∷ (codes "LOCATION", matched)
    ∷ (codes "LOWER", matched)
    ∷ (codes "MATCH", matched)
    ∷ (codes "MATERIALIZED", matched)
    ∷ (codes "MAX", matched)
    ∷ (codes "MEMBER", matched)
    ∷ (codes "MERGE", dml)
    ∷ (codes "METHOD", matched)
    ∷ (codes "MIN", matched)
    ∷ (codes "MINUTE", matched)
    ∷ (codes "MOD", matched)
    ∷ (codes "MODIFIES", matched)
    ∷ (codes "MODULE", matched)
    ∷ (codes "MONTH", matched)
    ∷ (codes "MULTISET", matched)
    ∷ (codes "NATIONAL", matched)
    ∷ (codes "NATURAL", matched)
    ∷ (codes "NCHAR", matched)
    ∷ (codes "NCLOB", matched)
    ∷ (codes "NEW", matched)
    ∷ (codes "NO", matched)
    ∷ (codes "NONE", matched)
    ∷ (codes "NORMALIZE", matched)
    ∷ (codes "NOT", matched)
    ∷ (codes "NTH_VALUE", matched)
    ∷ (codes "NTILE", matched)
    ∷ (codes "NULL", matched)
    ∷ (codes "NULLIF", matched)
    ∷ (codes "NUMERIC", matched)
    ∷ (codes "OBJECT", matched)
    ∷ (codes "OCTET_LENGTH", matched)
    ∷ (codes "OCCURRENCES_REGEX", matched)
    ∷ (codes "OF", matched)
    ∷ (codes "OFFSET", matched)
    ∷ (codes "OLD", matched)
    ∷ (codes "ON", matched)
    ∷ (codes "ONLY", matched)
    ∷ (codes "OPEN", matched)
    ∷ (codes "OR", matched)
    ∷ (codes "ORDER", matched)
    ∷ (codes "OUT", matched)
    ∷ (codes "OUTER", matched)
    ∷ (codes "OVER", matched)
    ∷ (codes "OVERLAPS", matched)
    ∷ (codes "OVERLAY", matched)
    ∷ (codes "PARAMETER", matched)
    ∷ (codes "PARTITION", matched)
    ∷ (codes "PARQUET", matched)
    ∷ (codes "PERCENT", matched)
    ∷ (codes "PERCENT_RANK", matched)
    ∷ (codes "PERCENTILE_CONT", matched)
    ∷ (codes "PERCENTILE_DISC", matched)
    ∷ (codes "PERIOD", matched)
    ∷ (codes "PORTION", matched)
    ∷ (codes "POSITION", matched)
    ∷ (codes "POSITION_REGEX", matched)
    ∷ (codes "POWER", matched)
    ∷ (codes "PRECEDES", matched)
    ∷ (codes "PRECEDING", matched)
    ∷ (codes "PRECISION", matched)
    ∷ (codes "PREPARE", matched)
    ∷ (codes "PRIMARY", matched)
    ∷ (codes "PROCEDURE", matched)
    ∷ (codes "RANGE", matched)
    ∷ (codes "RANK", matched)
    ∷ (codes "READS", matched)
    ∷ (codes "REAL", matched)
    ∷ (codes "RECURSIVE", matched)
    ∷ (codes "REF", matched)
    ∷ []

abbrev pub match_r_to_z : List (List ℕ × KeywordKind)
match_r_to_z =
    (codes "REFERENCES", matched)
    ∷ (codes "REFERENCING", matched)
    ∷ (codes "REGCLASS", matched)
    ∷ (codes "REGR_AVGX", matched)
    ∷ (codes "REGR_AVGY", matched)
    ∷ (codes "REGR_COUNT", matched)
    ∷ (codes "REGR_INTERCEPT", matched)
    ∷ (codes "REGR_R2", matched)
    ∷ (codes "REGR_SLOPE", matched)
    ∷ (codes "REGR_SXX", matched)
    ∷ (codes "REGR_SXY", matched)
    ∷ (codes "REGR_SYY", matched)
    ∷ (codes "RELEASE", matched)
    ∷ (codes "REPLACE", dml)
    ∷ (codes "RESULT", matched)
    ∷ (codes "RETURN", matched)
    ∷ (codes "RETURNS", matched)
    ∷ (codes "REVOKE", matched)
    ∷ (codes "RIGHT", matched)
    ∷ (codes "ROLLBACK", dml)
    ∷ (codes "ROLLUP", matched)
    ∷ (codes "ROW", matched)
    ∷ (codes "ROW_NUMBER", matched)
    ∷ (codes "ROWS", matched)
    ∷ (codes "SAVEPOINT", matched)
    ∷ (codes "SCOPE", matched)
    ∷ (codes "SCROLL", matched)
    ∷ (codes "SEARCH", matched)
    ∷ (codes "SECOND", matched)
    ∷ (codes "SELECT", dml)
    ∷ (codes "SENSITIVE", matched)
    ∷ (codes "SESSION_USER", matched)
    ∷ (codes "SET", matched)
    ∷ (codes "SIMILAR", matched)
    ∷ (codes "SMALLINT", matched)
    ∷ (codes "SOME", matched)
    ∷ (codes "SPECIFIC", matched)
    ∷ (codes "SPECIFICTYPE", matched)
    ∷ (codes "SQL", matched)
    ∷ (codes "SQLEXCEPTION", matched)
    ∷ (codes "SQLSTATE", matched)
    ∷ (codes "SQLWARNING", matched)
    ∷ (codes "SQRT", matched)
    ∷ (codes "START", dml)
    ∷ (codes "STATIC", matched)
    ∷ (codes "STDDEV_POP", matched)
    ∷ (codes "STDDEV_SAMP", matched)
    ∷ (codes "STDIN", matched)
    ∷ (codes "STORED", matched)
    ∷ (codes "SUBMULTISET", matched)
    ∷ (codes "SUBSTRING", matched)
    ∷ (codes "SUBSTRING_REGEX", matched)
    ∷ (codes "SUCCEEDS", matched)
    ∷ (codes "SUM", matched)
    ∷ (codes "SYMMETRIC", matched)
    ∷ (codes "SYSTEM", matched)
    ∷ (codes "SYSTEM_TIME", matched)
    ∷ (codes "SYSTEM_USER", matched)
    ∷ (codes "TABLE", matched)
    ∷ (codes "TABLESAMPLE", matched)
    ∷ (codes "TEXT", matched)
    ∷ (codes "THEN", matched)
    ∷ (codes "TIME", matched)
    ∷ (codes "TIMESTAMP", matched)
    ∷ (codes "TIMEZONE_HOUR", matched)
    ∷ (codes "TIMEZONE_MINUTE", matched)
    ∷ (codes "TO", matched)
    ∷ (codes "TRAILING", matched)
    ∷ (codes "TRANSLATE", matched)
    ∷ (codes "TRANSLATE_REGEX", matched)
    ∷ (codes "TRANSLATION", matched)
    ∷ (codes "TREAT", matched)
    ∷ (codes "TRIGGER", matched)
    ∷ (codes "TRUNCATE", matched)
    ∷ (codes "TRIM", matched)
    ∷ (codes "TRIM_ARRAY", matched)
    ∷ (codes "TRUE", matched)
    ∷ (codes "UESCAPE", matched)
    ∷ (codes "UNBOUNDED", matched)
    ∷ (codes "UNION", matched)
    ∷ (codes "UNIQUE", matched)
    ∷ (codes "UNKNOWN", matched)
    ∷ (codes "UNNEST", matched)
    ∷ (codes "UPDATE", dml)
    ∷ (codes "UPPER", matched)
    ∷ (codes "UPSERT", dml)
    ∷ (codes "USER", matched)
    ∷ (codes "USING", matched)
    ∷ (codes "UUID", matched)
    ∷ (codes "VALUE", matched)
    ∷ (codes "VALUES", matched)
    ∷ (codes "VALUE_OF", matched)
    ∷ (codes "VAR_POP", matched)
    ∷ (codes "VAR_SAMP", matched)
    ∷ (codes "VARBINARY", matched)
    ∷ (codes "VARCHAR", matched)
    ∷ (codes "VARYING", matched)
    ∷ (codes "VERSIONING", matched)
    ∷ (codes "VIEW", matched)
    ∷ (codes "WHEN", matched)
    ∷ (codes "WHENEVER", matched)
    ∷ (codes "WHERE", matched)
    ∷ (codes "WIDTH_BUCKET", matched)
    ∷ (codes "WINDOW", matched)
    ∷ (codes "WITH", matched)
    ∷ (codes "WITHIN", matched)
    ∷ (codes "WITHOUT", matched)
    ∷ (codes "YEAR", matched)
    ∷ (codes "ZONE", matched)
    ∷ []

abbrev pub lookup_kind : List (List ℕ × KeywordKind) → List ℕ → Option KeywordKind
lookup_kind [] w = none
lookup_kind ((k, kind) ∷ rest) w = if eqb k w then some kind else lookup_kind rest w

-- `MatchKeyword` on the upper-case word.
unfoldable pub match_keyword : List ℕ → KeywordKind
match_keyword word = elim (lookup_kind (match_a_to_f ++ match_f_to_r ++ match_r_to_z) word) [
  | some kind ↦ kind
  | none ↦ unmatched
]

abbrev pub interbase_keyword_kinds : List (List ℕ × KeywordKind)
interbase_keyword_kinds =
    (codes "ACTIVE", matched)
    ∷ (codes "ASCENDING", matched)
    ∷ (codes "BEFORE", matched)
    ∷ (codes "COMPUTED", matched)
    ∷ (codes "CONTAINING", matched)
    ∷ (codes "DESCENDING", matched)
    ∷ (codes "ENTRY_POINT", matched)
    ∷ (codes "EXCEPTION", matched)
    ∷ (codes "GENERATOR", matched)
    ∷ (codes "INACTIVE", matched)
    ∷ (codes "MANUAL", matched)
    ∷ (codes "PLAN", matched)
    ∷ (codes "POST_EVENT", matched)
    ∷ (codes "RECORD_VERSION", matched)
    ∷ (codes "RETURNING_VALUES", matched)
    ∷ (codes "SHADOW", matched)
    ∷ (codes "SUSPEND", matched)
    ∷ (codes "TRIGGER", matched)
    ∷ (codes "UNCOMMITTED", matched)
    ∷ (codes "VARIABLE", matched)
    ∷ (codes "WAIT", matched)
    ∷ (codes "WEEK", matched)
    ∷ (codes "WORK", matched)
    ∷ (codes "WRITE", matched)
    ∷ (codes "YEAR", matched)
    ∷ []

-- `(*InterBaseDialect).MatchKeyword`
unfoldable pub interbase_match_keyword : List ℕ → KeywordKind
unfolding match_keyword
interbase_match_keyword word = elim (lookup_kind interbase_keyword_kinds word) [
  | some kind ↦ kind
  | none ↦ match_keyword word
]

abbrev pub duckdb_keywords : List (List ℕ)
duckdb_keywords =
    codes "ANTI"
    ∷ codes "ASOF"
    ∷ codes "COLUMNS"
    ∷ codes "DESCRIBE"
    ∷ codes "EXCLUDE"
    ∷ codes "MACRO"
    ∷ codes "MAP"
    ∷ codes "PIVOT"
    ∷ codes "POSITIONAL"
    ∷ codes "QUALIFY"
    ∷ codes "REPLACE"
    ∷ codes "SEMI"
    ∷ codes "SEQUENCE"
    ∷ codes "STRUCT"
    ∷ codes "SUMMARIZE"
    ∷ codes "UNION"
    ∷ codes "UNPIVOT"
    ∷ []

-- `(*duckDBDialect).MatchKeyword`
unfoldable pub duckdb_match_keyword : List ℕ → KeywordKind
duckdb_match_keyword word = elim (lookup_kind (match_a_to_f ++ match_f_to_r ++ match_r_to_z) word) [
  | some kind ↦ kind
  | none ↦ if contains duckdb_keywords word then matched else unmatched
]
