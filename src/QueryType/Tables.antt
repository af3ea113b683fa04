-- ===== src/QueryType/Tables.antt =====
-- internal/database/query_type.go: the tables. A map to `true` is the list of its keys.
use sqls.Base.{List, [], codes, ℕ, ◌++◌, ◌∷◌}

abbrev pub query_map : List (List ℕ)
query_map =
    codes "WITH"
    ∷ codes "PRAGMA"
    ∷ codes "EXPLAIN"
    ∷ codes "DESCRIBE"
    ∷ codes "DESC"
    ∷ codes "FETCH"
    ∷ codes "SELECT"
    ∷ codes "SHOW"
    ∷ codes "VALUES"
    ∷ codes "LIST"
    ∷ codes "EXEC"
    ∷ []

-- `execMap`, in two halves.
abbrev pub exec_map_abort_to_create : List (List ℕ)
exec_map_abort_to_create =
    codes "ALTER KEYSPACE"
    ∷ codes "CREATE KEYSPACE"
    ∷ codes "DROP KEYSPACE"
    ∷ codes "BEGIN BATCH"
    ∷ codes "APPLY BATCH"
    ∷ codes "BEGIN TRANSACTION"
    ∷ codes "ABORT"
    ∷ codes "ALTER AGGREGATE"
    ∷ codes "ALTER COLLATION"
    ∷ codes "ALTER CONVERSION"
    ∷ codes "ALTER DATABASE"
    ∷ codes "ALTER DEFAULT PRIVILEGES"
    ∷ codes "ALTER DOMAIN"
    ∷ codes "ALTER EVENT TRIGGER"
    ∷ codes "ALTER EXTENSION"
    ∷ codes "ALTER FOREIGN DATA WRAPPER"
    ∷ codes "ALTER FOREIGN TABLE"
    ∷ codes "ALTER FUNCTION"
    ∷ codes "ALTER GROUP"
    ∷ codes "ALTER INDEX"
    ∷ codes "ALTER LANGUAGE"
    ∷ codes "ALTER LARGE OBJECT"
    ∷ codes "ALTER MATERIALIZED VIEW"
    ∷ codes "ALTER OPERATOR CLASS"
    ∷ codes "ALTER OPERATOR FAMILY"
    ∷ codes "ALTER OPERATOR"
    ∷ codes "ALTER POLICY"
    ∷ codes "ALTER ROLE"
    ∷ codes "ALTER RULE"
    ∷ codes "ALTER SCHEMA"
    ∷ codes "ALTER SEQUENCE"
    ∷ codes "ALTER SERVER"
    ∷ codes "ALTER SYSTEM"
    ∷ codes "ALTER TABLESPACE"
    ∷ codes "ALTER TABLE"
    ∷ codes "ALTER TEXT SEARCH CONFIGURATION"
    ∷ codes "ALTER TEXT SEARCH DICTIONARY"
    ∷ codes "ALTER TEXT SEARCH PARSER"
    ∷ codes "ALTER TEXT SEARCH TEMPLATE"
    ∷ codes "ALTER TRIGGER"
    ∷ codes "ALTER TYPE"
    ∷ codes "ALTER USER MAPPING"
    ∷ codes "ALTER USER"
    ∷ codes "ALTER VIEW"
    ∷ codes "ANALYZE"
    ∷ codes "BEGIN"
    ∷ codes "CHECKPOINT"
    ∷ codes "CLOSE"
    ∷ codes "CLUSTER"
    ∷ codes "COMMENT"
    ∷ codes "COMMIT PREPARED"
    ∷ codes "COMMIT"
    ∷ codes "COPY"
    ∷ codes "CREATE ACCESS METHOD"
    ∷ codes "CREATE AGGREGATE"
    ∷ codes "CREATE CAST"
    ∷ codes "CREATE COLLATION"
    ∷ codes "CREATE CONVERSION"
    ∷ codes "CREATE DATABASE"
    ∷ codes "CREATE DOMAIN"
    ∷ codes "CREATE EVENT TRIGGER"
    ∷ codes "CREATE EXTENSION"
    ∷ codes "CREATE FOREIGN DATA WRAPPER"
    ∷ codes "CREATE FOREIGN TABLE"
    ∷ codes "CREATE FUNCTION"
    ∷ codes "CREATE GROUP"
    ∷ codes "CREATE INDEX"
    ∷ codes "CREATE LANGUAGE"
    ∷ codes "CREATE MATERIALIZED VIEW"
    ∷ codes "CREATE OPERATOR CLASS"
    ∷ codes "CREATE OPERATOR FAMILY"
    ∷ codes "CREATE OPERATOR"
    ∷ codes "CREATE POLICY"
    ∷ codes "CREATE ROLE"
    ∷ codes "CREATE RULE"
    ∷ codes "CREATE SCHEMA"
    ∷ codes "CREATE SEQUENCE"
    ∷ codes "CREATE SERVER"
    ∷ codes "CREATE STATISTICS"
    ∷ codes "CREATE SUBSCRIPTION"
    ∷ codes "CREATE TABLE AS"
    ∷ codes "CREATE TABLESPACE"
    ∷ codes "CREATE TABLE"
    ∷ codes "CREATE TEXT SEARCH CONFIGURATION"
    ∷ codes "CREATE TEXT SEARCH DICTIONARY"
    ∷ codes "CREATE TEXT SEARCH PARSER"
    ∷ []

abbrev pub exec_map_create_to_vacuum : List (List ℕ)
exec_map_create_to_vacuum =
    codes "CREATE TEXT SEARCH TEMPLATE"
    ∷ codes "CREATE TRANSFORM"
    ∷ codes "CREATE TRIGGER"
    ∷ codes "CREATE TYPE"
    ∷ codes "CREATE USER MAPPING"
    ∷ codes "CREATE USER"
    ∷ codes "CREATE VIEW"
    ∷ codes "DEALLOCATE"
    ∷ codes "DECLARE"
    ∷ codes "DELETE"
    ∷ codes "DISCARD"
    ∷ codes "DO"
    ∷ codes "DROP ACCESS METHOD"
    ∷ codes "DROP AGGREGATE"
    ∷ codes "DROP CAST"
    ∷ codes "DROP COLLATION"
    ∷ codes "DROP CONVERSION"
    ∷ codes "DROP DATABASE"
    ∷ codes "DROP DOMAIN"
    ∷ codes "DROP EVENT TRIGGER"
    ∷ codes "DROP EXTENSION"
    ∷ codes "DROP FOREIGN DATA WRAPPER"
    ∷ codes "DROP FOREIGN TABLE"
    ∷ codes "DROP FUNCTION"
    ∷ codes "DROP GROUP"
    ∷ codes "DROP INDEX"
    ∷ codes "DROP LANGUAGE"
    ∷ codes "DROP MATERIALIZED VIEW"
    ∷ codes "DROP OPERATOR CLASS"
    ∷ codes "DROP OPERATOR FAMILY"
    ∷ codes "DROP OPERATOR"
    ∷ codes "DROP OWNED"
    ∷ codes "DROP POLICY"
    ∷ codes "DROP PUBLICATION"
    ∷ codes "DROP ROLE"
    ∷ codes "DROP RULE"
    ∷ codes "DROP SCHEMA"
    ∷ codes "DROP SEQUENCE"
    ∷ codes "DROP SERVER"
    ∷ codes "DROP STATISTICS"
    ∷ codes "DROP SUBSCRIPTION"
    ∷ codes "DROP TABLESPACE"
    ∷ codes "DROP TABLE"
    ∷ codes "DROP TEXT SEARCH CONFIGURATION"
    ∷ codes "DROP TEXT SEARCH DICTIONARY"
    ∷ codes "DROP TEXT SEARCH PARSER"
    ∷ codes "DROP TEXT SEARCH TEMPLATE"
    ∷ codes "DROP TRANSFORM"
    ∷ codes "DROP TRIGGER"
    ∷ codes "DROP TYPE"
    ∷ codes "DROP USER MAPPING"
    ∷ codes "DROP USER"
    ∷ codes "DROP VIEW"
    ∷ codes "END"
    ∷ codes "EXECUTE"
    ∷ codes "GRANT"
    ∷ codes "IMPORT FOREIGN SCHEMA"
    ∷ codes "INSERT"
    ∷ codes "LISTEN"
    ∷ codes "LOAD"
    ∷ codes "LOCK"
    ∷ codes "MOVE"
    ∷ codes "NOTIFY"
    ∷ codes "PREPARE TRANSACTION"
    ∷ codes "PREPARE"
    ∷ codes "REASSIGN OWNED"
    ∷ codes "REFRESH MATERIALIZED VIEW"
    ∷ codes "REINDEX"
    ∷ codes "RELEASE"
    ∷ codes "RESET"
    ∷ codes "REVOKE"
    ∷ codes "ROLLBACK PREPARED"
    ∷ codes "ROLLBACK TO SAVEPOINT"
    ∷ codes "ROLLBACK"
    ∷ codes "SAVEPOINT"
    ∷ codes "SECURITY LABEL"
    ∷ codes "SELECT INTO"
    ∷ codes "SET CONSTRAINTS"
    ∷ codes "SET ROLE"
    ∷ codes "SET SESSION AUTHORIZATION"
    ∷ codes "SET TRANSACTION"
    ∷ codes "SET"
    ∷ codes "START TRANSACTION"
    ∷ codes "TRUNCATE"
    ∷ codes "UNLISTEN"
    ∷ codes "UPDATE"
    ∷ codes "VACUUM"
    ∷ []

abbrev pub exec_map : List (List ℕ)
exec_map = exec_map_abort_to_create ++ exec_map_create_to_vacuum

abbrev pub create_ignore : List (List ℕ)
create_ignore =
    codes "DEFAULT"
    ∷ codes "GLOBAL"
    ∷ codes "LOCAL"
    ∷ codes "OR"
    ∷ codes "PROCEDURAL"
    ∷ codes "RECURSIVE"
    ∷ codes "REPLACE"
    ∷ codes "TEMPORARY"
    ∷ codes "TEMP"
    ∷ codes "TRUSTED"
    ∷ codes "UNIQUE"
    ∷ codes "UNLOGGED"
    ∷ []
