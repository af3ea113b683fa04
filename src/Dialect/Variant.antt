-- ===== src/Dialect/Variant.antt =====
-- dialect/variant.go: the dialect of a driver and of its server's variant. The source's types are
-- strings with constants; a constant is a constructor here, and any other string is `other_…`.
use sqls.Base.{Bool, List, false, if◌then◌else◌, true, ℕ, ◌==◌}
use sqls.Dialect.Rules.{Dialect, duckdb, generic, interbase, postgresql}

pub data DatabaseDriver : Type 0 where
  interbase_driver postgresql_driver duckdb_driver : DatabaseDriver
  other_driver : List ℕ → DatabaseDriver

pub data SqlVariant : Type 0 where
  variant_default interbase1 interbase3 firebird25_dialect1 firebird25_dialect3 : SqlVariant
  other_variant : List ℕ → SqlVariant

pub record DriverVariant : Type 0 where
  pub driver : DatabaseDriver
  pub variant : SqlVariant

-- `InterBaseSQLVariant` and `FirebirdSQLVariant`
unfoldable pub interbase_sql_variant : ℕ → SqlVariant
interbase_sql_variant sql_dialect = if sql_dialect == 1 then interbase1 else interbase3

unfoldable pub firebird_sql_variant : ℕ → SqlVariant
firebird_sql_variant sql_dialect =
    if sql_dialect == 1 then firebird25_dialect1 else firebird25_dialect3

-- `SQLVariant.IsFirebird`
unfoldable pub is_firebird : SqlVariant → Bool
is_firebird firebird25_dialect1 = true
is_firebird firebird25_dialect3 = true
is_firebird _ = false

-- `SQLVariant.InterBaseSQLDialect`
unfoldable pub interbase_sql_dialect : SqlVariant → ℕ
interbase_sql_dialect interbase1 = 1
interbase_sql_dialect firebird25_dialect1 = 1
interbase_sql_dialect _ = 3

-- `DialectForDriverVariant`, whose driver is passed apart.
unfoldable pub dialect_for : DatabaseDriver → SqlVariant → Dialect
unfolding interbase_sql_dialect
dialect_for interbase_driver variant = interbase (interbase_sql_dialect variant)
dialect_for postgresql_driver variant = postgresql
dialect_for duckdb_driver variant = duckdb
dialect_for (other_driver name) variant = generic

unfoldable pub dialect_for_driver_variant : DriverVariant → Dialect
unfolding dialect_for
dialect_for_driver_variant dv = dialect_for dv.driver dv.variant

-- `DialectForDriver`
unfoldable pub dialect_for_driver : DatabaseDriver → Dialect
unfolding dialect_for_driver_variant
dialect_for_driver driver =
    dialect_for_driver_variant (record { driver = driver; variant = variant_default })
