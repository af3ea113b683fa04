-- ===== src/Token/Printable.antt =====
-- dialect/variant.go, token/lexer.go: the drivers whose tokens can be printed again.
use sqls.Base.{List, arith, false, refl, some, ℕ, ◌≡◌, ◌≢◌}
use sqls.Dialect.Variant.{
  DatabaseDriver, DriverVariant, SqlVariant, dialect_for, dialect_for_driver_variant, duckdb_driver,
  interbase_driver, other_driver, postgresql_driver,
}
use sqls.Token.Step.{preserves}
use sqls.Token.Lossless.{IsVerbatim}
use sqls.Token.Verbatim.{has_cr}
use sqls.Token.Stream.{tokenize, illegal_text, skip_bom}
use sqls.Token.RoundTrip.{print, print-tokenize}

-- Every driver with a dialect of its own, in each variant.
abbrev pub HasOwnDialect : DatabaseDriver → Type 0
HasOwnDialect (other_driver name) = ⊥
HasOwnDialect _ = Unit

dialect_for-IsVerbatim :
    (driver : DatabaseDriver) (variant : SqlVariant)
    → HasOwnDialect driver
    → IsVerbatim (dialect_for driver variant)
unfolding dialect_for preserves
dialect_for-IsVerbatim interbase_driver variant h = record {
  escapes = refl;
  whole = refl;
  quotes = λ r e. ground arith;
}
dialect_for-IsVerbatim postgresql_driver variant h = record {
  escapes = refl;
  whole = refl;
  quotes = λ r e. ground arith;
}
dialect_for-IsVerbatim duckdb_driver variant h = record {
  escapes = refl;
  whole = refl;
  quotes = λ r e. ground arith;
}
dialect_for-IsVerbatim (other_driver name) variant h = absurd h

-- Under the dialect that `DialectForDriverVariant` gives for InterBase and Firebird in any variant, for
-- PostgreSQL and for DuckDB, a text with no carriage return and no illegal sequence is what its tokens
-- print, but for a byte order mark at its start, which is dropped.
pub print-tokenize_driver :
    (up : List ℕ → List ℕ) (dv : DriverVariant) (src : List ℕ)
    → HasOwnDialect dv.driver
    → has_cr src ≡ false
    → (tokenize up (dialect_for_driver_variant dv) src).error ≢ some illegal_text
    → print (tokenize up (dialect_for_driver_variant dv) src).tokens ≡ skip_bom src
unfolding dialect_for_driver_variant
print-tokenize_driver up dv src h =
    print-tokenize up (dialect_for_driver_variant dv)
      (dialect_for-IsVerbatim dv.driver dv.variant h) src
