-- ===== src/Tests/Samples.antt =====
-- catalog/cache.go: a cache with nothing in it.
use sqls.Base.{[], none}
use sqls.Catalog.Cache.{Cache}

abbrev pub empty_cache : Cache
empty_cache = record {
  default_schema = [];
  schemas_map = none;
  schema_tables = none;
  columns_with_parent = none;
  columns_by_id = none;
  foreign_key_map = none;
  metadata = λ k. none;
  primary_key_columns = none;
  primary_keys_by_id = none;
  catalog = none;
  dependency_graph = none;
}
