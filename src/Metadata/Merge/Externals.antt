-- ===== src/Metadata/Merge/Externals.antt =====
-- metadata/merge.go: the functions of Go's library that the merge calls.
use sqls.Base.{Bool, List, Option, ℕ}
use sqls.Catalog.Types.{IndexDesc, TriggerDesc}

-- What the code calls of Go's library.

pub record Externals : Type 0 where
  pub fold_equal : List ℕ → List ℕ → Bool
  pub to_upper : List ℕ → List ℕ
  pub trim_space : List ℕ → List ℕ
  pub sort_indexes : List (Option IndexDesc) → List (Option IndexDesc)
  pub sort_triggers : List (Option TriggerDesc) → List (Option TriggerDesc)
