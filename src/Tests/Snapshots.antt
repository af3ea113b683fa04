-- ===== src/Tests/Snapshots.antt =====
-- internal/handler/snapshot_store.go: escaped names, and the results at them.
use sqls.Base.{All, List, arith, codes, length, refl, ℕ, ◌*◌, ◌≡◌, ◌≤◌}
use sqls.Snapshots.Names.{escape_snapshot_name}
use sqls.Snapshots.Escape.{IsSafe, escape_snapshot_name-injective, escape_snapshot_name-bounds}

abbrev object_name : List ℕ
object_name = codes "MY$/P"

escape-object_name : escape_snapshot_name object_name ≡ codes "MY%24%2FP"
unfolding escape_snapshot_name
escape-object_name = refl

-- A kind with this name would stand for the parent directory.
escape-parent : escape_snapshot_name (codes "..") ≡ codes ".."
unfolding escape_snapshot_name
escape-parent = refl

escape_snapshot_name-injective_example : object_name ≡ object_name
escape_snapshot_name-injective_example =
    escape_snapshot_name-injective object_name object_name (omega arith) (omega arith) refl

escape_snapshot_name-bounds_example :
    All IsSafe (escape_snapshot_name object_name)
    × (length object_name ≤ length (escape_snapshot_name object_name))
    × (length (escape_snapshot_name object_name) ≤ 3 * length object_name)
escape_snapshot_name-bounds_example = escape_snapshot_name-bounds object_name (omega arith)
