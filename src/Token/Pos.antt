-- ===== src/Token/Pos.antt =====
-- token/lexer.go: `Pos` and `ComparePos`. The results 1, -1 and 0 of `ComparePos` are the
-- constructors `greater`, `less` and `equal`.
use sqls.Base.{if◌then◌else◌, ltb, ℕ, ◌&&◌, ◌==◌}

pub record Pos : Type 0 where
  pub line : ℕ
  pub col : ℕ

pub data Comparison : Type 0 where
  less equal greater : Comparison

unfoldable pub compare_pos : Pos → Pos → Comparison
compare_pos x y =
    if x.line == y.line && x.col == y.col
    then equal
    else if ltb y.line x.line
    then greater
    else if ltb x.line y.line
    then less
    else if ltb y.col x.col
    then greater
    else less
