-- ===== src/Base/Ints.antt =====
-- Go's signed integers: `negsuc n` is `- (n + 1)`.
use Prim.Native.Nat.{ℕ}

pub data ℤ : Type 0 where
  pos negsuc : ℕ → ℤ
