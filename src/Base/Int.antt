-- ===== src/Base/Int.antt =====
-- Go's int where it may be negative and no sum of it is taken.
use Prim.Native.Nat.{ℕ}

pub data ℤ : Type 0 where
  pos negsuc : ℕ → ℤ
