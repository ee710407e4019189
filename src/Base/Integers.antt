-- ===== src/Base/Integers.antt =====
-- Signed integers, for `i64` arguments: `negsuc n` is -(n + 1).
use Prim.Native.Nat.{ℕ}

pub data ℤ : Type 0 where
  pos : ℕ → ℤ
  negsuc : ℕ → ℤ
