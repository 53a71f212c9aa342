-- ===== src/Int.antt =====
-- Whole numbers of either sign, as a JS caller passes them.
use Prim.Native.Nat.{ℕ}

-- `negsuc n` is -(n + 1).
pub data ℤ : Type 0 where
  pos : ℕ → ℤ
  negsuc : ℕ → ℤ
