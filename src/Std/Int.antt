-- ===== src/Std/Int.antt =====
-- Signed numbers as a sign and a native number.
use cloud_computing.Prelude.{ℕ}

-- `negsuc n` is -(n + 1).
pub data ℤ : Type 0 where
  pos : ℕ → ℤ
  negsuc : ℕ → ℤ
