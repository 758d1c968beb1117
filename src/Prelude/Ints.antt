-- ===== src/Prelude/Ints.antt =====
-- Python's integers where the source packs or unpacks signed values.
use Prim.Native.Nat.{ℕ}

-- `negsuc n` is -(n + 1).
pub data ℤ : Type 0 where
  pos : ℕ → ℤ
  negsuc : ℕ → ℤ
