-- ===== src/Common/Integers.antt =====
-- The integers over the native numbers.
use Prim.Native.Nat.{ℕ, zero, suc}

pub data ℤ : Type 0 where
  pos : ℕ → ℤ
  negsuc : ℕ → ℤ

-- `-n`
abbrev pub neg : ℕ → ℤ
neg zero = ℤ.pos 0
neg (suc n) = ℤ.negsuc n
