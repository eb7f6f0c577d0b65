-- ===== src/Base/Ints.antt =====
-- Integers over the native numbers, for the differences that may be negative.
use Prim.Native.Nat.{ℕ, ◌-◌}
use cloudpam.Base.Tests.{leb, if◌then◌else◌}

pub data ℤ : Type 0 where
  pos : ℕ → ℤ
  negsuc : ℕ → ℤ

-- The difference of two natural numbers
unfoldable pub difference : ℕ → ℕ → ℤ
difference a b = if leb b a then pos (a - b) else negsuc (b - a - 1)
