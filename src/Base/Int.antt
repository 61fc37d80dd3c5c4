-- ===== src/Base/Int.antt =====
-- Signed integers over the native numbers, as far as the sources use them; `negsuc n` is -(n + 1).
use silokatana.Base.Tests.{ltb}
use Prim.Native.Nat.{ℕ, zero, suc}
use mathlib.Core.Bool.{Bool, true, false}

pub data ℤ : Type 0 where
  pos : ℕ → ℤ
  negsuc : ℕ → ℤ

-- x++
unfoldable pub incr : ℤ → ℤ
incr (pos n) = pos (suc n)
incr (negsuc zero) = pos 0
incr (negsuc (suc n)) = negsuc n

-- x == -1
unfoldable pub is_minus_one : ℤ → Bool
is_minus_one (pos n) = false
is_minus_one (negsuc zero) = true
is_minus_one (negsuc (suc n)) = false

-- k < x, for a constant k that is not negative
unfoldable pub above : ℤ → ℕ → Bool
above (pos n) k = ltb k n
above (negsuc n) k = false
