-- ===== src/Base/Int.antt =====
-- Signed integers over the native numbers: `negsuc n` is -(n + 1).
use Prim.Native.Nat.{ℕ, ◌+◌, ◌-◌}
use mathlib.Core.Bool.{Bool, true, false}
use star_konflict.Base.Tests.{ltb, leb, if◌then◌else◌}

pub data ℤ : Type 0 where
  pos : ℕ → ℤ
  negsuc : ℕ → ℤ

-- `int32(v)` of a uint32.
unfoldable pub signed32 : ℕ → ℤ
signed32 w = if ltb w 2147483648 then pos w else negsuc (4294967296 - w - 1)

-- A difference of two naturals.
unfoldable pub diff : ℕ → ℕ → ℤ
diff a b = if leb b a then pos (a - b) else negsuc (b - a - 1)

infixl 20 ◌-ℤ◌
unfoldable pub ◌-ℤ◌ : ℤ → ℤ → ℤ
pos a -ℤ pos b = diff a b
pos a -ℤ negsuc b = pos (a + b + 1)
negsuc a -ℤ pos b = negsuc (a + b)
negsuc a -ℤ negsuc b = diff b a

unfoldable pub ltb_ℤ : ℤ → ℤ → Bool
ltb_ℤ (pos a) (pos b) = ltb a b
ltb_ℤ (pos a) (negsuc b) = false
ltb_ℤ (negsuc a) (pos b) = true
ltb_ℤ (negsuc a) (negsuc b) = ltb b a
