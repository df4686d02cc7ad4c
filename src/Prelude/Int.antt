-- ===== src/Prelude/Int.antt =====
-- The type `int`, as an integer, and its 32-bit pattern.
use Prim.Native.Nat.{ℕ, zero, suc, ◌-◌, ◌%◌, ◌<◌}
use mathlib.Core.Path.{◌≡◌}
use mathlib.Core.Bool.{Bool, true, false}
use native.Mathlib.Omega.{arith}
use ifellsofuckinggood.Prelude.Tests.{◌==◌, ltb, if◌then◌else◌}

-- `negsuc n` is -(n + 1).
pub data ℤ : Type 0 where
  pos : ℕ → ℤ
  negsuc : ℕ → ℤ

abbrev pub minus_one : ℤ
minus_one = negsuc 0

abbrev pub eqℤ : ℤ → ℤ → Bool
eqℤ (pos a) (pos b) = a == b
eqℤ (pos a) (negsuc b) = false
eqℤ (negsuc a) (pos b) = false
eqℤ (negsuc a) (negsuc b) = a == b

abbrev pub ltℤ : ℤ → ℤ → Bool
ltℤ (pos a) (pos b) = ltb a b
ltℤ (pos a) (negsuc b) = false
ltℤ (negsuc a) (pos b) = true
ltℤ (negsuc a) (negsuc b) = ltb b a

-- ++x and --x
abbrev pub inc : ℤ → ℤ
inc (pos n) = pos (suc n)
inc (negsuc zero) = pos 0
inc (negsuc (suc n)) = negsuc n

abbrev pub dec : ℤ → ℤ
dec (pos zero) = negsuc 0
dec (pos (suc n)) = pos n
dec (negsuc n) = negsuc (suc n)

-- The range of an `int`.
abbrev pub IsInt32 : ℤ → Type 0
IsInt32 (pos n) = n < 2147483648
IsInt32 (negsuc n) = n < 2147483648

-- The bit pattern of an `int`, two's complement.
unfoldable pub to_u32 : ℤ → ℕ
to_u32 (pos n) = n % 4294967296
to_u32 (negsuc n) = 4294967295 - n % 4294967296

unfoldable pub from_u32 : ℕ → ℤ
from_u32 n = if ltb n 2147483648 then pos n else negsuc (4294967295 - n)

pub to_u32-lt : (z : ℤ) → to_u32 z < 4294967296
unfolding to_u32
to_u32-lt (pos n) = omega arith
to_u32-lt (negsuc n) = omega arith

pub from_u32-to_u32 : (z : ℤ) → IsInt32 z → from_u32 (to_u32 z) ≡ z
unfolding from_u32 to_u32
from_u32-to_u32 (pos n) h = ground arith
from_u32-to_u32 (negsuc n) h = ground arith
