-- ===== src/Prelude/Words.antt =====
-- Go's int32 as its bit pattern, a number below 2 ^ 32, with wrapping arithmetic and signed order.
use Prim.Native.Nat.{ℕ, ◌+◌, ◌-◌, ◌%◌, ◌<◌}
use mathlib.Core.Bool.{Bool}
use bilirec.Prelude.Tests.{ltb}

abbrev pub u32_mod : ℕ
u32_mod = 0x1_0000_0000

abbrev pub IsU32 : ℕ → Type 0
IsU32 a = a < u32_mod

abbrev pub IsByte : ℕ → Type 0
IsByte a = a < 256

-- `a + b` and `a - b` on int32 or uint32.
abbrev pub add32 : ℕ → ℕ → ℕ
add32 a b = (a + b) % 0x1_0000_0000

abbrev pub sub32 : ℕ → ℕ → ℕ
sub32 a b = (a + 0x1_0000_0000 - b % 0x1_0000_0000) % 0x1_0000_0000

-- `-a` on int32.
abbrev pub neg32 : ℕ → ℕ
neg32 a = sub32 0 a

-- The signed value of a pattern, moved up by 2 ^ 31: the order of int32 is the order of `bias`.
abbrev pub bias : ℕ → ℕ
bias a = (a + 0x8000_0000) % 0x1_0000_0000

-- `a < b` on int32.
abbrev pub lt_i32 : ℕ → ℕ → Bool
lt_i32 a b = ltb (bias a) (bias b)
