-- ===== src/Base/Words.antt =====
-- 32-bit words as native numbers below 2 ^ 32; a shift count is taken modulo 32, as x86 does.
use Prim.Native.Nat.{ℕ, ◌+◌, ◌-◌, ◌*◌, ◌/◌, ◌%◌, ◌^◌}
use cs_360_internet_programm.Base.Tests.{ltb, if◌then◌else◌}

abbrev pub u32 : ℕ → ℕ
u32 a = a % 2 ^ 32

-- `a << k` on a 32-bit word.
unfoldable pub shl32 : ℕ → ℕ → ℕ
shl32 a k = u32 (a * 2 ^ (k % 32))

-- `a >> k` on an `unsigned int`.
unfoldable pub shr32 : ℕ → ℕ → ℕ
shr32 a k = a / 2 ^ (k % 32)

-- `a >> k` on an `int` given by its bit pattern: the sign bit is shifted in.
unfoldable pub sar32 : ℕ → ℕ → ℕ
sar32 a k =
    if ltb a (2 ^ 31) then a / 2 ^ (k % 32) else 2 ^ 32 - 1 - (2 ^ 32 - 1 - a) / 2 ^ (k % 32)

-- The conversion of an `int` to an `unsigned long long`.
unfoldable pub sext64 : ℕ → ℕ
sext64 a = if ltb a (2 ^ 31) then a else a + (2 ^ 64 - 2 ^ 32)
