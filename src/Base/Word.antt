-- ===== src/Base/Word.antt =====
-- The C integer types as numbers: an intN_t or uintN_t is its bit pattern, below 2 ^ N.
use Prim.Native.Nat.{ℕ, ◌+◌, ◌-◌, ◌%◌, ◌^◌}
use mathlib.Core.Bool.{Bool}
use sparcy.Base.Tests.{ltb, leb, if◌then◌else◌}

-- Casts to the unsigned types, which keep the low bits.
abbrev pub u8 : ℕ → ℕ
u8 n = n % 2 ^ 8

abbrev pub u16 : ℕ → ℕ
u16 n = n % 2 ^ 16

abbrev pub u32 : ℕ → ℕ
u32 n = n % 2 ^ 32

abbrev pub u64 : ℕ → ℕ
u64 n = n % 2 ^ 64

-- The pattern of the int -n.
abbrev pub neg32 : ℕ → ℕ
neg32 n = (2 ^ 32 - n) % 2 ^ 32

-- An int is negative.
abbrev pub is_neg32 : ℕ → Bool
is_neg32 n = leb (2 ^ 31) n

-- The conversion of an int to a 64-bit type extends its sign.
abbrev pub sext64 : ℕ → ℕ
sext64 n = if ltb n (2 ^ 31) then n else n + (2 ^ 64 - 2 ^ 32)
