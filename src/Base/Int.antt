-- ===== src/Base/Int.antt =====
-- Go's signed integers as ℤ over the native numbers, and the conversions between widths, which keep
-- the low bits: `uint64(x)` of a negative `x` is x + 2 ^ 64.
use Prim.Native.Nat.{ℕ, ◌-◌, ◌/◌, ◌%◌, ◌^◌, ◌<◌}
use mathlib.Core.Path.{◌≡◌}
use native.Mathlib.Omega.{arith}
use dockerfuse.Base.Tests.{ltb, if◌then◌else◌}

-- `negsuc n` is -(n + 1).
pub data ℤ : Type 0 where
  pos : ℕ → ℤ
  negsuc : ℕ → ℤ

-- The low w bits of a two's complement number.
abbrev pub to_unsigned : ℕ → ℤ → ℕ
to_unsigned m (pos n) = n % m
to_unsigned m (negsuc n) = m - 1 - n % m

-- The signed number of the same bits: the upper half of the patterns is negative.
abbrev pub to_signed : ℕ → ℕ → ℤ
to_signed m n = if ltb (n % m) (m / 2) then pos (n % m) else negsuc (m - 1 - n % m)

abbrev pub to_u64 : ℤ → ℕ
to_u64 = to_unsigned (2 ^ 64)

abbrev pub to_i64 : ℕ → ℤ
to_i64 = to_signed (2 ^ 64)

abbrev pub to_u32 : ℕ → ℕ
to_u32 n = n % 2 ^ 32

abbrev pub to_i32 : ℤ → ℤ
to_i32 z = to_signed (2 ^ 32) (to_unsigned (2 ^ 32) z)

-- The values of an int64.
abbrev pub IsI64 : ℤ → Type 0
IsI64 (pos n) = n < 2 ^ 63
IsI64 (negsuc n) = n < 2 ^ 63

pub to_i64-to_u64 : (z : ℤ) → IsI64 z → to_i64 (to_u64 z) ≡ z
to_i64-to_u64 (pos n) h = ground arith
to_i64-to_u64 (negsuc n) h = ground arith

pub to_u64-to_i64 : (n : ℕ) → n < 2 ^ 64 → to_u64 (to_i64 n) ≡ n
to_u64-to_i64 n h = ground arith
