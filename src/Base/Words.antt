-- ===== src/Base/Words.antt =====
-- Machine integers as bit patterns: a w-bit value is a number below 2 ^ w.
use Prim.Native.Nat.{ℕ, ◌+◌, ◌-◌, ◌^◌, ◌%◌, ◌<◌}
use mathlib.Core.Path.{◌≡◌}
use mathlib.Core.Bool.{Bool}
use native.Mathlib.Omega.{arith}
use rssdisk.Base.Tests.{ltb, if◌then◌else◌}

-- int32_t + int32_t, wrapping as the compiled code does.
abbrev pub add_i32 : ℕ → ℕ → ℕ
add_i32 a b = (a + b) % 2 ^ 32

-- The conversion of an int32_t to size_t: the sign bit is extended.
abbrev pub i32→size : ℕ → ℕ
i32→size a = if ltb a (2 ^ 31) then a else a + (2 ^ 64 - 2 ^ 32)

-- size_t + size_t.
abbrev pub add_size : ℕ → ℕ → ℕ
add_size a b = (a + b) % 2 ^ 64

-- `a < b` between two int64_t, or between two int32_t: flip the sign bit, and compare.
abbrev pub ltb_i64 : ℕ → ℕ → Bool
ltb_i64 a b = ltb ((a + 2 ^ 63) % 2 ^ 64) ((b + 2 ^ 63) % 2 ^ 64)

abbrev pub ltb_i32 : ℕ → ℕ → Bool
ltb_i32 a b = ltb ((a + 2 ^ 31) % 2 ^ 32) ((b + 2 ^ 31) % 2 ^ 32)

pub i32→size_pos : (a : ℕ) → a < 2 ^ 31 → i32→size a ≡ a
i32→size_pos a h = ground arith
