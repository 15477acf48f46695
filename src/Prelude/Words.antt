-- ===== src/Prelude/Words.antt =====
-- Machine integers: `int64_t` values as signed numbers, and the narrowing casts of the C++ code.
use Prim.Native.Nat.{ℕ, ◌-◌, ◌%◌, ◌^◌, ◌<◌, ◌≤◌}
use mathlib.Core.Path.{◌≡◌}
use mathlib.Core.Bool.{Bool, true, false}
use native.Mathlib.Omega.{arith}
use audpipe_cpp.Prelude.Tests.{ltb}

-- `negsuc n` is -(n + 1).
pub data ℤ : Type 0 where
  pos : ℕ → ℤ
  negsuc : ℕ → ℤ

-- `z < 0`
abbrev pub is_negative : ℤ → Bool
is_negative (pos n) = false
is_negative (negsuc n) = true

-- `a < b` on signed numbers.
abbrev pub ltb_ℤ : ℤ → ℤ → Bool
ltb_ℤ (pos a) (pos b) = ltb a b
ltb_ℤ (pos a) (negsuc b) = false
ltb_ℤ (negsuc a) (pos b) = true
ltb_ℤ (negsuc a) (negsuc b) = ltb b a

-- A result that is no error, which is a negative number, is no more than `size`.
abbrev pub IsAtMost : ℕ → ℤ → Type 0
IsAtMost size (negsuc n) = Unit
IsAtMost size (pos n) = n ≤ size

-- The value of a number that is known not to be negative.
abbrev pub magnitude : ℤ → ℕ
magnitude (pos n) = n
magnitude (negsuc n) = 0

-- `static_cast<uint16_t>(z)` and `static_cast<uint32_t>(z)`: the value modulo 2^w.
unfoldable pub cast_u16 : ℤ → ℕ
cast_u16 (pos n) = n % 2 ^ 16
cast_u16 (negsuc n) = 2 ^ 16 - 1 - n % 2 ^ 16

unfoldable pub cast_u32 : ℤ → ℕ
cast_u32 (pos n) = n % 2 ^ 32
cast_u32 (negsuc n) = 2 ^ 32 - 1 - n % 2 ^ 32

pub cast_u16-lt : (z : ℤ) → cast_u16 z < 2 ^ 16
unfolding cast_u16
cast_u16-lt (pos n) = omega arith
cast_u16-lt (negsuc n) = omega arith

pub cast_u32-lt : (z : ℤ) → cast_u32 z < 2 ^ 32
unfolding cast_u32
cast_u32-lt (pos n) = omega arith
cast_u32-lt (negsuc n) = omega arith

pub cast_u32-pos : (n : ℕ) → n < 2 ^ 32 → cast_u32 (pos n) ≡ n
unfolding cast_u32
cast_u32-pos n h = omega arith

pub cast_u16-pos : (n : ℕ) → n < 2 ^ 16 → cast_u16 (pos n) ≡ n
unfolding cast_u16
cast_u16-pos n h = omega arith
