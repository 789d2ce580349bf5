-- ===== src/Prelude/Int.antt =====
-- Signed integers. `negsuc n` is -(n + 1). A Go `int`, `int64` or `int32` is a ℤ in its range.
use Prim.Native.Nat.{ℕ, suc, ◌+◌, ◌-◌, ◌%◌, ◌^◌, ◌<◌}
use mathlib.Core.Path.{◌≡◌}
use mathlib.Core.Bool.{Bool}
use native.Mathlib.Omega.{arith}
use gator_cli.Prelude.Tests.{ltb, leb, if◌then◌else◌}

pub data ℤ : Type 0 where
  pos : ℕ → ℤ
  negsuc : ℕ → ℤ

abbrev pub pos_part : ℤ → ℕ
pos_part (pos n) = n
pos_part (negsuc n) = 0

abbrev pub neg_part : ℤ → ℕ
neg_part (pos n) = 0
neg_part (negsuc n) = suc n

-- a - b, as an integer.
abbrev pub sub_ℕ : ℕ → ℕ → ℤ
sub_ℕ a b = if leb b a then pos (a - b) else negsuc (b - a - 1)

infixl 65 ◌+ℤ◌
abbrev pub ◌+ℤ◌ : ℤ → ℤ → ℤ
a +ℤ b = sub_ℕ (pos_part a + pos_part b) (neg_part a + neg_part b)

-- Two's complement: the integer that a 64-bit word holds.
abbrev pub of_word64 : ℕ → ℤ
of_word64 m = if ltb m (2 ^ 63) then pos m else negsuc (2 ^ 64 - 1 - m)

-- What an `int64` operation keeps of its exact result.
abbrev pub int64 : ℤ → ℤ
int64 (pos n) = of_word64 (n % 2 ^ 64)
int64 (negsuc n) = of_word64 (2 ^ 64 - 1 - n % 2 ^ 64)

-- `max(z, 0)`
abbrev pub at_least_zero : ℤ → ℤ
at_least_zero (pos n) = pos n
at_least_zero (negsuc n) = pos 0

-- `0 < z`
abbrev pub is_positive : ℤ → Bool
is_positive z = ltb 0 (pos_part z)

pub int64-pos : (n : ℕ) → n < 2 ^ 63 → int64 (pos n) ≡ pos n
int64-pos n h = ground arith
