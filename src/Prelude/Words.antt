-- ===== src/Prelude/Words.antt =====
-- C's `int` and `long` as bit patterns: numbers below 2 ^ 32 and 2 ^ 64, with the wrap-around
-- written out. A pattern from 2 ^ 31 (2 ^ 63) on stands for a negative number.
use Prim.Native.Nat.{ℕ, ◌+◌, ◌-◌, ◌*◌, ◌%◌, ◌^◌, ◌<◌}
use mathlib.Core.Path.{◌≡◌}
use mathlib.Core.Logic.{◌↔◌}
use mathlib.Core.Bool.{Bool, true}
use native.Mathlib.Omega.{arith}
use Prim.Native.Nat.{compare, Ordering}

-- `x++` on an int.
abbrev pub incr : ℕ → ℕ
incr x = (x + 1) % 2 ^ 32

-- `x += y` on ints.
abbrev pub add_int : ℕ → ℕ → ℕ
add_int x y = (x + y) % 2 ^ 32

abbrev pub sub_int : ℕ → ℕ → ℕ
sub_int x y = (x + 2 ^ 32 - y % 2 ^ 32) % 2 ^ 32

abbrev pub mul_int : ℕ → ℕ → ℕ
mul_int x y = (x * y) % 2 ^ 32

-- `a < b` on ints: with the sign bit flipped the order is that of the patterns.
abbrev pub lt_int : ℕ → ℕ → Bool
lt_int a b = elim (compare ((a + 2 ^ 31) % 2 ^ 32) ((b + 2 ^ 31) % 2 ^ 32)) [
  | Ordering.lt ↦ Bool.true
  | _ ↦ Bool.false
]

-- The same on longs.
abbrev pub lt_long : ℕ → ℕ → Bool
lt_long a b = elim (compare ((a + 2 ^ 63) % 2 ^ 64) ((b + 2 ^ 63) % 2 ^ 64)) [
  | Ordering.lt ↦ Bool.true
  | _ ↦ Bool.false
]

-- A pattern that stands for a number from 0 on.
abbrev pub IsNat32 : ℕ → Type 0
IsNat32 x = x < 2 ^ 31

pub lt_int_iff : (a b : ℕ) → IsNat32 a → IsNat32 b → (lt_int a b ≡ true) ↔ (a < b)
lt_int_iff a b ha hb = ground arith
