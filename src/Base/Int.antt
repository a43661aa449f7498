-- ===== src/Base/Int.antt =====
-- Signed integers over the native numbers, under the library's names: Go's `int` and `int64`
-- where a sign matters. The wrap-around of a 64-bit value is written out where it can happen.
use promptshield_beta.Base.Tests.{leb, if◌then◌else◌, ltb, ◌==◌}
use Prim.Native.Nat.{ℕ, suc, ◌+◌, ◌-◌, ◌^◌}
use mathlib.Core.Bool.{Bool, false}

-- `negsuc n` is -(n + 1).
pub data ℤ : Type 0 where
  pos : ℕ → ℤ
  negsuc : ℕ → ℤ

-- The value where it is not negative, else 0: Go's `max(x, 0)`.
abbrev pub pos_part : ℤ → ℕ
pos_part (pos n) = n
pos_part (negsuc n) = 0

abbrev pub neg_part : ℤ → ℕ
neg_part (pos n) = 0
neg_part (negsuc n) = suc n

-- a - b, as an integer.
abbrev pub sub_ℕ : ℕ → ℕ → ℤ
sub_ℕ a b = if leb b a then pos (a - b) else negsuc (b - a - 1)

-- The test `x > 0`.
abbrev pub is_pos : ℤ → Bool
is_pos (pos n) = ltb 0 n
is_pos (negsuc n) = false

-- The largest `int64`, and `x + 1` on it: the largest value wraps to the smallest.
abbrev pub max_int64 : ℕ
max_int64 = 2 ^ 63 - 1

abbrev pub suc_int64 : ℤ → ℤ
suc_int64 (pos n) = if n == max_int64 then negsuc max_int64 else pos (n + 1)
suc_int64 (negsuc n) = sub_ℕ 0 n

-- a < b and a == b
abbrev pub ltb_int : ℤ → ℤ → Bool
ltb_int a b = ltb (pos_part a + neg_part b) (pos_part b + neg_part a)

abbrev pub same_int : ℤ → ℤ → Bool
same_int a b = pos_part a + neg_part b == pos_part b + neg_part a
