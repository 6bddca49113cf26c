-- ===== src/Base/Int64.antt =====
-- C `int64_t` and `int` arithmetic as the machine does it: a result out of range wraps around.
use dtplayer_c.Base.Tests.{ltb, ◌==◌, if◌then◌else◌}
use dtplayer_c.Base.Int.{ℤ, pos, negsuc, pos_part, neg_part, sub_ℕ, ◌+ℤ◌, ◌-ℤ◌, ltb_ℤ}
use mathlib.Core.Path.{◌≡◌}
use native.Mathlib.Omega.{arith}
use Prim.Native.Nat.{ℕ, ◌<◌, ◌-◌, ◌*◌, ◌/◌, ◌%◌}
use mathlib.Core.Bool.{Bool, ◌&&◌}

abbrev pub eqb_ℤ : ℤ → ℤ → Bool
eqb_ℤ a b = (pos_part a == pos_part b) && (neg_part a == neg_part b)

-- The value in `[-half, half)` that differs by a multiple of `2 * half`.
unfoldable pub wrap : ℕ → ℤ → ℤ
wrap half (pos n) =
    let m = n % (2 * half) in if ltb m half then pos m else negsuc (2 * half - 1 - m)
wrap half (negsuc n) =
    let m = n % (2 * half) in if ltb m half then negsuc m else pos (2 * half - 1 - m)

abbrev pub two_63 : ℕ
two_63 = 9223372036854775808

unfoldable pub int64 : ℤ → ℤ
int64 x = wrap two_63 x

-- A conversion from `int64_t` to `int`.
unfoldable pub int32 : ℤ → ℤ
int32 x = wrap 2147483648 x

-- `a - b` of `int64_t`.
unfoldable pub sub_64 : ℤ → ℤ → ℤ
sub_64 a b = int64 (a -ℤ b)

unfoldable pub add_64 : ℤ → ℤ → ℤ
add_64 a b = int64 (a +ℤ b)

-- `x * n` of `int64_t`.
unfoldable pub mul_64 : ℤ → ℕ → ℤ
mul_64 x n = int64 (sub_ℕ (pos_part x * n) (neg_part x * n))

unfoldable pub llabs : ℤ → ℤ
llabs x = if ltb_ℤ x (pos 0) then sub_64 (pos 0) x else x

-- C division, which drops the fraction.
unfoldable pub quot : ℤ → ℕ → ℤ
quot x n = sub_ℕ (pos_part x / n) (neg_part x / n)

-- A value in range is left alone.
pub int64_pos : (n : ℕ) → n < two_63 → int64 (pos n) ≡ pos n
unfolding int64 wrap
int64_pos n h = ground arith

pub int64_negsuc : (n : ℕ) → n < two_63 → int64 (negsuc n) ≡ negsuc n
unfolding int64 wrap
int64_negsuc n h = ground arith

pub int32_pos : (n : ℕ) → n < 2147483648 → int32 (pos n) ≡ pos n
unfolding int32 wrap
int32_pos n h = ground arith

pub int32_negsuc : (n : ℕ) → n < 2147483648 → int32 (negsuc n) ≡ negsuc n
unfolding int32 wrap
int32_negsuc n h = ground arith
