-- ===== src/Common/Float.antt =====
-- float64 numbers that are not negative, as Go computes int(math.Ceil(float64(a) / float64(b))) for
-- numbers below 2^63: a result has 53 bits, and is rounded to the nearest, a tie to the even one.
pub mod Rounding
pub mod Exact
pub mod Positive
use Prim.Native.Nat.{ℕ, zero, suc, ◌+◌, ◌*◌, ◌/◌, ◌%◌, ◌^◌, ◌≤◌, ◌<◌}
use mathlib.Core.Path.{◌≡◌, refl, ap, ◌∙◌}
use mathlib.Core.Logic.{inl, inr, ◌⊎◌}
use mathlib.Core.Bool.{true, false}
use native.Mathlib.Omega.{arith}
use native.Mathlib.Nat.{
  div-add-mod, mod-lt, mul-le-mul_right, mul_comm, div-le_self, mul_right_comm,
  lt_of_mul-lt-mul_right, suc-mul, add-mul,
}
use solocoder_6069_go_drive.Common.Tests.{==_iff, ltb, ◌==◌, if◌then◌else◌, Bool-cases}

-- The rounded-up quotient.
unfoldable pub ceil_div : ℕ → ℕ → ℕ
ceil_div a b = if a % b == 0 then a / b else a / b + 1

-- The nearest number to a quotient.
unfoldable pub round_div : ℕ → ℕ → ℕ
round_div a b =
    if ltb (a % b * 2) b then a / b else if ltb b (a % b * 2) then a / b + 1 else a / b + a / b % 2

-- The distance of the float64 numbers at n, where n has more than 53 bits.
unfoldable pub coarse : ℕ → ℕ → ℕ
coarse zero n = 1
coarse (suc fuel) n = let rest = coarse fuel (n / 2) in if ltb n (2 ^ 53) then 1 else rest * 2

-- How many float64 numbers there are to 1 at n, where n has at most 53 bits.
unfoldable pub fine : ℕ → ℕ → ℕ
fine zero n = 1
fine (suc fuel) n = let rest = fine fuel (n * 2) in if ltb n (2 ^ 52) then rest * 2 else 1

-- float64(n)
unfoldable pub float_of : ℕ → ℕ
unfolding round_div coarse
float_of n = round_div n (coarse 12 n) * coarse 12 n

-- The rounded-up float64 quotient of two float64 numbers.
unfoldable pub ceil_quotient : ℕ → ℕ → ℕ
unfolding ceil_div round_div coarse fine
ceil_quotient a b =
    if ltb a b
    then if a == 0 then 0 else 1
    else ceil_div (round_div (a * fine 53 (a / b)) (b * coarse 12 (a / b)) * coarse 12 (a / b))
        (fine 53 (a / b))

unfoldable pub ceil_float : ℕ → ℕ → ℕ
unfolding float_of ceil_quotient
ceil_float a b = ceil_quotient (float_of a) (float_of b)
