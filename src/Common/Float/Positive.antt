-- ===== src/Common/Float/Positive.antt =====
-- Common/Float: the rounded-up quotient of positive numbers.
use Prim.Native.Nat.{ℕ, zero, suc, ◌+◌, ◌*◌, ◌/◌, ◌%◌, ◌^◌, ◌≤◌, ◌<◌}
use mathlib.Core.Path.{◌≡◌, ap}
use mathlib.Core.Logic.{inl, inr}
use mathlib.Core.Bool.{false}
use native.Mathlib.Omega.{arith}
use native.Mathlib.Nat.{mul-le-mul_right, mul_comm, lt_of_mul-lt-mul_right, add-mul}
use solocoder_6069_go_drive.Common.Tests.{==_iff, ltb, ◌==◌, Bool-cases}
use solocoder_6069_go_drive.Common.Float.{
  ceil_div, round_div, coarse, fine, float_of, ceil_quotient, ceil_float,
}
use solocoder_6069_go_drive.Common.Float.Rounding.{division, round_div-cases}

coarse-bounds : (fuel n : ℕ) → 0 < n → (0 < coarse fuel n) × (coarse fuel n ≤ n)
unfolding coarse
coarse-bounds zero n p = (omega arith, omega arith)
coarse-bounds (suc fuel) n p = elim (Bool-cases (ltb n (2 ^ 53))) [
  | inl e ↦ rw e (omega arith, omega arith)
  | inr e ↦
      let (low, high) = coarse-bounds fuel (n / 2) (ground arith) in
      rw e (omega (arith, low), omega (arith, high))
]

fine_positive : (fuel n : ℕ) → 0 < fine fuel n
unfolding fine
fine_positive zero n = omega arith
fine_positive (suc fuel) n = elim (Bool-cases (ltb n (2 ^ 52))) [
  | inl e ↦ rw e (omega (arith, fine_positive fuel (n * 2)))
  | inr e ↦ rw e (omega arith)
]

div_positive : (a b : ℕ) → 0 < b → b ≤ a → 0 < a / b
div_positive a b p l =
    let (e, r) = division a b p in
    let one : 1 * b < (a / b + 1) * b = omega (arith, e, r, l, add-mul (a / b) 1 b) in
    let low : 1 < a / b + 1 = lt_of_mul-lt-mul_right b one in omega (arith, low)

round_div_positive : (a b : ℕ) → 0 < b → b ≤ a → 0 < round_div a b
round_div_positive a b p l =
    let low = div_positive a b p l in
    elim (round_div-cases a b p) [ inl (n, h) ↦ rw n low | inr (n, h) ↦ rw n (omega arith) ]

mul_positive : (a b : ℕ) → 0 < a → 0 < b → 0 < a * b
mul_positive a b p q = let l : 1 * b ≤ a * b = mul-le-mul_right b p in omega (arith, l, q)

ceil_div_positive : (a b : ℕ) → 0 < a → 0 < b → 0 < ceil_div a b
unfolding ceil_div
ceil_div_positive a b p q =
    let (e, r) = division a b q in
    elim (Bool-cases (a % b == 0)) [
      | inl z ↦ rw z (elim (Bool-cases (a / b == 0)) [
        | inl y ↦
            let none : a / b ≡ 0 = (==_iff (a / b) 0).0 y in
            let rest : a % b ≡ 0 = (==_iff (a % b) 0).0 z in
            let no : ⊥ = omega (arith, e, ap (λ x. x * b) none, rest, p) in absurd no
        | inr y ↦ ground arith
      ])
      | inr z ↦ rw z (omega arith)
    ]

float_of_positive : (n : ℕ) → 0 < n → 0 < float_of n
unfolding float_of
float_of_positive n p =
    let (low, high) = coarse-bounds 12 n p in
    mul_positive (round_div n (coarse 12 n)) (coarse 12 n)
      (round_div_positive n (coarse 12 n) low high) low

quotient_positive : (a b : ℕ) → 0 < a → 0 < b → 0 < ceil_quotient a b
unfolding ceil_quotient
quotient_positive a b p q = elim (Bool-cases (ltb a b)) [
  | inl e ↦ let some : (a == 0) ≡ false = ground arith in rw (e, some) (omega arith)
  | inr e ↦
      let n = a / b in
      let m = fine 53 (a / b) in
      let d = coarse 12 (a / b) in
      let (whole, r) = division a b q in
      let (low, high) = coarse-bounds 12 (a / b) (div_positive a b q (ground arith)) in
      let pm = fine_positive 53 (a / b) in
      let times : d * b ≤ n * b = mul-le-mul_right b high in
      let once : 1 * a ≤ m * a = mul-le-mul_right a pm in
      let fits : b * d ≤ a * m = omega (arith, times, once, whole, mul_comm b d, mul_comm a m) in
      rw e (
        ceil_div_positive (round_div (a * m) (b * d) * d) m
          (mul_positive (round_div (a * m) (b * d)) d
            (round_div_positive (a * m) (b * d) (mul_positive b d q low) fits) low)
          pm)
]

-- A quotient of positive numbers is not rounded to 0.
pub ceil_float_positive : (a b : ℕ) → 0 < a → 0 < b → 0 < ceil_float a b
unfolding ceil_float
ceil_float_positive a b p q =
    quotient_positive (float_of a) (float_of b) (float_of_positive a p) (float_of_positive b q)
