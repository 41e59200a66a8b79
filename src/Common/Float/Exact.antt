-- ===== src/Common/Float/Exact.antt =====
-- Common/Float: the rounded-up quotient of numbers below 2^53.
use Prim.Native.Nat.{ℕ, ◌+◌, ◌*◌, ◌/◌, ◌%◌, ◌^◌, ◌≤◌, ◌<◌}
use mathlib.Core.Path.{◌≡◌, refl, ap, ◌∙◌}
use mathlib.Core.Logic.{inl, inr}
use mathlib.Core.Bool.{true}
use native.Mathlib.Omega.{arith}
use native.Mathlib.Nat.{mul_comm, div-le_self, mul_right_comm, lt_of_mul-lt-mul_right, add-mul}
use solocoder_6069_go_drive.Common.Tests.{==_iff, ltb, ◌==◌, if◌then◌else◌, Bool-cases}
use solocoder_6069_go_drive.Common.Float.{
  ceil_div, round_div, coarse, fine, float_of, ceil_quotient, ceil_float,
}
use solocoder_6069_go_drive.Common.Float.Rounding.{
  division, doubled, fine-large, ceil_div-between, ceil_div-multiple, rounded-exact,
  rounded-between,
}

coarse-small : (n : ℕ) → n < 2 ^ 53 → coarse 12 n ≡ 1
unfolding coarse
coarse-small n l = let e : ltb n (2 ^ 53) ≡ true = ground arith in rw e refl

round_div-one : (n : ℕ) → round_div n 1 ≡ n
unfolding round_div
round_div-one n = ground arith

-- Numbers below 2^53 are float64 numbers.
float_of-small : (n : ℕ) → n < 2 ^ 53 → float_of n ≡ n
unfolding float_of
float_of-small n l = rw (coarse-small n l, round_div-one n) (omega arith)

small-quotient : (a b : ℕ) → a < b → (if a == 0 then 0 else 1) ≡ ceil_div a b
unfolding ceil_div
small-quotient a b l =
    let (e, r) = division a b (omega arith) in
    let first : a / b * b < 1 * b = omega (arith, e, l) in
    let low : a / b < 1 = lt_of_mul-lt-mul_right b first in
    let none : a / b ≡ 0 = omega (arith, low) in
    let whole : a % b ≡ a = omega (arith, e, ap (λ x. x * b) none) in
    rw (none, whole) (ground arith)

large-quotient :
    (a b : ℕ)
    → a < 2 ^ 53
    → 0 < b
    → b ≤ a
    → ceil_div (round_div (a * fine 53 (a / b)) b) (fine 53 (a / b)) ≡ ceil_div a b
unfolding doubled
large-quotient a b l p le =
    let q = a / b in
    let m = fine 53 (a / b) in
    let (e, r) = division a b p in
    let one : 1 * b < (q + 1) * b = omega (arith, e, r, le, add-mul q 1 b) in
    let some : 1 < q + 1 = lt_of_mul-lt-mul_right b one in
    let many : 2 ^ 52 ≤ q * m = fine-large 53 q (enough q some) in
    let product : q * b < q * (m * 2) =
      omega (arith, e, l, many, mul_comm q (m * 2), mul_right_comm m 2 q, mul_comm m q) in
    let fits : b < m * 2 = lt_of_mul-lt-mul_right q (flip q b (m * 2) product) in
    let pm : 0 < m = omega (arith, fits) in
    elim (Bool-cases (a % b == 0)) [
      | inl z ↦
          let none : a % b ≡ 0 = (==_iff (a % b) 0).0 z in
          let n : round_div (a * m) b ≡ q * m =
            ap (λ x. round_div (x * m) b) e ∙ rounded-exact b q (a % b) m r fits none in
          ap (λ x. ceil_div x m) n ∙ ceil_div-multiple q m pm ∙ (unfold ceil_div in rw z refl)
      | inr z ↦
          let rest : 0 < a % b = ground arith in
          let (low, high) = rounded-between b q (a % b) m r fits rest in
          let n : round_div (a * m) b ≡ round_div ((q * b + a % b) * m) b =
            ap (λ x. round_div (x * m) b) e in
          ap (λ x. ceil_div x m) n
          ∙ ceil_div-between (round_div ((q * b + a % b) * m) b) q m low high
          ∙ (unfold ceil_div in rw z refl)
    ]
  where
    enough : (n : ℕ) → 1 < n + 1 → 2 ^ 52 ≤ n * doubled 53
    enough n h = let all : doubled 53 ≡ 2 ^ 53 = refl in omega (arith, ap (λ x. n * x) all)

    flip : (n x y : ℕ) → n * x < n * y → x * n < y * n
    flip n x y h = omega (arith, mul_comm n x, mul_comm n y)

quotient-exact : (a b : ℕ) → a < 2 ^ 53 → 0 < b → ceil_quotient a b ≡ ceil_div a b
unfolding ceil_quotient
quotient-exact a b l p = elim (Bool-cases (ltb a b)) [
  | inl e ↦ rw e (small-quotient a b (ground arith))
  | inr e ↦
      let (d, r) = division a b p in
      let single : coarse 12 (a / b) ≡ 1 =
        coarse-small (a / b) (omega (arith, div-le_self a b, l)) in
      let times : b * 1 ≡ b = omega arith in
      let once : round_div (a * fine 53 (a / b)) b * 1 ≡ round_div (a * fine 53 (a / b)) b =
        omega arith in
      rw (e, single, times, once) (large-quotient a b l p (ground arith))
]

-- Below 2^53 the rounded-up float64 quotient is the exact one.
pub ceil_float-exact : (a b : ℕ) → a < 2 ^ 53 → b < 2 ^ 53 → 0 < b → ceil_float a b ≡ ceil_div a b
unfolding ceil_float
ceil_float-exact a b l k p = rw (float_of-small a l, float_of-small b k) (quotient-exact a b l p)
