-- ===== src/Common/Float/Rounding.antt =====
-- Common/Float: a quotient between two whole numbers, and its rounding.
use Prim.Native.Nat.{ℕ, zero, suc, ◌+◌, ◌*◌, ◌/◌, ◌%◌, ◌^◌, ◌≤◌, ◌<◌}
use mathlib.Core.Path.{◌≡◌, refl, ap, ◌∙◌}
use mathlib.Core.Logic.{inl, inr, ◌⊎◌}
use native.Mathlib.Omega.{arith}
use native.Mathlib.Nat.{
  div-add-mod, mod-lt, mul-le-mul_right, mul_comm, mul_right_comm, lt_of_mul-lt-mul_right, suc-mul,
  add-mul,
}
use solocoder_6069_go_drive.Common.Tests.{==_iff, ltb, ◌==◌, Bool-cases}
use solocoder_6069_go_drive.Common.Float.{ceil_div, round_div, fine}

pub division : (a b : ℕ) → 0 < b → (a ≡ a / b * b + a % b) × (a % b < b)
division a b p = (omega (arith, div-add-mod a b, mul_comm b (a / b)), mod-lt a p)

unfoldable pub doubled : ℕ → ℕ
doubled zero = 1
doubled (suc n) = doubled n * 2

pub fine-large : (fuel n : ℕ) → 2 ^ 52 ≤ n * doubled fuel → 2 ^ 52 ≤ n * fine fuel n
unfolding fine doubled
fine-large zero n l = l
fine-large (suc fuel) n l = elim (Bool-cases (ltb n (2 ^ 52))) [
  | inl e ↦
      let swap : n * 2 * doubled fuel ≡ n * (doubled fuel * 2) = grind arith in
      let back : n * 2 * fine fuel (n * 2) ≡ n * (fine fuel (n * 2) * 2) = grind arith in
      let rest = fine-large fuel (n * 2) (omega (arith, swap, l)) in
      rw e (omega (arith, back, rest))
  | inr e ↦ rw e (ground arith)
]

pub round_div-cases :
    (a b : ℕ)
    → 0 < b
    → ((round_div a b ≡ a / b) × (a % b * 2 ≤ b)) ⊎ ((round_div a b ≡ a / b + 1) × (0 < a % b))
unfolding round_div
round_div-cases a b p = elim (Bool-cases (ltb (a % b * 2) b)) [
  | inl e ↦ inl (rw e refl, ground arith)
  | inr e ↦ elim (Bool-cases (ltb b (a % b * 2))) [
    | inl f ↦ inr (rw (e, f) refl, ground arith)
    | inr f ↦ elim (Bool-cases (a / b % 2 == 0)) [
      | inl g ↦ inl (rw (e, f) (ground arith), ground arith)
      | inr g ↦ inr (rw (e, f) (ground arith), ground arith)
    ]
  ]
]

-- The rounded-up quotient of a number that is more than q units and at most one unit more.
pub ceil_div-between : (n q m : ℕ) → q * m < n → n ≤ q * m + m → ceil_div n m ≡ q + 1
unfolding ceil_div
ceil_div-between n q m l u =
    let p : 0 < m = omega (arith, l, u) in
    let (e, r) = division n m p in
    elim (Bool-cases (n % m == 0)) [
      | inl z ↦
          let full : q * m < n / m * m = ground arith in
          let low : q < n / m = lt_of_mul-lt-mul_right m full in
          let over : n / m * m < (q + 2) * m = omega (arith, add-mul q 2 m, e, u) in
          let high : n / m < q + 2 = lt_of_mul-lt-mul_right m over in
          rw z (omega (arith, low, high))
      | inr z ↦
          let rest : 0 < n % m = ground arith in
          let full : q * m < (n / m + 1) * m = omega (arith, add-mul (n / m) 1 m, e, r, l) in
          let low : q < n / m + 1 = lt_of_mul-lt-mul_right m full in
          let over : n / m * m < (q + 1) * m = omega (arith, add-mul q 1 m, e, rest, u) in
          let high : n / m < q + 1 = lt_of_mul-lt-mul_right m over in
          rw z (omega (arith, low, high))
    ]

pub ceil_div-multiple : (q m : ℕ) → 0 < m → ceil_div (q * m) m ≡ q
unfolding ceil_div
ceil_div-multiple q m p =
    let (e, r) = division (q * m) m p in
    let full : q * m < (q * m / m + 1) * m = omega (arith, add-mul (q * m / m) 1 m, e, r) in
    let low : q < q * m / m + 1 = lt_of_mul-lt-mul_right m full in
    let over : q * m / m * m < (q + 1) * m = omega (arith, add-mul q 1 m, e, p) in
    let high : q * m / m < q + 1 = lt_of_mul-lt-mul_right m over in
    let same : q * m / m ≡ q = omega (arith, low, high) in
    let none : q * m % m ≡ 0 = omega (arith, e, ap (λ x. x * m) same) in rw (none, same) refl

-- The quotient of q * b + r by b, with m numbers to 1, lies as the exact one between q and q + 1.
module _ (b q r m : ℕ) (l : r < b) (fits : b < m * 2) where
  abbrev top : ℕ
  top = (q * b + r) * m

  top_def : top ≡ q * m * b + r * m
  top_def = omega (arith, add-mul (q * b) r m, mul_right_comm q b m)

  quotient-bounds : (q * m ≤ top / b) × (top / b < q * m + m)
  quotient-bounds =
      let p : 0 < b = omega (arith, l) in
      let (e, s) = division top b p in
      let below : q * m * b < (top / b + 1) * b =
        omega (arith, e, s, top_def, add-mul (top / b) 1 b) in
      let part : suc r * m ≤ b * m = mul-le-mul_right m (up l) in
      let above : top / b * b < (q * m + m) * b =
        omega (arith, e, top_def, add-mul (q * m) m b, suc-mul r m, part, mul_comm b m, fits) in
      let low : q * m < top / b + 1 = lt_of_mul-lt-mul_right b below in
      (omega (arith, low), lt_of_mul-lt-mul_right b above)
    where
      up : r < b → suc r ≤ b
      up h = omega (arith, h)

  pub rounded-exact : r ≡ 0 → round_div top b ≡ q * m
  rounded-exact z =
      let p : 0 < b = omega (arith, l) in
      let (e, s) = division top b p in
      let (low, high) = quotient-bounds in
      let none : r * m ≡ 0 = ap (λ x. x * m) z ∙ omega arith in
      let tight : top / b * b < (q * m + 1) * b =
        omega (arith, e, top_def, none, add-mul (q * m) 1 b, p) in
      let under : top / b < q * m + 1 = lt_of_mul-lt-mul_right b tight in
      let same : top / b ≡ q * m = omega (arith, low, under) in
      let even : top % b ≡ 0 = omega (arith, e, top_def, none, ap (λ x. x * b) same) in
      elim (round_div-cases top b p) [
        | inl (n, h) ↦ n ∙ same
        | inr (n, h) ↦ let no : ⊥ = omega (arith, even, h) in absurd no
      ]

  pub rounded-between : 0 < r → (q * m < round_div top b) × (round_div top b ≤ q * m + m)
  rounded-between z =
      let p : 0 < b = omega (arith, l) in
      let (e, s) = division top b p in
      let (low, high) = quotient-bounds in
      elim (round_div-cases top b p) [
        | inl (n, h) ↦ elim (Bool-cases (top / b == q * m)) [
          | inl f ↦
              let same : top / b ≡ q * m = (==_iff (top / b) (q * m)).0 f in
              let one : 1 * m ≤ r * m = mul-le-mul_right m z in
              let rest : top % b ≡ r * m = omega (arith, e, top_def, ap (λ x. x * b) same) in
              let no : ⊥ = omega (arith, rest, one, h, fits) in absurd no
          | inr f ↦ (rw n (ground arith), rw n (omega (arith, high)))
        ]
        | inr (n, h) ↦ (rw n (omega (arith, low)), rw n (omega (arith, high)))
      ]
