-- ===== src/Common/Bits.antt =====
-- The bits of a flag word, and what `|`, `& ^` do to them.
use Prim.Native.Nat.{ℕ, zero, suc, ◌+◌, ◌*◌, ◌/◌, ◌%◌, ◌≤◌, ◌<◌, min, max, digits}
use Prim.Native.Nat.{
  bit_and, bit_or, bit_xor, differ, bit_and-bitwise, bit_or-bitwise, bit_xor-bitwise,
}
use mathlib.Core.Path.{◌≡◌, refl, sym, ap, ◌∙◌}
use mathlib.Core.Bool.{Bool, true, false, not, xor, ◌&&◌, ◌||◌}
use native.Mathlib.Nat.{le_refl}
use native.Mathlib.Omega.{arith}
use solocoder_6069_go_drive.Common.Tests.{◌==◌}

-- Bit i of a word, the lowest first.
unfoldable pub test_bit : ℕ → ℕ → Bool
test_bit zero p = p % 2 == 1
test_bit (suc i) p = test_bit i (p / 2)

pub zero-test_bit : (i : ℕ) → test_bit i 0 ≡ false
unfolding test_bit
zero-test_bit zero = refl
zero-test_bit (suc i) = zero-test_bit i

-- A bitwise operation, read bit by bit: `g` is what it does to one pair of bits.
module _ (z : ℕ → ℕ) (f : ℕ → ℕ → ℕ) (g : Bool → Bool → Bool)
    (rest : (i b : ℕ) → test_bit i (z b) ≡ g false (test_bit i b))
    (digit : (a b : ℕ) → a < 2 → b < 2 → (f a b < 2) × ((f a b == 1) ≡ g (a == 1) (b == 1))) where
  low_bit : (d a b : ℕ) → ((d * 2 + f (a % 2) (b % 2)) % 2 == 1) ≡ g (a % 2 == 1) (b % 2 == 1)
  low_bit d a b =
      let (small, bit) = digit (a % 2) (b % 2) (omega arith) (omega arith) in
      let e : (d * 2 + f (a % 2) (b % 2)) % 2 ≡ f (a % 2) (b % 2) = omega arith in
      ap (λ n. n == 1) e ∙ bit

  high_bits : (d a b : ℕ) → (d * 2 + f (a % 2) (b % 2)) / 2 ≡ d
  high_bits d a b =
      let (small, _) = digit (a % 2) (b % 2) (omega arith) (omega arith) in omega arith

  test_bit-digits :
      (n a b i : ℕ) → a ≤ n → test_bit i (digits z f n a b) ≡ g (test_bit i a) (test_bit i b)
  unfolding test_bit
  test_bit-digits zero zero b i h = rest i b ∙ ap (λ x. g x (test_bit i b)) (sym (zero-test_bit i))
  test_bit-digits zero (suc a) b i h = absurd (omega arith)
  test_bit-digits (suc n) zero b i h =
      rest i b ∙ ap (λ x. g x (test_bit i b)) (sym (zero-test_bit i))
  test_bit-digits (suc n) (suc a) b zero h = low_bit (digits z f n (suc a / 2) (b / 2)) (suc a) b
  test_bit-digits (suc n) (suc a) b (suc i) h =
      ap (test_bit i) (high_bits (digits z f n (suc a / 2) (b / 2)) (suc a) b)
      ∙ test_bit-digits n (suc a / 2) (b / 2) i (omega arith)

pub test_bit-or : (i a b : ℕ) → test_bit i (bit_or a b) ≡ (test_bit i a || test_bit i b)
test_bit-or i a b =
    ap (test_bit i) (bit_or-bitwise a b)
    ∙ test_bit-digits (λ y. y) max (λ x y. x || y) (λ i b. refl) digit a a b i (le_refl a)
  where
    digit : (a b : ℕ) → a < 2 → b < 2 → (max a b < 2) × ((max a b == 1) ≡ ((a == 1) || (b == 1)))
    digit a b p q = ground arith

pub test_bit-and : (i a b : ℕ) → test_bit i (bit_and a b) ≡ (test_bit i a && test_bit i b)
test_bit-and i a b =
    ap (test_bit i) (bit_and-bitwise a b)
    ∙ test_bit-digits (λ y. 0) min (λ x y. x && y) (λ i b. zero-test_bit i) digit a a b i
        (le_refl a)
  where
    digit : (a b : ℕ) → a < 2 → b < 2 → (min a b < 2) × ((min a b == 1) ≡ ((a == 1) && (b == 1)))
    digit a b p q = ground arith

differ_digits :
    (a b : ℕ) → a < 2 → b < 2 → (differ a b < 2) × ((differ a b == 1) ≡ xor (a == 1) (b == 1))
unfolding xor
differ_digits zero zero p q = (omega arith, refl)
differ_digits zero (suc zero) p q = (omega arith, refl)
differ_digits (suc zero) zero p q = (omega arith, refl)
differ_digits (suc zero) (suc zero) p q = (omega arith, refl)
differ_digits (suc (suc a)) b p q = absurd (omega arith)
differ_digits a (suc (suc b)) p q = absurd (omega arith)

false-xor : (b : Bool) → b ≡ xor false b
unfolding xor
false-xor true = refl
false-xor false = refl

pub test_bit-xor : (i a b : ℕ) → test_bit i (bit_xor a b) ≡ xor (test_bit i a) (test_bit i b)
test_bit-xor i a b =
    ap (test_bit i) (bit_xor-bitwise a b)
    ∙ test_bit-digits (λ y. y) differ xor (λ i b. false-xor (test_bit i b)) differ_digits a a b i
        (le_refl a)

-- All eight bits of 0xff are set.
test_bit-ones : (i : ℕ) → i < 8 → test_bit i 255 ≡ true
unfolding test_bit
test_bit-ones i h = all i h
  where
    all : (i : ℕ) → i < 8 → test_bit i 255 ≡ true
    all zero h = refl
    all (suc zero) h = refl
    all (suc (suc zero)) h = refl
    all (suc (suc (suc zero))) h = refl
    all (suc (suc (suc (suc zero)))) h = refl
    all (suc (suc (suc (suc (suc zero))))) h = refl
    all (suc (suc (suc (suc (suc (suc zero)))))) h = refl
    all (suc (suc (suc (suc (suc (suc (suc zero))))))) h = refl
    all (suc (suc (suc (suc (suc (suc (suc (suc i)))))))) h = absurd (omega arith)

-- `a & ^r` on uint8.
unfoldable pub and_not : ℕ → ℕ → ℕ
and_not a r = bit_and a (bit_xor r 255)

pub test_bit-and_not :
    (i a r : ℕ) → i < 8 → test_bit i (and_not a r) ≡ (test_bit i a && not (test_bit i r))
unfolding and_not
test_bit-and_not i a r h =
    test_bit-and i a (bit_xor r 255)
    ∙ ap (λ b. test_bit i a && b)
        (test_bit-xor i r 255
          ∙ ap (xor (test_bit i r)) (test_bit-ones i h)
          ∙ xor-true (test_bit i r))
  where
    xor-true : (b : Bool) → xor b true ≡ not b
    xor-true true = unfold xor in refl
    xor-true false = unfold xor in refl
