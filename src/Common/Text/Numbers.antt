-- ===== src/Common/Text/Numbers.antt =====
-- strconv.Itoa and strconv.ParseInt with base 10.
use Prim.Native.Nat.{ℕ, zero, suc, ◌+◌, ◌-◌, ◌*◌, ◌/◌, ◌%◌, ◌^◌, ◌≤◌, ◌<◌}
use mathlib.Core.Path.{◌≡◌, ap, sym, ◌∙◌}
use mathlib.Core.Logic.{◌≢◌, inl, inr}
use mathlib.Core.Bool.{Bool, ◌&&◌}
use mathlib.Core.Option.{Option, none, some}
use mathlib.Core.List.{cons-ne-nil, [], ◌∷◌, ◌++◌}
use native.Mathlib.Omega.{arith}
use solocoder_6069_go_drive.Common.Tests.{ltb, leb, ◌==◌, if◌then◌else◌, Bool-cases}
use solocoder_6069_go_drive.Common.Lists.{All, All-append}
use solocoder_6069_go_drive.Common.Text.Base.{Str, Lacks}

-- fmt.Sprintf("%d", n), with the number of digits that may be written
unfoldable pub digits : ℕ → ℕ → Str
digits zero n = []
digits (suc fuel) n =
    let rest = digits fuel (n / 10) in
    if ltb n 10 then (48 + n) ∷ [] else rest ++ ((48 + n % 10) ∷ [])

unfoldable pub decimal : ℕ → Str
unfolding digits
decimal n = digits (suc n) n

unfoldable pub is_digit : ℕ → Bool
is_digit c = leb 48 c && leb c 57

unfoldable pub parse_digits : ℕ → Str → Option ℕ
unfolding is_digit
parse_digits n [] = some n
parse_digits n (c ∷ s) =
    let rest = parse_digits (n * 10 + (c - 48)) s in if is_digit c then rest else none

-- ParseInt of a text; what it refuses, and a number that is not positive, is 0.
unfoldable pub in_int64 : Option ℕ → ℕ
in_int64 none = 0
in_int64 (some n) = if ltb n (2 ^ 63) then n else 0

unfoldable pub unsigned : Str → ℕ
unfolding in_int64 parse_digits
unsigned [] = 0
unsigned (c ∷ s) = in_int64 (parse_digits 0 (c ∷ s))

unfoldable pub to_int64 : Str → ℕ
unfolding unsigned
to_int64 [] = 0
to_int64 (c ∷ s) = if c == 43 then unsigned s else unsigned (c ∷ s)

parse_digits-snoc :
    (a m d : ℕ) (s : Str)
    → d < 10
    → parse_digits a s ≡ some m
    → parse_digits a (s ++ ((48 + d) ∷ [])) ≡ some (m * 10 + d)
unfolding parse_digits is_digit
parse_digits-snoc a m d [] l e = ground arith
parse_digits-snoc a m d (c ∷ s) l e = elim (Bool-cases (is_digit c)) [
  | inl b ↦ rw b (parse_digits-snoc (a * 10 + (c - 48)) m d s l (ground arith))
  | inr b ↦ let no : ⊥ = ground arith in absurd no
]

parse_digits-digits : (fuel n : ℕ) → n < fuel → parse_digits 0 (digits fuel n) ≡ some n
unfolding digits
parse_digits-digits zero n l = let no : ⊥ = omega arith in absurd no
parse_digits-digits (suc fuel) n l = elim (Bool-cases (ltb n 10)) [
  | inl b ↦ rw b (unfold parse_digits is_digit in ground arith)
  | inr b ↦ rw b (
      parse_digits-snoc 0 (n / 10) (n % 10) (digits fuel (n / 10)) (omega arith)
        (parse_digits-digits fuel (n / 10) (ground arith))
      ∙ ap some (omega arith))
]

-- Reading what was written gives the number back.
pub parse_digits-decimal : (n : ℕ) → parse_digits 0 (decimal n) ≡ some n
unfolding decimal
parse_digits-decimal n = parse_digits-digits (suc n) n (omega arith)

pub decimal_injective : (m n : ℕ) → decimal m ≡ decimal n → m ≡ n
decimal_injective m n e =
    let p : some m ≡ some n =
      sym (parse_digits-decimal m) ∙ ap (parse_digits 0) e ∙ parse_digits-decimal n in
    cc

abbrev IsDigits : Str → Type 0
IsDigits = All (λ c. (48 ≤ c) × (c ≤ 57))

digits-IsDigits : (fuel n : ℕ) → IsDigits (digits fuel n)
unfolding digits
digits-IsDigits zero n = tt
digits-IsDigits (suc fuel) n = elim (Bool-cases (ltb n 10)) [
  | inl b ↦ rw b ((omega arith, ground arith), tt)
  | inr b ↦ rw b (
      All-append (λ c. (48 ≤ c) × (c ≤ 57)) (digits fuel (n / 10)) ((48 + n % 10) ∷ [])
        (digits-IsDigits fuel (n / 10)) ((omega arith, omega arith), tt))
]

decimal-IsDigits : (n : ℕ) → IsDigits (decimal n)
unfolding decimal
decimal-IsDigits n = digits-IsDigits (suc n) n

IsDigits-Lacks : (b : ℕ) (s : Str) → 57 < b → IsDigits s → Lacks b s
IsDigits-Lacks b [] l h = tt
IsDigits-Lacks b (c ∷ s) l (h, hs) = ((λ e. omega arith), IsDigits-Lacks b s l hs)

pub decimal-Lacks : (b n : ℕ) → 57 < b → Lacks b (decimal n)
decimal-Lacks b n l = IsDigits-Lacks b (decimal n) l (decimal-IsDigits n)

to_int64-digits :
    (n : ℕ) (s : Str) → n < 2 ^ 63 → IsDigits s → parse_digits 0 s ≡ some n → to_int64 s ≡ n
unfolding to_int64 unsigned in_int64
to_int64-digits n [] l h e = unfold parse_digits in cc
to_int64-digits n (c ∷ s) l (h, hs) e = rw e (ground arith)

pub to_int64-decimal : (n : ℕ) → n < 2 ^ 63 → to_int64 (decimal n) ≡ n
to_int64-decimal n l = to_int64-digits n (decimal n) l (decimal-IsDigits n) (parse_digits-decimal n)

IsDigits-All :
    (P : ℕ → Type 0) → ((c : ℕ) → 48 ≤ c → c ≤ 57 → P c) → (s : Str) → IsDigits s → All P s
IsDigits-All P f [] h = tt
IsDigits-All P f (c ∷ s) (h, hs) = (f c h.0 h.1, IsDigits-All P f s hs)

-- What holds of the digits holds of all characters.
pub decimal-All : (P : ℕ → Type 0) → ((c : ℕ) → 48 ≤ c → c ≤ 57 → P c) → (n : ℕ) → All P (decimal n)
decimal-All P f n = IsDigits-All P f (decimal n) (decimal-IsDigits n)

append_last-ne-nil : (s : Str) (c : ℕ) → s ++ (c ∷ []) ≢ []
append_last-ne-nil [] c = cons-ne-nil c []
append_last-ne-nil (d ∷ s) c = cons-ne-nil d _

pub decimal-ne-nil : (n : ℕ) → decimal n ≢ []
unfolding decimal digits
decimal-ne-nil n = elim (Bool-cases (ltb n 10)) [
  | inl b ↦ rw b (cons-ne-nil _ _)
  | inr b ↦ rw b (append_last-ne-nil (digits n (n / 10)) _)
]
