-- ===== src/Common/Text/Bytes.antt =====
-- The bytes of a Go string, in UTF-8, where a string is measured or cut by its bytes. A byte that is no
-- part of a character stands in a text as its number added to 0x110000, behind the code points.
use Prim.Native.Nat.{ℕ, ◌+◌, ◌-◌, ◌/◌, ◌%◌, ◌≤◌}
use mathlib.Core.Path.{◌≡◌, refl}
use mathlib.Core.Logic.{inl, inr}
use mathlib.Core.Bool.{true, false}
use mathlib.Core.List.{List, [], ◌∷◌, ◌++◌, map}
use native.Mathlib.Omega.{arith}
use solocoder_6069_go_drive.Common.Tests.{ltb, leb, ◌==◌, if◌then◌else◌, Bool-cases}
use solocoder_6069_go_drive.Common.Lists.{length, drop}
use solocoder_6069_go_drive.Common.Text.Base.{Str}

unfoldable pub utf8 : ℕ → List ℕ
utf8 c =
    if ltb c 0x80
    then c ∷ []
    else if ltb c 0x800
    then (0xc0 + c / 64) ∷ (0x80 + c % 64) ∷ []
    else if ltb c 0x10000
    then (0xe0 + c / 4096) ∷ (0x80 + c / 64 % 64) ∷ (0x80 + c % 64) ∷ []
    else if ltb c 0x110000
    then (0xf0 + c / 262144) ∷ (0x80 + c / 4096 % 64) ∷ (0x80 + c / 64 % 64) ∷ (0x80 + c % 64) ∷ []
    else (c - 0x110000) ∷ []

-- len(s)
unfoldable pub byte_length : Str → ℕ
unfolding utf8
byte_length [] = 0
byte_length (c ∷ s) = length (utf8 c) + byte_length s

abbrev raw_byte : ℕ → ℕ
raw_byte b = 0x110000 + b

-- s[n:]
unfoldable pub drop_bytes : ℕ → Str → Str
unfolding utf8
drop_bytes n [] = []
drop_bytes n (c ∷ s) =
    let rest = drop_bytes (n - length (utf8 c)) s in
    if leb (length (utf8 c)) n
    then rest
    else if n == 0
    then c ∷ s
    else map raw_byte (drop n (utf8 c)) ++ s

some_bytes : (c : ℕ) → 1 ≤ length (utf8 c)
unfolding utf8
some_bytes c = elim (Bool-cases (ltb c 0x80)) [
  | inl e ↦ rw e (omega arith)
  | inr e ↦ elim (Bool-cases (ltb c 0x800)) [
    | inl f ↦ rw (e, f) (omega arith)
    | inr f ↦ elim (Bool-cases (ltb c 0x10000)) [
      | inl g ↦ rw (e, f, g) (omega arith)
      | inr g ↦ elim (Bool-cases (ltb c 0x110000)) [
        | inl h ↦ rw (e, f, g, h) (omega arith)
        | inr h ↦ rw (e, f, g, h) (omega arith)
      ]
    ]
  ]
]

drop_bytes-zero : (s : Str) → drop_bytes 0 s ≡ s
unfolding drop_bytes
drop_bytes-zero [] = refl
drop_bytes-zero (c ∷ s) =
    let more = some_bytes c in let e : leb (length (utf8 c)) 0 ≡ false = ground arith in rw e refl

-- Cutting the bytes of a prefix off leaves the rest.
pub drop_bytes-append : (p s : Str) → drop_bytes (byte_length p) (p ++ s) ≡ s
unfolding byte_length drop_bytes
drop_bytes-append [] s = drop_bytes-zero s
drop_bytes-append (c ∷ p) s =
    let e : leb (length (utf8 c)) (length (utf8 c) + byte_length p) ≡ true = ground arith in
    let f : length (utf8 c) + byte_length p - length (utf8 c) ≡ byte_length p = omega arith in
    rw (e, f) (drop_bytes-append p s)
