-- ===== src/Paths/Plain.antt =====
-- common/utils/utils.go: texts that TrimSpace and the removal of control characters leave alone, and
-- parts of paths without slashes.
use native.Mathlib.Omega.{arith}
use mathlib.Core.List.{reverse-reverse}
use solocoder_6069_go_drive.Common.{
  ◌⊎◌, ℕ, true, false, ◌||◌, [], ◌∷◌, ◌++◌, reverse, Str, str_eq, ◌≡◌, ◌≢◌, refl, ap, inl, inr,
  Bool-cases, ◌==◌, All, Lacks,
}
use solocoder_6069_go_drive.Paths.{
  is_space, trim_left, trim_space, is_unsafe_char, remove_unsafe, after_last, before_last, contains,
  or_slash, drop_slashes, base, ext, path_base, path_name, slash, dot,
}
use solocoder_6069_go_drive.Paths.Shape.{IsPlain}

-- The first character, if there is one, is no white space.
abbrev pub StartsInk : Str → Type 0
StartsInk [] = Unit
StartsInk (c ∷ s) = is_space c ≡ false

abbrev pub EndsInk : Str → Type 0
EndsInk s = StartsInk (reverse s)

-- No character is a control character.
abbrev pub IsSafe : Str → Type 0
IsSafe = All (λ c. is_unsafe_char c ≡ false)

pub StartsInk-append : (s t : Str) → StartsInk s → StartsInk t → StartsInk (s ++ t)
StartsInk-append [] t hs ht = ht
StartsInk-append (c ∷ s) t hs ht = hs

pub StartsInk-append_ne : (s t : Str) → s ≢ [] → StartsInk s → StartsInk (s ++ t)
StartsInk-append_ne [] t n hs = absurd (n refl)
StartsInk-append_ne (c ∷ s) t n hs = hs

trim_left-StartsInk : (s : Str) → StartsInk s → trim_left s ≡ s
unfolding trim_left
trim_left-StartsInk [] h = refl
trim_left-StartsInk (c ∷ s) h = rw h refl

remove_unsafe-IsSafe : (s : Str) → IsSafe s → remove_unsafe s ≡ s
unfolding remove_unsafe
remove_unsafe-IsSafe [] h = refl
remove_unsafe-IsSafe (c ∷ s) (h, hs) = rw h (ap (λ t. c ∷ t) (remove_unsafe-IsSafe s hs))

pub IsPlain-ink : (s : Str) → IsSafe s → StartsInk s → EndsInk s → IsPlain s
unfolding trim_space
IsPlain-ink s safe starts ends =
    rw (trim_left-StartsInk s starts, trim_left-StartsInk (reverse s) ends, reverse-reverse s)
      (remove_unsafe-IsSafe s safe)

contains-none : (c : ℕ) (s : Str) → contains c s ≡ false → Lacks c s
unfolding contains
contains-none c [] h = tt
contains-none c (d ∷ s) h =
    ((λ e. let no : ⊥ = ground arith in no), contains-none c s (ground arith))

-- Behind the last c there is none.
pub after_last-Lacks : (c : ℕ) (s : Str) → Lacks c (after_last c s)
unfolding after_last
after_last-Lacks c [] = tt
after_last-Lacks c (d ∷ s) = elim (Bool-cases (contains c (d ∷ s))) [
  | inl h ↦ rw h (after_last-Lacks c s)
  | inr h ↦ rw h (contains-none c (d ∷ s) h)
]

module _ (P : ℕ → Type 0) where
  after_last-All : (c : ℕ) (s : Str) → All P s → All P (after_last c s)
  unfolding after_last
  after_last-All c [] h = tt
  after_last-All c (d ∷ s) (h, hs) = elim (Bool-cases (contains c (d ∷ s))) [
    | inl e ↦ rw e (after_last-All c s hs)
    | inr e ↦ rw e (h, hs)
  ]

  before_last-All : (c : ℕ) (s : Str) → All P s → All P (before_last c s)
  unfolding before_last
  before_last-All c [] h = tt
  before_last-All c (d ∷ s) (h, hs) = elim (Bool-cases (contains c s)) [
    | inl e ↦ rw e (h, before_last-All c s hs)
    | inr e ↦ rw e (elim (Bool-cases (d == c)) [ inl f ↦ rw f tt | inr f ↦ rw f (h, hs) ])
  ]

-- The extension has no slash.
pub ext-Lacks : (path : Str) → Lacks slash (ext path)
unfolding ext
ext-Lacks path = elim (Bool-cases (contains dot (after_last slash path))) [
  | inl e ↦ rw e (
    (λ f. omega arith),
    after_last-All (λ c. c ≢ slash) dot (after_last slash path) (after_last-Lacks slash path),
  )
  | inr e ↦ rw e tt
]

or_slash-Lacks :
    (s : Str) → Lacks slash s → (str_eq (or_slash s) (slash ∷ []) ≡ true) ⊎ Lacks slash (or_slash s)
unfolding or_slash str_eq
or_slash-Lacks [] h = inl refl
or_slash-Lacks (c ∷ s) h = inr h

base-Lacks : (s : Str) → (str_eq (base s) (slash ∷ []) ≡ true) ⊎ Lacks slash (base s)
unfolding base
base-Lacks [] = inr ((λ f. omega arith), tt)
base-Lacks (c ∷ s) =
    or_slash-Lacks _ (after_last-Lacks slash (reverse (drop_slashes (reverse (c ∷ s)))))

path_base-Lacks : (path : Str) → Lacks slash (path_base path)
unfolding path_base
path_base-Lacks path = elim (base-Lacks path) [
  | inl e ↦ rw e tt
  | inr l ↦ elim (Bool-cases (str_eq (base path) (slash ∷ []) || str_eq (base path) (dot ∷ []))) [
    | inl e ↦ rw e tt
    | inr e ↦ rw e l
  ]
]

-- The name has no slash.
pub path_name-Lacks : (path : Str) → Lacks slash (path_name path)
unfolding path_name
path_name-Lacks path = before_last-All (λ c. c ≢ slash) dot (path_base path) (path_base-Lacks path)
