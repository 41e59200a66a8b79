-- ===== src/Errors.antt =====
-- common/errors/errors.go: the kinds of error that the modelled code tells apart. Messages, codes
-- and data are not modelled.
use solocoder_6069_go_drive.Common.{Bool, true, false}

-- The error types of the package, and `other` for any error of the standard library.
pub data Error : Type 0 where
  not_found not_allowed bad_request unsupported unauthorized permission_denied other : Error

-- A Go pair (value, error) of which one is set.
pub data Result {ℓ} (A : Type ℓ) : Type ℓ where
  ok : A → Result A
  err : Error → Result A

infixl 5 ◌>>=◌
abbrev pub ◌>>=◌ {ℓ κ} : {A : Type ℓ} {B : Type κ} → Result A → (A → Result B) → Result B
ok a >>= f = f a
err e >>= f = err e

-- IsNotFoundError, IsUnsupportedError
abbrev pub is_not_found : Error → Bool
is_not_found not_found = true
is_not_found _ = false

abbrev pub is_unsupported : Error → Bool
is_unsupported unsupported = true
is_unsupported _ = false

-- Go on with what a check answered, or return its error.
unfoldable pub after {ℓ κ} :
    {A : Type ℓ} {X : Type κ} {S : Type 0} → Result A → (A → Result X × S) → S → Result X × S
after (ok a) f s = f a
after (err x) f s = (err x, s)

-- The same, where what came before has changed the state.
unfoldable pub then_do {ℓ κ} :
    {A : Type ℓ} {X : Type κ} {S : Type 0} → Result A × S → (A → S → Result X × S) → Result X × S
then_do (ok a, s) f = f a s
then_do (err x, s) f = (err x, s)
