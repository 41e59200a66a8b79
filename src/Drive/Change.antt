-- ===== src/Drive/Change.antt =====
-- The operations of a drive that change its storage, as requests, and what their guards decide.
use solocoder_6069_go_drive.Common.{ℕ, Bool, true, false, Str, ◌≡◌, refl, ◌∙◌, ap, ◌⊎◌, inl, inr}
use solocoder_6069_go_drive.Errors.{Result, ok, err, Error, after}
use solocoder_6069_go_drive.Drive.{Entry, Drive}

-- A request for a change.
pub data Change (R C : Type 0) : Type 0 where
  save_file : Str → ℕ → Bool → R → Change R C
  new_dir : Str → Change R C
  copy_entry : Entry → Str → Bool → Change R C
  move_entry : Entry → Str → Bool → Change R C
  delete_entry : Str → Change R C
  start_upload : Str → ℕ → Bool → C → Change R C

-- Was there no error, and what is the storage afterwards?
unfoldable pub settle {ℓ} : {X : Type ℓ} {S : Type 0} → Result X × S → Bool × S
settle (ok x, s) = (true, s)
settle (err e, s) = (false, s)

-- The request, made of a drive.
unfoldable pub change : {S R C U : Type 0} → Drive S R C U → Change R C → S → Bool × S
unfolding settle
change d (save_file path size override reader) s = settle (d.save path size override reader s)
change d (new_dir path) s = settle (d.make_dir path s)
change d (copy_entry from to override) s = settle (d.copy from to override s)
change d (move_entry from to override) s = settle (d.move from to override s)
change d (delete_entry path) s = settle (d.delete path s)
change d (start_upload path size override config) s = settle (d.upload path size override config s)

-- The result is ok exactly when the property holds.
abbrev pub Checks {ℓ} : {A : Type ℓ} → Type 0 → Result A → Type ℓ
Checks {A = A} P r = (P × ((a : A) × (r ≡ ok a))) ⊎ ((P → ⊥) × ((e : Error) × (r ≡ err e)))

-- With the property the outcome is the drive's; without, it is an error and the storage as before.
abbrev pub Guarded : {S : Type 0} → Type 0 → Bool × S → Bool × S → S → Type 0
Guarded P out bare s = (P × (out ≡ bare)) ⊎ ((P → ⊥) × (out ≡ (false, s)))

pub settle-after_ok :
    {A X S : Type 0} (r : Result A) (f : A → Result X × S) (s : S) (a : A)
    → r ≡ ok a
    → settle (after r f s) ≡ settle (f a)
unfolding after
settle-after_ok r f s a e = ap (λ x. settle (after x f s)) e

pub settle-after_err :
    {A X S : Type 0} (r : Result A) (f : A → Result X × S) (s : S) (x : Error)
    → r ≡ err x
    → settle (after r f s) ≡ (false, s)
unfolding after settle
settle-after_err r f s x e = ap (λ y. settle (after y f s)) e

-- The last check before the drive's operation.
pub after-last :
    {A X S : Type 0} {P : Type 0} (r : Result A) (f : A → Result X × S) (s : S) (bare : Bool × S)
    → Checks P r
    → ((a : A) → settle (f a) ≡ bare)
    → Guarded P (settle (after r f s)) bare s
after-last r f s bare (inl (p, (a, e))) h = inl (p, settle-after_ok r f s a e ∙ h a)
after-last r f s bare (inr (n, (x, e))) h = inr (n, settle-after_err r f s x e)

-- A check before others.
pub after-Guarded :
    {A X S : Type 0} {P Q : Type 0} (r : Result A) (f : A → Result X × S) (s : S) (bare : Bool × S)
    → Checks P r
    → ((a : A) → Guarded Q (settle (f a)) bare s)
    → Guarded (P × Q) (settle (after r f s)) bare s
after-Guarded r f s bare (inr (n, (x, e))) h = inr (λ pq. n pq.0, settle-after_err r f s x e)
after-Guarded r f s bare (inl (p, (a, e))) h = elim (h a) [
  | inl q ↦ inl ((p, q.0), settle-after_ok r f s a e ∙ q.1)
  | inr n ↦ inr (λ pq. n.0 pq.1, settle-after_ok r f s a e ∙ n.1)
]

-- A check fails, and the storage stays as it is; or what follows decides.
pub after-cases :
    {A X S : Type 0} (r : Result A) (f : A → Result X × S) (s : S)
    → ((x : Error) × (r ≡ err x) × (settle (after r f s) ≡ (false, s)))
      ⊎ ((a : A) × (r ≡ ok a) × (settle (after r f s) ≡ settle (f a)))
after-cases (ok a) f s = inr (a, refl, settle-after_ok (ok a) f s a refl)
after-cases (err x) f s = inl (x, refl, settle-after_err (err x) f s x refl)

-- The path that a request is about, for a copy or a move the one it leads to.
abbrev pub target : {R C : Type 0} → Change R C → Str
target (save_file path size override reader) = path
target (new_dir path) = path
target (copy_entry from to override) = to
target (move_entry from to override) = to
target (delete_entry path) = path
target (start_upload path size override config) = path
