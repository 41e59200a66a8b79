-- ===== src/PermissionDrive/Guards.antt =====
-- When the operations of the permission wrapper reach the drive below it.
use solocoder_6069_go_drive.Common.{
  ◌↔◌, ℕ, Bool, true, false, [], ◌∷◌, ◌==◌, ==_iff, Str, Option, none, some, bit_and, ◌≡◌, ◌≢◌,
  refl, ◌∙◌, ap, subst, inl, inr, Bool-cases,
}
use solocoder_6069_go_drive.Errors.{Result, ok, err, not_found, not_allowed, ◌>>=◌}
use solocoder_6069_go_drive.Paths.{is_root_path, path_parent}
use solocoder_6069_go_drive.Permission.{permission_read_write}
use solocoder_6069_go_drive.PermMap.{PermMap, resolve_path, resolve_descendant}
use solocoder_6069_go_drive.Drive.Change.{Checks}
use solocoder_6069_go_drive.PermissionDrive.{
  require_permission, require_path_and_parent_writable, descendants_allow,
  require_descendant_permission,
}

-- The permissions on the path have all bits of the mask.
abbrev pub Holds : PermMap → Str → ℕ → Type 0
Holds pm path mask = bit_and (resolve_path pm path) mask ≡ mask

-- The path can be read and written, and so can its parent if it has one.
abbrev pub HoldsUp : PermMap → Str → Type 0
HoldsUp pm path =
    (path ≢ [] → Holds pm (path_parent path) permission_read_write)
    × Holds pm path permission_read_write

-- The mask holds on the path, and for the permissions below it, if there are any.
abbrev pub HoldsBelow : PermMap → Str → ℕ → Type 0
HoldsBelow pm path mask =
    Holds pm path mask × ((dp : ℕ) → resolve_descendant pm path ≡ some dp → bit_and dp mask ≡ mask)

pub require_permission-Checks :
    (pm : PermMap) (path : Str) (mask : ℕ)
    → Checks (Holds pm path mask) (require_permission pm path mask)
unfolding require_permission
require_permission-Checks pm path mask =
    elim (Bool-cases (bit_and (resolve_path pm path) mask == mask)) [
      | inl e ↦ inl (
        (==_iff (bit_and (resolve_path pm path) mask) mask).0 e,
        (resolve_path pm path, granted e),
      )
      | inr e ↦ inr (
        λ h. denied e ((==_iff (bit_and (resolve_path pm path) mask) mask).1 h),
        (not_found, refused e),
      )
    ]
  where
    granted :
        (bit_and (resolve_path pm path) mask == mask) ≡ true
        → require_permission pm path mask ≡ ok (resolve_path pm path)
    granted e = rw e refl

    refused :
        (bit_and (resolve_path pm path) mask == mask) ≡ false
        → require_permission pm path mask ≡ err not_found
    refused e = rw e refl

    denied :
        (bit_and (resolve_path pm path) mask == mask) ≡ false
        → (bit_and (resolve_path pm path) mask == mask) ≡ true
        → ⊥
    denied e h = cc

-- One check after the other.
bind-Checks :
    {P Q : Type 0} (r q : Result ℕ) → Checks P r → Checks Q q → Checks (P × Q) (r >>= (λ _. q))
bind-Checks r q (inl (p, (a, e))) (inl (x, (b, f))) =
    inl ((p, x), (b, ap (λ y. y >>= (λ _. q)) e ∙ f))
bind-Checks r q (inl (p, (a, e))) (inr (n, (b, f))) =
    inr (λ h. n h.1, (b, ap (λ y. y >>= (λ _. q)) e ∙ f))
bind-Checks r q (inr (n, (a, e))) c = inr (λ h. n h.0, (a, ap (λ y. y >>= (λ _. q)) e))

Checks-iff :
    {A : Type 0} {P Q : Type 0} (r : Result A) → (P → Q) → (Q → P) → Checks P r → Checks Q r
Checks-iff r to from (inl (p, x)) = inl (to p, x)
Checks-iff r to from (inr (n, x)) = inr (λ q. n (from q), x)

pub require_path_and_parent_writable-Checks :
    (pm : PermMap) (path : Str)
    → Checks (HoldsUp pm path) (require_path_and_parent_writable pm path)
unfolding require_path_and_parent_writable is_root_path
require_path_and_parent_writable-Checks pm [] =
    Checks-iff (require_permission pm [] permission_read_write) (λ h. (λ d. absurd (d refl), h))
      (λ h. h.1) (require_permission-Checks pm [] permission_read_write)
require_path_and_parent_writable-Checks pm (x ∷ path) =
    Checks-iff
      (require_permission pm (path_parent (x ∷ path)) permission_read_write
        >>= (λ _. require_permission pm (x ∷ path) permission_read_write))
      (λ h. (λ d. h.0, h.1)) (λ h. (h.0 (λ e. let no : ⊥ = cc in no), h.1))
      (bind-Checks (require_permission pm (path_parent (x ∷ path)) permission_read_write)
        (require_permission pm (x ∷ path) permission_read_write)
        (require_permission-Checks pm (path_parent (x ∷ path)) permission_read_write)
        (require_permission-Checks pm (x ∷ path) permission_read_write))

descendants_allow_iff :
    (o : Option ℕ) (mask : ℕ)
    → (descendants_allow o mask ≡ true) ↔ ((dp : ℕ) → o ≡ some dp → bit_and dp mask ≡ mask)
unfolding descendants_allow
descendants_allow_iff none mask = (λ _ dp e. let no : ⊥ = cc in absurd no, λ _. refl)
descendants_allow_iff (some d) mask = (
  λ h dp e. subst (λ x. bit_and (value x) mask ≡ mask) e ((==_iff (bit_and d mask) mask).0 h),
  λ h. (==_iff (bit_and d mask) mask).1 (h d refl),
)
  where
    value : Option ℕ → ℕ
    value none = 0
    value (some x) = x

pub require_descendant_permission-Checks :
    (pm : PermMap) (path : Str) (mask : ℕ)
    → Checks (HoldsBelow pm path mask) (require_descendant_permission pm path mask)
unfolding require_descendant_permission
require_descendant_permission-Checks pm path mask =
    elim (Bool-cases (bit_and (resolve_path pm path) mask == mask)) [
      | inl e ↦ elim (Bool-cases (descendants_allow (resolve_descendant pm path) mask)) [
        | inl f ↦ inl (
          (
            (==_iff (bit_and (resolve_path pm path) mask) mask).0 e,
            (descendants_allow_iff (resolve_descendant pm path) mask).0 f,
          ),
          (tt, both e f),
        )
        | inr f ↦ inr (
          λ h. clash f ((descendants_allow_iff (resolve_descendant pm path) mask).1 h.1),
          (not_allowed, second e f),
        )
      ]
      | inr e ↦ inr (
        λ h. clash e ((==_iff (bit_and (resolve_path pm path) mask) mask).1 h.0),
        (not_allowed, first e),
      )
    ]
  where
    clash : {b : Bool} → b ≡ false → b ≡ true → ⊥
    clash e f = cc

    both :
        (bit_and (resolve_path pm path) mask == mask) ≡ true
        → descendants_allow (resolve_descendant pm path) mask ≡ true
        → require_descendant_permission pm path mask ≡ ok tt
    both e f = rw e (rw f refl)

    second :
        (bit_and (resolve_path pm path) mask == mask) ≡ true
        → descendants_allow (resolve_descendant pm path) mask ≡ false
        → require_descendant_permission pm path mask ≡ err not_allowed
    second e f = rw e (rw f refl)

    first :
        (bit_and (resolve_path pm path) mask == mask) ≡ false
        → require_descendant_permission pm path mask ≡ err not_allowed
    first e = rw e refl
