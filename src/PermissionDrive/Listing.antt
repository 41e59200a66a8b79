-- ===== src/PermissionDrive/Listing.antt =====
-- What List of the permission wrapper shows.
use solocoder_6069_go_drive.Common.{
  Bool, true, false, List, [], ◌∷◌, ◌≡◌, refl, sym, subst, ◌↔◌, ◌⊎◌, inl, inr, In, Bool-cases,
}
use solocoder_6069_go_drive.Drive.{Entry, path_of, is_readable}
use solocoder_6069_go_drive.Permission.{readable}
use solocoder_6069_go_drive.PermMap.{PermMap, resolve_path}
use solocoder_6069_go_drive.PermissionDrive.{wrap_entry, keep_readable}

-- The entry is readable by itself and by the permissions on its path.
abbrev pub CanRead : PermMap → Entry → Type 0
CanRead pm x = ((is_readable x) ≡ true) × (readable (resolve_path pm (path_of x)) ≡ true)

-- The entry is what the wrapper makes of one of the entries, which can be read.
abbrev pub IsShown : PermMap → List Entry → Entry → Type 0
IsShown pm es e =
    (x : Entry) × (In x es × (CanRead pm x × (e ≡ wrap_entry (resolve_path pm (path_of x)) x)))

CanRead-cases : (pm : PermMap) (x : Entry) → CanRead pm x ⊎ (CanRead pm x → ⊥)
CanRead-cases pm x = elim (Bool-cases (is_readable x)) [
  | inl a ↦ elim (Bool-cases (readable (resolve_path pm (path_of x)))) [
    | inl b ↦ inl (a, b)
    | inr b ↦ inr (λ h. clash b h.1)
  ]
  | inr a ↦ inr (λ h. clash a h.0)
]
  where
    clash : {b : Bool} → b ≡ false → b ≡ true → ⊥
    clash e f = cc

keep_readable-kept :
    (pm : PermMap) (x : Entry) (es : List Entry)
    → CanRead pm x
    → keep_readable pm (x ∷ es) ≡ wrap_entry (resolve_path pm (path_of x)) x ∷ keep_readable pm es
unfolding keep_readable
keep_readable-kept pm x es (a, b) = rw a (rw b refl)

keep_readable-skipped :
    (pm : PermMap) (x : Entry) (es : List Entry)
    → (CanRead pm x → ⊥)
    → keep_readable pm (x ∷ es) ≡ keep_readable pm es
unfolding keep_readable
keep_readable-skipped pm x es n = elim (Bool-cases (is_readable x)) [
  | inl a ↦ elim (Bool-cases (readable (resolve_path pm (path_of x)))) [
    | inl b ↦ absurd (n (a, b))
    | inr b ↦ rw a (rw b refl)
  ]
  | inr a ↦ rw a refl
]

keep_readable_sound :
    (pm : PermMap) (es : List Entry) (e : Entry) → In e (keep_readable pm es) → IsShown pm es e
unfolding keep_readable
keep_readable_sound pm [] e m = absurd m
keep_readable_sound pm (x ∷ es) e m = elim (CanRead-cases pm x) [
  | inl r ↦ head r (keep_readable_sound pm es e) (subst (In e) (keep_readable-kept pm x es r) m)
  | inr n ↦ later (keep_readable_sound pm es e (subst (In e) (keep_readable-skipped pm x es n) m))
]
  where
    later : IsShown pm es e → IsShown pm (x ∷ es) e
    later (y, q) = (y, (inr q.0, q.1))

    head :
        CanRead pm x
        → (In e (keep_readable pm es) → IsShown pm es e)
        → In e (wrap_entry (resolve_path pm (path_of x)) x ∷ keep_readable pm es)
        → IsShown pm (x ∷ es) e
    head r rest (inl q) = (x, (inl refl, (r, q)))
    head r rest (inr q) = later (rest q)

keep_readable_complete :
    (pm : PermMap) (es : List Entry) (x : Entry)
    → In x es
    → CanRead pm x
    → In (wrap_entry (resolve_path pm (path_of x)) x) (keep_readable pm es)
keep_readable_complete pm [] x m r = absurd m
keep_readable_complete pm (y ∷ es) x (inl q) r =
    subst (λ z. In (wrap_entry (resolve_path pm (path_of x)) x) (keep_readable pm (z ∷ es))) q
      (subst (In (wrap_entry (resolve_path pm (path_of x)) x)) (sym (keep_readable-kept pm x es r))
        (inl refl))
keep_readable_complete pm (y ∷ es) x (inr q) r = elim (CanRead-cases pm y) [
  | inl a ↦
      subst (In (wrap_entry (resolve_path pm (path_of x)) x)) (sym (keep_readable-kept pm y es a))
        (inr (keep_readable_complete pm es x q r))
  | inr n ↦
      subst (In (wrap_entry (resolve_path pm (path_of x)) x))
        (sym (keep_readable-skipped pm y es n)) (keep_readable_complete pm es x q r)
]

-- The loop of List keeps an entry exactly when it is the wrapper's of an entry of the drive's list that can be
-- read, by itself and by the permissions on its path.
pub keep_readable_iff :
    (pm : PermMap) (es : List Entry) (e : Entry) → In e (keep_readable pm es) ↔ IsShown pm es e
keep_readable_iff pm es e = (
  keep_readable_sound pm es e,
  λ (x, q).
      subst (λ z. In z (keep_readable pm es)) (sym q.1.1)
        (keep_readable_complete pm es x q.0 q.1.0),
)
