-- ===== src/Paths/Ancestors.antt =====
-- The parent of a path is shorter than the path, so the loop of PathParentTree ends.
use mathlib.Core.List.{reverse-cons}
use solocoder_6069_go_drive.Common.{
  ℕ, zero, suc, ◌+◌, ◌≤◌, ◌<◌, true, ◌||◌, List, [], ◌∷◌, ◌++◌, reverse, length, length-append,
  if◌then◌else◌, Str, str_eq, split, some, ◌≡◌, ◌≢◌, refl, sym, ◌∙◌, ap, subst, ◌⊎◌, inl, inr,
  arith, Bool-cases, append-nil,
}
use solocoder_6069_go_drive.Paths.GoPath.{
  slash, dot, trim_left, trim_space, clean, contains, before_last, dir_part, dir,
}
use solocoder_6069_go_drive.Paths.Size.{weight, head_empty, weight-split, clean-le}
use solocoder_6069_go_drive.Paths.{
  is_unsafe_char, remove_unsafe, trim_slash, strip_parents, drop_dot, clean_path, path_parent,
  is_root_path, parents_loop, path_parent_tree,
}

length-reverse : (s : Str) → length (reverse s) ≡ length s
length-reverse [] = refl
length-reverse (c ∷ s) =
    ap length (reverse-cons c s)
    ∙ length-append (reverse s) (c ∷ [])
    ∙ omega (arith, length-reverse s)

trim_left-le : (s : Str) → length (trim_left s) ≤ length s
unfolding trim_left
trim_left-le [] = omega arith
trim_left-le (c ∷ s) = ground (arith, trim_left-le s)

trim_space-le : (s : Str) → length (trim_space s) ≤ length s
unfolding trim_space
trim_space-le s = omega (
  arith,
  length-reverse (trim_left (reverse (trim_left s))),
  trim_left-le (reverse (trim_left s)),
  length-reverse (trim_left s),
  trim_left-le s,
)

remove_unsafe-le : (s : Str) → length (remove_unsafe s) ≤ length s
unfolding remove_unsafe
remove_unsafe-le [] = omega arith
remove_unsafe-le (c ∷ s) = elim (Bool-cases (is_unsafe_char c)) [
  | inl e ↦ rw e (omega (arith, remove_unsafe-le s))
  | inr e ↦ rw e (omega (arith, remove_unsafe-le s))
]

trim_slash-le : (s : Str) → length (trim_slash s) ≤ length s
unfolding trim_slash
trim_slash-le [] = omega arith
trim_slash-le (c ∷ s) = ground arith

strip_parents-le : (s : Str) → length (strip_parents s) ≤ length s
unfolding strip_parents
strip_parents-le [] = omega arith
strip_parents-le (a ∷ []) = omega arith
strip_parents-le (a ∷ b ∷ []) = omega arith
strip_parents-le (a ∷ b ∷ c ∷ s) = ground (arith, strip_parents-le s)

drop_dot-le : (s : Str) → length (drop_dot s) ≤ length s
unfolding drop_dot
drop_dot-le s = elim (Bool-cases (str_eq s (dot ∷ []))) [
  | inl e ↦ rw e (omega arith)
  | inr e ↦ rw e (omega arith)
]

clean-length : (s : Str) → (length (clean s) ≤ 1) ⊎ (length (clean s) ≤ length s)
clean-length s = clean-le s (length s) (
    subst (λ x. weight (split slash x) + head_empty (split slash x) ≤ length s + 1) (append-nil s)
      (omega (arith, weight-split [] 0 (unfold weight head_empty split in omega arith) s)))

-- CleanPath does not make a path longer, unless it is empty.
pub clean_path-le : (p : Str) → p ≢ [] → length (clean_path p) ≤ length p
unfolding clean_path
clean_path-le [] d = absurd (d refl)
clean_path-le (c ∷ p) d =
    let q = remove_unsafe (trim_space (c ∷ p)) in
    let short : length q ≤ length (c ∷ p) =
      omega (arith, remove_unsafe-le (trim_space (c ∷ p)), trim_space-le (c ∷ p)) in
    let cut : length (drop_dot (strip_parents (trim_slash (clean q)))) ≤ length (clean q) = omega (
      arith,
      drop_dot-le (strip_parents (trim_slash (clean q))),
      strip_parents-le (trim_slash (clean q)),
      trim_slash-le (clean q),
    ) in
    elim (clean-length q) [ inl h ↦ omega arith | inr h ↦ omega arith ]

before_last-lt : (s : Str) → contains slash s ≡ true → length (before_last slash s) < length s
unfolding contains before_last
before_last-lt [] e = cc
before_last-lt (c ∷ s) e = elim (Bool-cases (contains slash s)) [
  | inl f ↦ rw f (omega (arith, before_last-lt s f))
  | inr f ↦ rw f (ground arith)
]

-- The two forms of an empty directory are dropped.
parent_of : Str → Str
parent_of d = if str_eq d (slash ∷ []) || str_eq d (dot ∷ []) then [] else d

path_parent_lem : (p : Str) → path_parent p ≡ parent_of (dir (clean_path p))
unfolding path_parent parent_of
path_parent_lem p = refl

parent_of-le : (d : Str) → length (parent_of d) ≤ length d
unfolding parent_of
parent_of-le d = elim (Bool-cases (str_eq d (slash ∷ []) || str_eq d (dot ∷ []))) [
  | inl e ↦ rw e (omega arith)
  | inr e ↦ rw e (omega arith)
]

-- The directory of a text that holds a slash.
dir-le : (t : Str) → length (parent_of (clean (t ++ (slash ∷ [])))) ≤ length t
dir-le [] = unfold parent_of clean str_eq in omega arith
dir-le (c ∷ t) =
    let h = clean-le ((c ∷ t) ++ (slash ∷ [])) (length (c ∷ t)) (
      omega (
        arith,
        weight-split (slash ∷ []) 0 (unfold weight head_empty split in omega arith) (c ∷ t),
      )) in
    let cut = parent_of-le (clean ((c ∷ t) ++ (slash ∷ []))) in
    elim h [ inl k ↦ omega arith | inr k ↦ omega arith ]

above_lt : (q : Str) → (parent_of (dir q) ≡ []) ⊎ (length (parent_of (dir q)) < length q)
unfolding dir dir_part
above_lt q = elim (Bool-cases (contains slash q)) [
  | inl e ↦ rw e (inr (omega (arith, dir-le (before_last slash q), before_last-lt q e)))
  | inr e ↦ rw e (inl (unfold parent_of clean str_eq in refl))
]

-- The parent of a path that is not the root is shorter than the path.
pub path_parent-lt : (p : Str) → p ≢ [] → length (path_parent p) < length p
path_parent-lt [] d = absurd (d refl)
path_parent-lt (c ∷ p) d =
    subst (λ x. length x < length (c ∷ p)) (sym (path_parent_lem (c ∷ p)))
      (elim (above_lt (clean_path (c ∷ p))) [
        | inl e ↦ subst (λ x. length x < length (c ∷ p)) (sym e) (omega arith)
        | inr h ↦ omega (arith, clean_path-le (c ∷ p) d)
      ])

-- The paths of the list are each other's parents, down to the root.
abbrev pub IsLine : Str → List Str → Type 0
IsLine p [] = ⊥
IsLine p (q ∷ []) = (q ≡ p) × (p ≡ [])
IsLine p (q ∷ r ∷ rs) = (q ≡ p) × (p ≢ []) × IsLine (path_parent p) (r ∷ rs)

IsLine-cons :
    (c : ℕ) (p : Str) (rest : List Str)
    → IsLine (path_parent (c ∷ p)) rest
    → IsLine (c ∷ p) ((c ∷ p) ∷ rest)
IsLine-cons c p [] h = absurd h
IsLine-cons c p (r ∷ rs) h = (refl, (λ e. cc), h)

parents_loop_total :
    (fuel : ℕ) (p : Str)
    → length p < fuel
    → (line : List Str) × (parents_loop fuel p ≡ some line) × IsLine p line
parents_loop_total zero p h = absurd (omega arith)
parents_loop_total (suc fuel) [] h =
    ([] ∷ [], (unfold parents_loop is_root_path in refl), (refl, refl))
parents_loop_total (suc fuel) (c ∷ p) h =
    let (line, e, v) =
      parents_loop_total fuel (path_parent (c ∷ p))
        (omega (arith, path_parent-lt (c ∷ p) (λ e. cc))) in
    ((c ∷ p) ∷ line, step line e, IsLine-cons c p line v)
  where
    step :
        (line : List Str)
        → parents_loop fuel (path_parent (c ∷ p)) ≡ some line
        → parents_loop (suc fuel) (c ∷ p) ≡ some ((c ∷ p) ∷ line)
    step line e = unfold parents_loop is_root_path in rw (e, parents_loop) refl

-- PathParentTree ends for every path: it returns a list that starts with the cleaned path, in which
-- each path is followed by its PathParent, and that ends with the first root path.
pub path_parent_tree_total :
    (p : Str) → (line : List Str) × (path_parent_tree p ≡ some line) × IsLine (clean_path p) line
unfolding path_parent_tree
path_parent_tree_total p =
    parents_loop_total (suc (length (clean_path p))) (clean_path p) (omega arith)
