-- ===== src/Chroot/Jail.antt =====
-- The jail holds: what WrapPath returns lies at or below the root, for every path that CleanPath
-- does not turn into "..", and UnwrapPath gives the path back.
use mathlib.Core.List.{cons-ne-nil}
use solocoder_6069_go_drive.Common.{
  ◌&&◌, if◌then◌else◌, Bool, true, false, List, [], ◌∷◌, ◌++◌, ◌≡◌, ◌≢◌, refl, sym, ap, ◌∙◌,
  append_assoc, append-nil, All, Str, All-append, join, inl, inr, arith, length, drop, drop-append,
  has_prefix, has_prefix-append, str_eq, str_eq_refl,
}
use solocoder_6069_go_drive.Common.Text.Split.{join-append}
use solocoder_6069_go_drive.Errors.{ok, err, not_found}
use solocoder_6069_go_drive.Paths.{
  trim_space, remove_unsafe, slash, dot_dot, clean, join_path, clean_path,
}
use solocoder_6069_go_drive.Paths.Segments.{clean-parent, IsNormal, join-ne-nil, clean-join}
use solocoder_6069_go_drive.Paths.Shape.{
  clean_path-slash, clean_path-IsInside, clean_path-join, IsPlain,
}
use solocoder_6069_go_drive.Chroot.{not, none, Chroot, is_visible, wrap_path, unwrap_path}

join_path_lem : (s t : Str) → s ≢ [] → t ≢ [] → join_path s t ≡ clean (s ++ (slash ∷ t))
unfolding join_path
join_path_lem [] t ne _ = absurd (ne refl)
join_path_lem (c ∷ s) [] _ ne = absurd (ne refl)
join_path_lem (c ∷ s) (d ∷ t) _ _ = refl

-- path.Join of two joined lists of names is the join of both.
join_path-join :
    (rs ns : List Str)
    → rs ≢ []
    → All IsNormal rs
    → All IsNormal ns
    → join_path (join slash rs) (join slash ns) ≡ join slash (rs ++ ns)
join_path-join rs [] ne hr hn =
    unfold join in
    go (join slash rs) (clean-join rs ne hr) (join-ne-nil rs ne hr)
    ∙ ap (join slash) (sym (append-nil rs))
  where
    go : (s : Str) → clean s ≡ s → s ≢ [] → join_path s [] ≡ s
    go [] e ne = absurd (ne refl)
    go (c ∷ s) e ne = unfold join_path in e
join_path-join rs (n ∷ ns) ne hr hn =
    join_path_lem (join slash rs) (join slash (n ∷ ns)) (join-ne-nil rs ne hr)
      (join-ne-nil (n ∷ ns) (cons-ne-nil _ _) hn)
    ∙ ap clean (sym (join-append slash rs (n ∷ ns) ne (cons-ne-nil _ _)))
    ∙ clean-join (rs ++ (n ∷ ns)) (append-ne-nil rs ne) (All-append IsNormal rs (n ∷ ns) hr hn)
  where
    append-ne-nil : (rs : List Str) → rs ≢ [] → rs ++ (n ∷ ns) ≢ []
    append-ne-nil [] ne = absurd (ne refl)
    append-ne-nil (r ∷ rs) ne = cons-ne-nil _ _

wrap_path_lem :
    (c : Chroot) (p : Str)
    → wrap_path c p ≡ (
        if is_visible c.name_filter (clean_path p)
        then ok (join_path c.root (clean_path p))
        else err not_found)
unfolding wrap_path
wrap_path_lem c p = refl

wrap_path-ok : (c : Chroot) (p q : Str) → wrap_path c p ≡ ok q → q ≡ join_path c.root (clean_path p)
wrap_path-ok c p q h = go (is_visible c.name_filter (clean_path p)) refl
  where
    go :
        (b : Bool)
        → is_visible c.name_filter (clean_path p) ≡ b
        → q ≡ join_path c.root (clean_path p)
    go true e = let k = wrap_path_lem c p in ground arith
    go false e = let k = wrap_path_lem c p in ground arith

unwrap_path-root : (c : Chroot) → unwrap_path c c.root ≡ []
unfolding unwrap_path
unwrap_path-root c = rw (str_eq_refl c.root, rest) (unfold join in clean_path-join [] tt plain)
  where
    plain : IsPlain []
    plain = unfold remove_unsafe trim_space in refl

    rest : drop (length c.root) c.root ≡ []
    rest = ap (drop (length c.root)) (sym (append-nil c.root)) ∙ drop-append c.root []

unwrap_path-append :
    (c : Chroot) (t : Str) → unwrap_path c (c.root ++ (slash ∷ t)) ≡ clean_path (slash ∷ t)
unfolding unwrap_path
unwrap_path-append c t =
    rw (below, and_false (not (str_eq (c.root ++ (slash ∷ t)) c.root)))
      (ap clean_path (drop-append c.root (slash ∷ t)))
  where
    below : has_prefix (c.root ++ (slash ∷ t)) (c.root ++ (slash ∷ [])) ≡ true
    below =
        ap (λ s. has_prefix s (c.root ++ (slash ∷ []))) (sym (append_assoc c.root (slash ∷ []) t))
        ∙ has_prefix-append (c.root ++ (slash ∷ [])) t

    and_false : (b : Bool) → (b && false) ≡ false
    and_false true = refl
    and_false false = refl

unwrap_path-names :
    (c : Chroot) (rs : List Str)
    → rs ≢ []
    → c.root ≡ join slash rs
    → (ns : List Str) → All IsNormal ns
    → IsPlain (slash ∷ join slash ns)
    → (q : Str) → q ≡ join slash (rs ++ ns)
    → unwrap_path c q ≡ join slash ns
unwrap_path-names c rs ne at [] names plain q f =
    ap (unwrap_path c) (f ∙ ap (join slash) (append-nil rs) ∙ sym at)
    ∙ unwrap_path-root c
    ∙ (unfold join in refl)
unwrap_path-names c rs ne at (n ∷ ns) names plain q f =
    ap (unwrap_path c) (
      f
      ∙ join-append slash rs (n ∷ ns) ne (cons-ne-nil _ _)
      ∙ ap (λ r. r ++ (slash ∷ join slash (n ∷ ns))) (sym at))
    ∙ unwrap_path-append c (join slash (n ∷ ns))
    ∙ clean_path-slash (n ∷ ns) names plain

-- A jail of at least one name, and a path that CleanPath does not turn into "..".
module _ (c : Chroot) (rs : List Str) (ne : rs ≢ []) (normal : All IsNormal rs)
    (at : c.root ≡ join slash rs) (p : Str) (no_escape : clean_path p ≢ dot_dot) where
  -- Whatever path WrapPath accepts, what it returns is the root followed by zero or more names, the
  -- names of the cleaned path: it lies at or below the root.
  pub wrap_path-names :
      (q : Str)
      → wrap_path c p ≡ ok q
      → (ns : List Str) × All IsNormal ns
        × (clean_path p ≡ join slash ns)
        × (q ≡ join slash (rs ++ ns))
  wrap_path-names q h = elim (clean_path-IsInside p) [
    | inl e ↦ absurd (no_escape e)
    | inr v ↦ (
      v.names,
      v.normal,
      v.same,
      wrap_path-ok c p q h
          ∙ ap (join_path c.root) v.same
          ∙ ap (λ r. join_path r (join slash v.names)) at
          ∙ join_path-join rs v.names ne normal v.normal,
    )
  ]

  -- UnwrapPath undoes WrapPath: it gives the cleaned path back, if "/" and that path together hold
  -- no control characters and no trailing white space.
  pub unwrap_path-wrap_path :
      (q : Str)
      → IsPlain (slash ∷ clean_path p)
      → wrap_path c p ≡ ok q
      → unwrap_path c q ≡ clean_path p
  unwrap_path-wrap_path q plain h =
      let (ns, names, e, f) = wrap_path-names q h in
      rw e (unwrap_path-names c rs ne at ns names (rw e at plain) q f)

-- The jail does not hold for the path "..", nor for any path that CleanPath turns into it, such as
-- "../..": without a name filter WrapPath returns the parent of a root of two or more names.
pub wrap_path-escape :
    (c : Chroot) (s : Str) (rs : List Str) (r : Str)
    → All IsNormal (s ∷ rs)
    → IsNormal r
    → c.root ≡ join slash ((s ∷ rs) ++ (r ∷ []))
    → c.name_filter ≡ none
    → (p : Str) → clean_path p ≡ dot_dot
    → wrap_path c p ≡ ok (join slash (s ∷ rs))
wrap_path-escape c s rs r h n at visible p e =
    wrap_path_lem c p
    ∙ ap
        (λ f.
          if is_visible f (clean_path p)
          then ok (join_path c.root (clean_path p))
          else err not_found)
        visible
    ∙ shown (join_path c.root (clean_path p))
    ∙ ap ok (
        ap (join_path c.root) e
        ∙ ap (λ x. join_path x dot_dot) at
        ∙ join_path_lem (join slash names) dot_dot (join-ne-nil names (cons-ne-nil _ _) all)
            (cons-ne-nil _ _)
        ∙ ap clean (spelled ∙ ap (join slash) (append_assoc (s ∷ rs) (r ∷ []) (dot_dot ∷ [])))
        ∙ clean-parent s rs r h n)
  where
    names : List Str
    names = (s ∷ rs) ++ (r ∷ [])

    all : All IsNormal names
    all = All-append IsNormal (s ∷ rs) (r ∷ []) h (n, tt)

    spelled : join slash names ++ (slash ∷ dot_dot) ≡ join slash (names ++ (dot_dot ∷ []))
    spelled =
        unfold join in
        sym (join-append slash names (dot_dot ∷ []) (cons-ne-nil _ _) (cons-ne-nil _ _))

    shown : (x : Str) → (if is_visible none (clean_path p) then ok x else err not_found) ≡ ok x
    shown x = unfold is_visible in refl
