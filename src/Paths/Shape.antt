-- ===== src/Paths/Shape.antt =====
-- The shape of what CleanPath returns, for every text: the names of a path inside the root, or "..".
use mathlib.Core.List.{cons-ne-nil}
use solocoder_6069_go_drive.Common.{
  ℕ, zero, suc, false, List, [], ◌∷◌, ◌++◌, ◌≡◌, ◌≢◌, refl, sym, ap, ◌∙◌, append-nil, All, Str,
  str_eq, join, Bool-cases, inl, inr, arith, ◌⊎◌, replicate,
}
use solocoder_6069_go_drive.Common.Text.Split.{join-cons}
use solocoder_6069_go_drive.Paths.GoPath.{
  slash, dot_dot, is_rooted, kept_segments, or_dot, clean, trim_space,
}
use solocoder_6069_go_drive.Paths.Segments.{
  kept_segments-slash, IsNormal, join-not_rooted, join-ne-nil, or_dot_lem, clean-join, clean_lem,
}
use solocoder_6069_go_drive.Paths.Clean.{kept_segments-IsCleaned}
use solocoder_6069_go_drive.Paths.{trim_slash, strip_parents, drop_dot, clean_path, remove_unsafe}

-- The rest of a path behind one of its names.
data IsTail : Str → Type 0 where
  at_end : IsTail []
  at_slash : (s : Str) → IsTail (slash ∷ s)

join-cons-IsTail : (m : Str) (ns : List Str) → (t : Str) × IsTail t × (join slash (m ∷ ns) ≡ m ++ t)
unfolding join
join-cons-IsTail m [] = ([], at_end, sym (append-nil m))
join-cons-IsTail m (n ∷ ns) = (slash ∷ join slash (n ∷ ns), at_slash _, refl)

strip_parents-name : (m t : Str) → IsNormal m → IsTail t → strip_parents (m ++ t) ≡ m ++ t
unfolding strip_parents
strip_parents-name [] t n i = absurd (n.not_empty refl)
strip_parents-name (a ∷ []) t n at_end = refl
strip_parents-name (a ∷ []) t n (at_slash []) = refl
strip_parents-name (a ∷ []) t n (at_slash (c ∷ s)) = ground arith
strip_parents-name (a ∷ b ∷ []) t n at_end = refl
strip_parents-name (a ∷ b ∷ []) t n (at_slash s) = let e = n.not_parent in ground arith
strip_parents-name (a ∷ b ∷ c ∷ m) t n i = let e = n.no_slash.1.1.0 in ground arith

pub strip_parents-join :
    (ns : List Str) → All IsNormal ns → strip_parents (join slash ns) ≡ join slash ns
strip_parents-join [] h = unfold strip_parents join in refl
strip_parents-join (m ∷ ns) (n, h) =
    let (t, i, e) = join-cons-IsTail m ns in rw e (strip_parents-name m t n i)

drop_dot-name : (m t : Str) → IsNormal m → IsTail t → drop_dot (m ++ t) ≡ m ++ t
unfolding drop_dot str_eq
drop_dot-name [] t n i = absurd (n.not_empty refl)
drop_dot-name (a ∷ []) t n at_end = let e = n.not_dot in ground arith
drop_dot-name (a ∷ []) t n (at_slash s) = ground arith
drop_dot-name (a ∷ b ∷ m) t n i = ground arith

pub drop_dot-join : (ns : List Str) → All IsNormal ns → drop_dot (join slash ns) ≡ join slash ns
drop_dot-join [] h = unfold drop_dot join str_eq in refl
drop_dot-join (m ∷ ns) (n, h) =
    let (t, i, e) = join-cons-IsTail m ns in rw e (drop_dot-name m t n i)

pub trim_slash-join : (ns : List Str) → All IsNormal ns → trim_slash (join slash ns) ≡ join slash ns
trim_slash-join ns h = go (join slash ns) (join-not_rooted ns h)
  where
    go : (s : Str) → is_rooted s ≡ false → trim_slash s ≡ s
    go [] e = unfold trim_slash in refl
    go (c ∷ s) e = unfold trim_slash in (unfold is_rooted in ground arith)

strip_parents-up : (s : Str) → strip_parents (dot_dot ++ (slash ∷ s)) ≡ strip_parents s
unfolding strip_parents
strip_parents-up s = refl

-- Every leading ".." is dropped in front of a name.
strip_parents-ups :
    (k : ℕ) (n : Str) (ns : List Str)
    → All IsNormal (n ∷ ns)
    → strip_parents (join slash (replicate k dot_dot ++ (n ∷ ns))) ≡ join slash (n ∷ ns)
strip_parents-ups zero n ns h = strip_parents-join (n ∷ ns) h
strip_parents-ups (suc k) n ns h =
    ap strip_parents (join-cons slash dot_dot (replicate k dot_dot ++ (n ∷ ns)) (ne k))
    ∙ strip_parents-up (join slash (replicate k dot_dot ++ (n ∷ ns)))
    ∙ strip_parents-ups k n ns h
  where
    ne : (k : ℕ) → replicate k dot_dot ++ (n ∷ ns) ≢ []
    ne zero = cons-ne-nil _ _
    ne (suc k) = cons-ne-nil _ _

-- Of a path of ".." alone the last one stays.
strip_parents-only_ups : (k : ℕ) → strip_parents (join slash (replicate (suc k) dot_dot)) ≡ dot_dot
strip_parents-only_ups zero = unfold strip_parents join in refl
strip_parents-only_ups (suc k) =
    ap strip_parents (join-cons slash dot_dot (replicate (suc k) dot_dot) (cons-ne-nil _ _))
    ∙ strip_parents-up (join slash (replicate (suc k) dot_dot))
    ∙ strip_parents-only_ups k

join_starts_dot :
    (ss : List Str)
    → (is_rooted (join slash (dot_dot ∷ ss)) ≡ false)
      × (trim_slash (join slash (dot_dot ∷ ss)) ≡ join slash (dot_dot ∷ ss))
      × (or_dot (join slash (dot_dot ∷ ss)) ≡ join slash (dot_dot ∷ ss))
unfolding is_rooted join trim_slash or_dot
join_starts_dot [] = (refl, refl, refl)
join_starts_dot (s ∷ ss) = (refl, refl, refl)

-- The names of a path below the root.
pub record IsInside (p : Str) : Type 0 where
  pub names : List Str
  pub normal : All IsNormal names
  pub same : p ≡ join slash names

-- The steps of CleanPath behind path.Clean.
abbrev relative : Str → Str
relative s = drop_dot (strip_parents (trim_slash s))

relative-join : (ns : List Str) → All IsNormal ns → relative (join slash ns) ≡ join slash ns
relative-join ns h =
    ap (λ x. drop_dot (strip_parents x)) (trim_slash-join ns h)
    ∙ ap drop_dot (strip_parents-join ns h)
    ∙ drop_dot-join ns h

relative-rooted : (s : Str) → relative (slash ∷ s) ≡ drop_dot (strip_parents s)
relative-rooted s = unfold trim_slash in refl

relative_unrooted :
    (k : ℕ) (ns : List Str)
    → All IsNormal ns
    → (relative (or_dot (join slash (replicate k dot_dot ++ ns))) ≡ dot_dot)
      ⊎ (relative (or_dot (join slash (replicate k dot_dot ++ ns))) ≡ join slash ns)
relative_unrooted zero [] h =
    inr (unfold or_dot join trim_slash strip_parents drop_dot str_eq in refl)
relative_unrooted zero (n ∷ ns) h = inr (
    ap relative (or_dot_lem (join slash (n ∷ ns)) (join-ne-nil (n ∷ ns) (cons-ne-nil _ _) h))
    ∙ relative-join (n ∷ ns) h)
relative_unrooted (suc k) [] h =
    let d = join_starts_dot (replicate k dot_dot ++ []) in
    inl (
      ap relative d.2
      ∙ ap (λ x. drop_dot (strip_parents x)) d.1
      ∙ ap (λ x. drop_dot (strip_parents (join slash (dot_dot ∷ x))))
          (append-nil (replicate k dot_dot))
      ∙ ap drop_dot (strip_parents-only_ups k)
      ∙ (unfold drop_dot str_eq in refl))
relative_unrooted (suc k) (n ∷ ns) h =
    let d = join_starts_dot (replicate k dot_dot ++ (n ∷ ns)) in
    inr (
      ap relative d.2
      ∙ ap (λ x. drop_dot (strip_parents x)) d.1
      ∙ ap drop_dot (strip_parents-ups (suc k) n ns h)
      ∙ drop_dot-join (n ∷ ns) h)

clean-relative :
    (s : Str)
    → (relative (clean s) ≡ dot_dot)
      ⊎ ((ns : List Str) × All IsNormal ns × (relative (clean s) ≡ join slash ns))
clean-relative s =
    let v = kept_segments-IsCleaned s in
    elim (Bool-cases (is_rooted s)) [
      | inl r ↦ inr (
        v.kept,
        v.normal,
        rw (clean_lem, r, v.same, v.no_ups r)
            (relative-rooted (join slash v.kept)
              ∙ ap drop_dot (strip_parents-join v.kept v.normal)
              ∙ drop_dot-join v.kept v.normal),
      )
      | inr r ↦
          rw (clean_lem, r, v.same)
            (elim (relative_unrooted v.ups v.kept v.normal) [
              | inl e ↦ inl e
              | inr e ↦ inr (v.kept, v.normal, e)
            ])
    ]

-- For every text, CleanPath returns a slash-joined list of names (none of them empty, ".", ".." or
-- with a slash; the empty list for the root), or exactly "..".
pub clean_path-IsInside : (p : Str) → (clean_path p ≡ dot_dot) ⊎ IsInside (clean_path p)
unfolding clean_path
clean_path-IsInside p = elim (clean-relative (remove_unsafe (trim_space p))) [
  | inl e ↦ inl e
  | inr (ns, h, e) ↦ inr (record { names = ns; normal = h; same = e })
]

-- A text that TrimSpace and the removal of control characters leave alone.
abbrev pub IsPlain : Str → Type 0
IsPlain s = remove_unsafe (trim_space s) ≡ s

-- A joined list of names is a fixed point of CleanPath, if it has no control characters and no
-- white space at its ends.
pub clean_path-join :
    (ns : List Str)
    → All IsNormal ns
    → IsPlain (join slash ns)
    → clean_path (join slash ns) ≡ join slash ns
unfolding clean_path
clean_path-join [] h p =
    unfold join trim_space clean kept_segments or_dot trim_slash strip_parents drop_dot in refl
clean_path-join (n ∷ ns) h p =
    ap (λ s. relative (clean s)) p
    ∙ ap relative (clean-join (n ∷ ns) (cons-ne-nil _ _) h)
    ∙ relative-join (n ∷ ns) h

-- CleanPath takes the leading slash of a list of names away.
pub clean_path-slash :
    (ns : List Str)
    → All IsNormal ns
    → IsPlain (slash ∷ join slash ns)
    → clean_path (slash ∷ join slash ns) ≡ join slash ns
unfolding clean_path
clean_path-slash ns h p =
    ap (λ s. relative (clean s)) p
    ∙ ap relative (
        clean_lem (slash ∷ join slash ns)
        ∙ ap (λ ss. slash ∷ join slash ss) (kept_segments-slash ns h))
    ∙ relative-rooted (join slash ns)
    ∙ ap drop_dot (strip_parents-join ns h)
    ∙ drop_dot-join ns h
