-- ===== src/Paths/Segments.antt =====
-- Normal segments, and path.Clean on a path that is made of them.
use mathlib.Core.List.{foldl-append, cons-ne-nil, reverse-cons, reverse-reverse}
use solocoder_6069_go_drive.Common.{
  All-append, true, if◌then◌else◌, Bool, false, List, [], ◌∷◌, ◌++◌, ◌≡◌, ◌≢◌, refl, ap, ◌∙◌, foldl,
  reverse, append_assoc, append-nil, All, Str, Lacks, str_eq, str_eq_iff, join, arith,
}
use solocoder_6069_go_drive.Common.Text.Split.{split-append, split-join}
use solocoder_6069_go_drive.Paths.GoPath.{
  slash, dot, dot_dot, clean_step, is_rooted, kept_segments, or_dot, clean,
}

-- A name that a directory can hold: not empty, neither "." nor "..", and without a slash.
pub record IsNormal (s : Str) : Type 0 where
  pub not_empty : s ≢ []
  pub not_dot : s ≢ (dot ∷ [])
  pub not_parent : s ≢ dot_dot
  pub no_slash : Lacks slash s

pub All-no_slash : (ss : List Str) → All IsNormal ss → All (Lacks slash) ss
All-no_slash [] h = tt
All-no_slash (s ∷ ss) (n, h) = (n.no_slash, All-no_slash ss h)

pub str_eq_ne : (s t : Str) → s ≢ t → str_eq s t ≡ false
str_eq_ne s t h = ground (arith, str_eq_iff s t)

pub clean_step-normal :
    (r : Bool) (st : List Str) (s : Str) → IsNormal s → clean_step r st s ≡ s ∷ st
unfolding clean_step
clean_step-normal r st s n =
    rw (
      str_eq_ne s [] n.not_empty,
      str_eq_ne s (dot ∷ []) n.not_dot,
      str_eq_ne s dot_dot n.not_parent,
    )

foldl-normal :
    (r : Bool) (ss st : List Str) → All IsNormal ss → foldl (clean_step r) st ss ≡ reverse ss ++ st
foldl-normal r [] st h = refl
foldl-normal r (s ∷ ss) st (n, h) =
    ap (λ x. foldl (clean_step r) x ss) (clean_step-normal r st s n)
    ∙ foldl-normal r ss (s ∷ st) h
    ∙ simp (reverse-cons, append_assoc)

-- The first character of a joined list of normal segments is no slash.
pub join-not_rooted : (ss : List Str) → All IsNormal ss → is_rooted (join slash ss) ≡ false
unfolding is_rooted join
join-not_rooted [] h = refl
join-not_rooted ([] ∷ ss) (n, h) = absurd (n.not_empty refl)
join-not_rooted ((c ∷ s) ∷ []) (n, h) = let e = n.no_slash.0 in ground arith
join-not_rooted ((c ∷ s) ∷ t ∷ ss) (n, h) = let e = n.no_slash.0 in ground arith

pub join-ne-nil : (ss : List Str) → ss ≢ [] → All IsNormal ss → join slash ss ≢ []
unfolding join
join-ne-nil [] h _ = absurd (h refl)
join-ne-nil ([] ∷ ss) h (n, _) = absurd (n.not_empty refl)
join-ne-nil ((c ∷ s) ∷ []) h _ = cons-ne-nil _ _
join-ne-nil ((c ∷ s) ∷ t ∷ ss) h _ = cons-ne-nil _ _

pub or_dot_lem : (s : Str) → s ≢ [] → or_dot s ≡ s
unfolding or_dot
or_dot_lem [] h = absurd (h refl)
or_dot_lem (c ∷ s) h = refl

pub kept_segments-join :
    (ss : List Str) → ss ≢ [] → All IsNormal ss → kept_segments (join slash ss) ≡ ss
unfolding kept_segments
kept_segments-join ss ne h =
    let r = is_rooted (join slash ss) in
    ap (λ x. reverse (foldl (clean_step r) [] x)) (split-join slash ss ne (All-no_slash ss h))
    ∙ ap reverse (foldl-normal r ss [] h ∙ append-nil (reverse ss))
    ∙ reverse-reverse ss

pub clean_lem :
    (s : Str)
    → clean s ≡ (
        if is_rooted s
        then slash ∷ join slash (kept_segments s)
        else or_dot (join slash (kept_segments s)))
unfolding clean
clean_lem s = refl

-- path.Clean leaves a joined list of normal segments as it is.
pub clean-join : (ss : List Str) → ss ≢ [] → All IsNormal ss → clean (join slash ss) ≡ join slash ss
clean-join ss ne h =
    rw (clean_lem, kept_segments-join ss ne h, join-not_rooted ss h)
      (or_dot_lem (join slash ss) (join-ne-nil ss ne h))

-- A leading slash adds nothing to what is kept.
pub kept_segments-slash :
    (ss : List Str) → All IsNormal ss → kept_segments (slash ∷ join slash ss) ≡ ss
unfolding kept_segments
kept_segments-slash [] h = unfold join in refl
kept_segments-slash (s ∷ ss) h =
    ap (λ x. reverse (foldl (clean_step true) [] x))
      (split-append slash [] (join slash (s ∷ ss)) tt)
    ∙ ap (λ x. reverse (foldl (clean_step true) [] x))
        (split-join slash (s ∷ ss) (cons-ne-nil _ _) (All-no_slash (s ∷ ss) h))
    ∙ ap reverse (foldl-normal true (s ∷ ss) [] h ∙ append-nil (reverse (s ∷ ss)))
    ∙ reverse-reverse (s ∷ ss)

join_head-not_rooted :
    (s : Str) (ss : List Str) → IsNormal s → is_rooted (join slash (s ∷ ss)) ≡ false
unfolding is_rooted join
join_head-not_rooted [] ss n = absurd (n.not_empty refl)
join_head-not_rooted (c ∷ s) [] n = let e = n.no_slash.0 in ground arith
join_head-not_rooted (c ∷ s) (t ∷ ss) n = let e = n.no_slash.0 in ground arith

-- A ".." behind names takes the last of them away.
kept_segments-parent :
    (rs : List Str) (r : Str)
    → All IsNormal rs
    → IsNormal r
    → kept_segments (join slash (rs ++ (r ∷ dot_dot ∷ []))) ≡ rs
unfolding kept_segments
kept_segments-parent rs r h n =
    let b = is_rooted (join slash (rs ++ (r ∷ dot_dot ∷ []))) in
    ap (λ x. reverse (foldl (clean_step b) [] x))
      (split-join slash (rs ++ (r ∷ dot_dot ∷ [])) (append-ne-nil rs) (
        All-append (Lacks slash) rs (r ∷ dot_dot ∷ []) (All-no_slash rs h)
          (n.no_slash, ((omega arith, (omega arith, tt)), tt))))
    ∙ ap reverse (
        foldl-append (clean_step b) [] rs (r ∷ dot_dot ∷ [])
        ∙ ap (λ x. foldl (clean_step b) x (r ∷ dot_dot ∷ []))
            (foldl-normal b rs [] h ∙ append-nil (reverse rs))
        ∙ ap (λ x. clean_step b x dot_dot) (clean_step-normal b (reverse rs) r n)
        ∙ back b)
    ∙ reverse-reverse rs
  where
    append-ne-nil : (rs : List Str) → rs ++ (r ∷ dot_dot ∷ []) ≢ []
    append-ne-nil [] = cons-ne-nil _ _
    append-ne-nil (r ∷ rs) = cons-ne-nil _ _

    back : (b : Bool) → clean_step b (r ∷ reverse rs) dot_dot ≡ reverse rs
    back b = unfold clean_step str_eq in rw (str_eq_ne r dot_dot n.not_parent)

-- path.Clean of "rs/r/..", for names rs and r: the last name goes.
pub clean-parent :
    (s : Str) (rs : List Str) (r : Str)
    → All IsNormal (s ∷ rs)
    → IsNormal r
    → clean (join slash ((s ∷ rs) ++ (r ∷ dot_dot ∷ []))) ≡ join slash (s ∷ rs)
clean-parent s rs r h n =
    rw
      (
        clean_lem,
        kept_segments-parent (s ∷ rs) r h n,
        join_head-not_rooted s (rs ++ (r ∷ dot_dot ∷ [])) h.0,
      )
      (or_dot_lem (join slash (s ∷ rs)) (join-ne-nil (s ∷ rs) (cons-ne-nil _ _) h))
