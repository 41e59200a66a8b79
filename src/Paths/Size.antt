-- ===== src/Paths/Size.antt =====
-- path.Clean does not make a text longer.
use mathlib.Core.List.{reverse-cons}
use solocoder_6069_go_drive.Common.{
  ℕ, zero, suc, ◌+◌, ◌-◌, ◌≤◌, Bool, true, false, ◌||◌, List, [], ◌∷◌, ◌++◌, foldl, reverse, length,
  length-append, ◌==◌, if◌then◌else◌, Str, str_eq, str_eq_iff, split, cons_head, join, ◌≡◌, refl,
  sym, ◌∙◌, ap, subst, ◌⊎◌, inl, inr, arith, Bool-cases,
}
use solocoder_6069_go_drive.Paths.GoPath.{
  slash, dot, dot_dot, back_up, clean_step, is_rooted, kept_segments, or_dot, clean,
}
use solocoder_6069_go_drive.Paths.Segments.{clean_lem}

-- The length of the segments with a slash for each.
seg_size : List Str → ℕ
seg_size [] = 0
seg_size (s ∷ ss) = (length s + 1) + seg_size ss

-- The same, where empty segments do not count.
unfoldable pub weight : List Str → ℕ
weight [] = 0
weight ([] ∷ ss) = weight ss
weight ((c ∷ s) ∷ ss) = (length s + 2) + weight ss

unfoldable pub head_empty : List Str → ℕ
head_empty [] = 0
head_empty ([] ∷ ss) = 1
head_empty ((c ∷ s) ∷ ss) = 0

seg_size-append : (xs ys : List Str) → seg_size (xs ++ ys) ≡ seg_size xs + seg_size ys
unfolding seg_size
seg_size-append [] ys = omega arith
seg_size-append (x ∷ xs) ys = omega (arith, seg_size-append xs ys)

length-join : (ss : List Str) → length (join slash ss) ≤ seg_size ss - 1
unfolding join seg_size
length-join [] = omega arith
length-join (s ∷ []) = omega arith
length-join (s ∷ t ∷ ss) =
    let e = length-append s (slash ∷ join slash (t ∷ ss)) in omega (arith, length-join (t ∷ ss))

back_up-le : (r : Bool) (st : List Str) → seg_size (back_up r st) ≤ seg_size st + 3
unfolding back_up seg_size
back_up-le true [] = omega arith
back_up-le false [] = omega arith
back_up-le r (t ∷ st) = elim (Bool-cases (str_eq t dot_dot)) [
  | inl e ↦ rw e (omega arith)
  | inr e ↦ rw e (omega arith)
]

clean_step-le :
    (r : Bool) (st : List Str) (s : Str)
    → seg_size (clean_step r st s) ≤ seg_size st + weight (s ∷ [])
unfolding clean_step seg_size weight
clean_step-le r st [] = unfold str_eq in omega arith
clean_step-le r st (c ∷ s) = elim (Bool-cases (str_eq (c ∷ s) [] || str_eq (c ∷ s) (dot ∷ []))) [
  | inl e ↦ rw e (omega arith)
  | inr e ↦ elim (Bool-cases (str_eq (c ∷ s) dot_dot)) [
    | inl f ↦ rw (e, f) (parent ((str_eq_iff (c ∷ s) dot_dot).0 f))
    | inr f ↦ rw (e, f) (omega arith)
  ]
]
  where
    parent : c ∷ s ≡ dot_dot → seg_size (back_up r st) ≤ seg_size st + (length s + 2 + 0)
    parent f = let g : suc (length s) ≡ 2 = ap length f in omega (arith, back_up-le r st)

weight-cons : (s : Str) (ss : List Str) → weight (s ∷ ss) ≡ weight (s ∷ []) + weight ss
unfolding weight
weight-cons [] ss = omega arith
weight-cons (c ∷ s) ss = omega arith

foldl-le :
    (r : Bool) (ss st : List Str) → seg_size (foldl (clean_step r) st ss) ≤ seg_size st + weight ss
foldl-le r [] st = unfold weight in omega arith
foldl-le r (s ∷ ss) st =
    omega (arith, foldl-le r ss (clean_step r st s), clean_step-le r st s, weight-cons s ss)

seg_size-reverse : (ss : List Str) → seg_size (reverse ss) ≡ seg_size ss
unfolding seg_size
seg_size-reverse [] = refl
seg_size-reverse (s ∷ ss) =
    ap seg_size (reverse-cons s ss)
    ∙ seg_size-append (reverse ss) (s ∷ [])
    ∙ omega (arith, seg_size-reverse ss)

kept_segments-le : (s : Str) → seg_size (kept_segments s) ≤ weight (split slash s)
unfolding kept_segments seg_size
kept_segments-le s =
    let kept = foldl (clean_step (is_rooted s)) [] (split slash s) in
    omega (arith, seg_size-reverse kept, foldl-le (is_rooted s) (split slash s) [])

weight-part :
    (c n : ℕ) (b : Bool) (ps : List Str)
    → weight ps + head_empty ps ≤ n
    → 1 ≤ n
    → weight (if b then [] ∷ ps else cons_head c ps)
        + head_empty (if b then [] ∷ ps else cons_head c ps)
      ≤ n + 1
unfolding weight head_empty cons_head
weight-part c n true ps h p = omega arith
weight-part c n false [] h p = omega arith
weight-part c n false ([] ∷ ps) h p = omega arith
weight-part c n false ((d ∷ q) ∷ ps) h p = omega arith

split_lem :
    (c : ℕ) (s : Str)
    → split slash (c ∷ s) ≡ (if c == slash then [] ∷ split slash s else cons_head c (split slash s))
unfolding split
split_lem c s = refl

-- What a split weighs, from a bound for its end.
pub weight-split :
    (u : Str) (k : ℕ)
    → weight (split slash u) + head_empty (split slash u) ≤ k + 1
    → (t : Str)
    → weight (split slash (t ++ u)) + head_empty (split slash (t ++ u)) ≤ length t + (k + 1)
weight-split u k base [] = omega (arith, base)
weight-split u k base (c ∷ t) =
    let h =
      weight-part c (length t + (k + 1)) (c == slash) (split slash (t ++ u))
        (weight-split u k base t) (omega arith) in
    let h' =
      subst (λ x. weight x + head_empty x ≤ length t + (k + 1) + 1) (sym (split_lem c (t ++ u)))
        h in
    omega (arith, h')

split-rooted : (s : Str) → is_rooted s ≡ true → head_empty (split slash s) ≡ 1
unfolding is_rooted
split-rooted [] e = cc
split-rooted (c ∷ s) e = ap head_empty (split_lem c s) ∙ (rw e (unfold head_empty in refl))

-- path.Clean of a text whose segments weigh little is short.
pub clean-le :
    (s : Str) (k : ℕ)
    → weight (split slash s) + head_empty (split slash s) ≤ k + 1
    → (length (clean s) ≤ 1) ⊎ (length (clean s) ≤ k)
clean-le s k h = elim (Bool-cases (is_rooted s)) [
  | inl e ↦
      subst (λ x. (length x ≤ 1) ⊎ (length x ≤ k)) (sym (clean_lem s ∙ ap (λ b. form b) e))
        (rooted (split-rooted s e))
  | inr e ↦
      subst (λ x. (length x ≤ 1) ⊎ (length x ≤ k)) (sym (clean_lem s ∙ ap (λ b. form b) e))
        (relative (join slash (kept_segments s))
          (omega (arith, length-join (kept_segments s), kept_segments-le s)))
]
  where
    form : Bool → Str
    form b =
        if b then slash ∷ join slash (kept_segments s) else or_dot (join slash (kept_segments s))

    pick : (n : ℕ) → n ≤ k - 1 → (suc n ≤ 1) ⊎ (suc n ≤ k)
    pick zero h = inl (omega arith)
    pick (suc n) h = inr (omega arith)

    rooted :
        head_empty (split slash s) ≡ 1
        → (length (slash ∷ join slash (kept_segments s)) ≤ 1)
          ⊎ (length (slash ∷ join slash (kept_segments s)) ≤ k)
    rooted e =
        pick (length (join slash (kept_segments s)))
          (omega (arith, length-join (kept_segments s), kept_segments-le s))

    relative : (out : Str) → length out ≤ k → (length (or_dot out) ≤ 1) ⊎ (length (or_dot out) ≤ k)
    relative [] h = inl (unfold or_dot in omega arith)
    relative (c ∷ out) h = inr (unfold or_dot in h)
