-- ===== src/Paths/Clean.antt =====
-- The shape of what path.Clean and CleanPath return, for every text.
use mathlib.Core.List.{reverse-append}
use solocoder_6069_go_drive.Common.{
  ℕ, zero, suc, Bool, true, false, List, [], ◌∷◌, ◌++◌, ◌≡◌, refl, ap, ◌∙◌, foldl, reverse, All,
  All-reverse, Str, Lacks, str_eq, str_eq_iff, split, Bool-cases, inl, inr, arith, ◌||◌, replicate,
}
use solocoder_6069_go_drive.Common.Text.Split.{split-Lacks}
use solocoder_6069_go_drive.Paths.GoPath.{
  slash, dot, dot_dot, back_up, clean_step, is_rooted, kept_segments,
}
use solocoder_6069_go_drive.Paths.Segments.{IsNormal, str_eq_ne}

-- A stack of path.Clean: normal segments over the ".." of a relative path.
record IsStack (r : Bool) (st : List Str) : Type 0 where
  kept : List Str
  ups : ℕ
  normal : All IsNormal kept
  same : st ≡ kept ++ replicate ups dot_dot
  no_ups : r ≡ true → ups ≡ 0

back_up-IsStack :
    (r : Bool) (ms : List Str) (k : ℕ)
    → All IsNormal ms
    → (r ≡ true → k ≡ 0)
    → IsStack r (back_up r (ms ++ replicate k dot_dot))
unfolding back_up str_eq
back_up-IsStack true [] zero h z = record {
  kept = [];
  ups = 0;
  normal = tt;
  same = refl;
  no_ups = λ _. refl;
}
back_up-IsStack false [] zero h z = record {
  kept = [];
  ups = 1;
  normal = tt;
  same = refl;
  no_ups = λ e. cc;
}
back_up-IsStack r [] (suc k) h z = record {
  kept = [];
  ups = suc (suc k);
  normal = tt;
  same = refl;
  no_ups = λ e. absurd (omega (arith, z e));
}
back_up-IsStack r (m ∷ ms) k (n, h) z = record {
  kept = ms;
  ups = k;
  normal = h;
  same = rw (str_eq_ne m dot_dot n.not_parent);
  no_ups = z;
}

clean_step-IsStack :
    (r : Bool) (ms : List Str) (k : ℕ) (s : Str)
    → Lacks slash s
    → All IsNormal ms
    → (r ≡ true → k ≡ 0)
    → IsStack r (clean_step r (ms ++ replicate k dot_dot) s)
unfolding clean_step
clean_step-IsStack r ms k s l h z = elim (Bool-cases (str_eq s [] || str_eq s (dot ∷ []))) [
  | inl e ↦ rw e (record { kept = ms; ups = k; normal = h; same = refl; no_ups = z })
  | inr e ↦ rw e (elim (Bool-cases (str_eq s dot_dot)) [
    | inl d ↦ rw d (back_up-IsStack r ms k h z)
    | inr d ↦ rw d (record {
      kept = s ∷ ms;
      ups = k;
      normal = (
        record {
          not_empty = λ p. ground (arith, str_eq_iff s []);
          not_dot = λ p. ground (arith, str_eq_iff s (dot ∷ []));
          not_parent = λ p. ground (arith, str_eq_iff s dot_dot);
          no_slash = l;
        },
        h,
      );
      same = refl;
      no_ups = z;
    })
  ])
]

foldl-IsStack :
    (r : Bool) (ss st : List Str)
    → All (Lacks slash) ss
    → IsStack r st
    → IsStack r (foldl (clean_step r) st ss)
foldl-IsStack r [] st h v = v
foldl-IsStack r (s ∷ ss) st (l, h) v =
    foldl-IsStack r ss (clean_step r st s) h
      (rw v.same (clean_step-IsStack r v.kept v.ups s l v.normal v.no_ups))

-- What path.Clean keeps: some ".." (none of a rooted path), and normal segments behind them.
pub record IsCleaned (r : Bool) (ss : List Str) : Type 0 where
  pub ups : ℕ
  pub kept : List Str
  pub normal : All IsNormal kept
  pub same : ss ≡ replicate ups dot_dot ++ kept
  pub no_ups : r ≡ true → ups ≡ 0

replicate-snoc : (k : ℕ) → replicate k dot_dot ++ (dot_dot ∷ []) ≡ dot_dot ∷ replicate k dot_dot
replicate-snoc zero = refl
replicate-snoc (suc k) = ap (λ x. dot_dot ∷ x) (replicate-snoc k)

reverse-replicate : (k : ℕ) → reverse (replicate k dot_dot) ≡ replicate k dot_dot
reverse-replicate zero = refl
reverse-replicate (suc k) =
    reverse-append (dot_dot ∷ []) (replicate k dot_dot)
    ∙ ap (λ x. x ++ (dot_dot ∷ [])) (reverse-replicate k)
    ∙ replicate-snoc k

pub kept_segments-IsCleaned : (s : Str) → IsCleaned (is_rooted s) (kept_segments s)
unfolding kept_segments
kept_segments-IsCleaned s =
    let v =
      foldl-IsStack (is_rooted s) (split slash s) [] (split-Lacks slash s)
        (record { kept = []; ups = 0; normal = tt; same = refl; no_ups = λ _. refl }) in
    record {
      ups = v.ups;
      kept = reverse v.kept;
      normal = All-reverse IsNormal v.kept v.normal;
      same =
          ap reverse v.same
          ∙ reverse-append v.kept (replicate v.ups dot_dot)
          ∙ ap (λ x. x ++ reverse v.kept) (reverse-replicate v.ups);
      no_ups = v.no_ups;
    }
