-- ===== src/Common/Text/Split.antt =====
-- `strings.Split` and `strings.Join` undo one another.
use mathlib.Core.Path.{◌≡◌, refl, ap, sym, ◌∙◌}
use mathlib.Core.Logic.{◌≢◌, inl, inr}
use mathlib.Core.List.{List, [], ◌∷◌, ◌++◌, cons-ne-nil, append_assoc}
use Prim.Native.Nat.{ℕ}
use native.Mathlib.Omega.{arith}
use solocoder_6069_go_drive.Common.Tests.{◌==◌, ==_iff, Bool-cases}
use solocoder_6069_go_drive.Common.Lists.{All}
use solocoder_6069_go_drive.Common.Text.Base.{Str, Lacks, cons_head, split, join}

module _ (sep : ℕ) where
  pub cons_head-ne-nil : (c : ℕ) (ps : List Str) → cons_head c ps ≢ []
  unfolding cons_head
  cons_head-ne-nil c [] = cons-ne-nil _ _
  cons_head-ne-nil c (p ∷ ps) = cons-ne-nil _ _

  pub split-ne-nil : (s : Str) → split sep s ≢ []
  unfolding split
  split-ne-nil [] = cons-ne-nil _ _
  split-ne-nil (c ∷ s) = elim (Bool-cases (c == sep)) [
    | inl e ↦ rw e (cons-ne-nil _ _)
    | inr e ↦ rw e (cons_head-ne-nil c (split sep s))
  ]

  pub join-cons : (p : Str) (ps : List Str) → ps ≢ [] → join sep (p ∷ ps) ≡ p ++ (sep ∷ join sep ps)
  unfolding join
  join-cons p [] h = absurd (h refl)
  join-cons p (q ∷ ps) h = refl

  join-cons_head : (c : ℕ) (ps : List Str) → ps ≢ [] → join sep (cons_head c ps) ≡ c ∷ join sep ps
  unfolding join cons_head
  join-cons_head c [] h = absurd (h refl)
  join-cons_head c (p ∷ []) h = refl
  join-cons_head c (p ∷ q ∷ ps) h = refl

  pub join-split : (s : Str) → join sep (split sep s) ≡ s
  unfolding split
  join-split [] = unfold join in refl
  join-split (c ∷ s) = elim (Bool-cases (c == sep)) [
    | inl e ↦
        rw (e, join-cons [] (split sep s) (split-ne-nil s), join-split s)
          (ap (λ x. x ∷ s) (sym ((==_iff c sep).0 e)))
    | inr e ↦ rw (e, join-cons_head c (split sep s) (split-ne-nil s), join-split s)
  ]

  cons_head-Lacks :
      (c : ℕ) (ps : List Str) → c ≢ sep → All (Lacks sep) ps → All (Lacks sep) (cons_head c ps)
  unfolding cons_head
  cons_head-Lacks c [] h _ = ((h, tt), tt)
  cons_head-Lacks c (p ∷ ps) h (hp, hps) = ((h, hp), hps)

  -- No part of a split holds the separator.
  pub split-Lacks : (s : Str) → All (Lacks sep) (split sep s)
  unfolding split
  split-Lacks [] = (tt, tt)
  split-Lacks (c ∷ s) = elim (Bool-cases (c == sep)) [
    | inl e ↦ rw e (tt, split-Lacks s)
    | inr e ↦ rw e (cons_head-Lacks c (split sep s) (ground arith) (split-Lacks s))
  ]

  pub split-single : (s : Str) → Lacks sep s → split sep s ≡ s ∷ []
  unfolding split cons_head
  split-single [] h = refl
  split-single (c ∷ s) h = ground (arith, split-single s h.1)

  pub split-append : (p s : Str) → Lacks sep p → split sep (p ++ (sep ∷ s)) ≡ p ∷ split sep s
  unfolding split cons_head
  split-append [] s h = ground arith
  split-append (c ∷ p) s h = ground (arith, split-append p s h.1)

  pub split-join : (ps : List Str) → ps ≢ [] → All (Lacks sep) ps → split sep (join sep ps) ≡ ps
  unfolding join
  split-join [] h _ = absurd (h refl)
  split-join (p ∷ []) h l = split-single p l.0
  split-join (p ∷ q ∷ ps) h l =
      split-append p (join sep (q ∷ ps)) l.0
      ∙ ap (λ x. p ∷ x) (split-join (q ∷ ps) (cons-ne-nil _ _) l.1)

  pub join-append :
      (ps qs : List Str)
      → ps ≢ []
      → qs ≢ []
      → join sep (ps ++ qs) ≡ join sep ps ++ (sep ∷ join sep qs)
  join-append [] qs h k = absurd (h refl)
  join-append (p ∷ []) qs h k = unfold join in join-cons p qs k
  join-append (p ∷ q ∷ ps) qs h k = simp (
    join-cons p ((q ∷ ps) ++ qs) (cons-ne-nil _ _),
    join-cons p (q ∷ ps) (cons-ne-nil _ _),
    join-append (q ∷ ps) qs (cons-ne-nil _ _) k,
    append_assoc,
  )
