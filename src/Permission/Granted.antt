-- ===== src/Permission/Granted.antt =====
-- What it means that a list of items grants a permission bit, and what the loop of
-- resolveAcceptedPermissions does with a sorted list.
use mathlib.Core.Bool.{◌&&◌, ◌||◌}
use solocoder_6069_go_drive.Common.{
  In, subst, ℕ, ◌<◌, ◌≡◌, true, false, arith, if◌then◌else◌, refl, Bool-cases, inl, inr, Bool, List,
  [], ◌∷◌, test_bit, test_bit-or, test_bit-and_not, bit_or, and_not, not, ◌∙◌,
}
use solocoder_6069_go_drive.Permission.{
  PathPermItem, PathPermission, is_accept, is_reject, resolve_loop,
}
use solocoder_6069_go_drive.Permission.Priority.{Precedes}

-- The item accepts, or rejects, bit i.
abbrev pub Accepts : ℕ → PathPermItem → Type 0
Accepts i x = (is_accept x.perm ≡ true) × (test_bit i x.permission ≡ true)

abbrev pub Rejects : ℕ → PathPermItem → Type 0
Rejects i x = (is_reject x.perm ≡ true) × (test_bit i x.permission ≡ true)

-- Some item accepts the bit, and has the higher priority than every item that rejects it.
pub record IsGranted (i : ℕ) (items : List PathPermItem) : Type 0 where
  pub item : PathPermItem
  pub here : In item items
  pub accepts : Accepts i item
  pub first : (y : PathPermItem) → In y items → Rejects i y → Precedes item y

-- What the first item decides that says anything of bit i.
pub first_wins : ℕ → List PathPermItem → Bool
first_wins i [] = false
first_wins i (x ∷ xs) =
    let rest = first_wins i xs in
    if test_bit i x.permission
    then (if is_accept x.perm then true else if is_reject x.perm then false else rest)
    else rest

pub loop-first_wins :
    (i a r : ℕ) (xs : List PathPermItem)
    → i < 8
    → test_bit i (resolve_loop a r xs) ≡ (test_bit i a || (not (test_bit i r) && first_wins i xs))
unfolding resolve_loop first_wins
loop-first_wins i a r [] h = ground arith
loop-first_wins i a r (x ∷ xs) h =
    loop-first_wins i (if is_accept x.perm then bit_or a (and_not x.permission r) else a)
      (if is_reject x.perm then bit_or r x.permission else r) xs h
    ∙ step
  where
    step :
        (test_bit i (if is_accept x.perm then bit_or a (and_not x.permission r) else a)
          || (not (test_bit i (if is_reject x.perm then bit_or r x.permission else r))
              && first_wins i xs))
        ≡ (test_bit i a || (not (test_bit i r) && first_wins i (x ∷ xs)))
    step =
        unfold is_accept is_reject in
        ground (
          arith,
          test_bit-or i a (and_not x.permission r),
          test_bit-and_not i x.permission r h,
          test_bit-or i r x.permission,
        )

-- No later item has the higher priority.
abbrev pub IsSorted : List PathPermItem → Type 0
IsSorted [] = Unit
IsSorted (x ∷ xs) = ((y : PathPermItem) → In y xs → ¬ (Precedes y x)) × IsSorted xs

accept_or_reject : (p : PathPermission) → is_accept p ≡ true → is_reject p ≡ true → ⊥
unfolding is_accept is_reject
accept_or_reject p a r = ground arith

Precedes-of :
    (i : ℕ) (x y : PathPermItem) → Accepts i x → Rejects i y → ¬ (Precedes y x) → Precedes x y
unfolding is_accept is_reject
Precedes-of i x y a r h = ground arith

pub first_wins-IsGranted :
    (i : ℕ) (xs : List PathPermItem) → IsSorted xs → first_wins i xs ≡ true → IsGranted i xs
unfolding first_wins
first_wins-IsGranted i [] s h = cc
first_wins-IsGranted i (x ∷ xs) (later, s) h = elim (Bool-cases (test_bit i x.permission)) [
  | inl b ↦ elim (Bool-cases (is_accept x.perm)) [
    | inl a ↦ record {
      item = x;
      here = inl refl;
      accepts = (a, b);
      first = λ y m r. elim m [
        | inl e ↦ absurd (accept_or_reject x.perm a (subst (λ z. is_reject z.perm ≡ true) e r.0))
        | inr m' ↦ Precedes-of i x y (a, b) r (later y m')
      ];
    }
    | inr a ↦ elim (Bool-cases (is_reject x.perm)) [
      | inl r ↦ absurd (false_true (rw (b, a, r) at h))
      | inr r ↦ skip (λ y. no_reject y r) (first_wins-IsGranted i xs s (rw (b, a, r) at h))
    ]
  ]
  | inr b ↦ skip (λ y. no_bit y b) (first_wins-IsGranted i xs s (rw b at h))
]
  where
    false_true : false ≡ true → ⊥
    false_true e = cc

    no_reject : (y : PathPermItem) → is_reject x.perm ≡ false → y ≡ x → ¬ (Rejects i y)
    no_reject y r e h = ground arith

    no_bit : (y : PathPermItem) → test_bit i x.permission ≡ false → y ≡ x → ¬ (Rejects i y)
    no_bit y r e h = ground arith

    skip : ((y : PathPermItem) → y ≡ x → ¬ (Rejects i y)) → IsGranted i xs → IsGranted i (x ∷ xs)
    skip none g = record {
      item = g.item;
      here = inr g.here;
      accepts = g.accepts;
      first = λ y m r. elim m [ inl e ↦ absurd (none y e r) | inr m' ↦ g.first y m' r ];
    }

pub IsGranted-first_wins :
    (i : ℕ) (xs : List PathPermItem) → IsSorted xs → IsGranted i xs → first_wins i xs ≡ true
unfolding first_wins
IsGranted-first_wins i [] s g = absurd g.here
IsGranted-first_wins i (x ∷ xs) (later, s) g = elim g.here [
  | inl e ↦
      let a : is_accept x.perm ≡ true = subst (λ z. is_accept z.perm ≡ true) e g.accepts.0 in
      let b : test_bit i x.permission ≡ true =
        subst (λ z. test_bit i z.permission ≡ true) e g.accepts.1 in
      rw (b, a)
  | inr m ↦
      let rest = IsGranted-first_wins i xs s (record {
        item = g.item;
        here = m;
        accepts = g.accepts;
        first = λ y k r. g.first y (inr k) r;
      }) in
      elim (Bool-cases (test_bit i x.permission)) [
        | inl b ↦ elim (Bool-cases (is_accept x.perm)) [
          | inl a ↦ rw (b, a)
          | inr a ↦ elim (Bool-cases (is_reject x.perm)) [
            | inl r ↦ absurd (later g.item m (g.first x (inl refl) (r, b)))
            | inr r ↦ rw (b, a, r) rest
          ]
        ]
        | inr b ↦ rw b rest
      ]
]
