-- ===== src/Permission/Sorting.antt =====
-- The sort by pathPermissionLess keeps the items and puts them in order.
use solocoder_6069_go_drive.Common.{
  In, sym, subst, ◌≡◌, ◌↔◌, false, arith, Bool-cases, inl, inr, List, [], ◌∷◌,
}
use solocoder_6069_go_drive.Permission.{PathPermItem, path_permission_less, insert_item, sort_items}
use solocoder_6069_go_drive.Permission.Priority.{Precedes, path_permission_less_iff}
use solocoder_6069_go_drive.Permission.Granted.{IsSorted}

-- The sort keeps the items and puts them in order.
insert_item-In :
    (x z : PathPermItem) (ys : List PathPermItem) → In z (insert_item x ys) ↔ In z (x ∷ ys)
unfolding insert_item
insert_item-In x z [] = (λ m. m, λ m. m)
insert_item-In x z (y ∷ ys) = elim (Bool-cases (path_permission_less y x)) [
  | inl e ↦ rw e (swap (insert_item-In x z ys))
  | inr e ↦ rw e (λ m. m, λ m. m)
]
  where
    swap : In z (insert_item x ys) ↔ In z (x ∷ ys) → In z (y ∷ insert_item x ys) ↔ In z (x ∷ y ∷ ys)
    swap p = (
      λ m. elim m [
        | inl e ↦ inr (inl e)
        | inr k ↦ elim (p.0 k) [ inl e ↦ inl e | inr k' ↦ inr (inr k') ]
      ],
      λ m. elim m [
        | inl e ↦ inr (p.1 (inl e))
        | inr k ↦ elim k [ inl e ↦ inl e | inr k' ↦ inr (p.1 (inr k')) ]
      ],
    )

pub sort_items-In : (z : PathPermItem) (xs : List PathPermItem) → In z (sort_items xs) ↔ In z xs
unfolding sort_items
sort_items-In z [] = (λ m. m, λ m. m)
sort_items-In z (x ∷ xs) =
    let p = sort_items-In z xs in
    let q = insert_item-In x z (sort_items xs) in
    (
      λ m. elim (q.0 m) [ inl e ↦ inl e | inr k ↦ inr (p.0 k) ],
      λ m. q.1 (elim m [ inl e ↦ inl e | inr k ↦ inr (p.1 k) ]),
    )

pub not-Precedes_trans :
    (a b c : PathPermItem) → ¬ (Precedes a b) → ¬ (Precedes b c) → ¬ (Precedes a c)
not-Precedes_trans a b c p q r = ground arith

pub Precedes-asymm : (a b : PathPermItem) → Precedes a b → ¬ (Precedes b a)
Precedes-asymm a b p q = ground arith

insert_item-IsSorted :
    (x : PathPermItem) (ys : List PathPermItem) → IsSorted ys → IsSorted (insert_item x ys)
unfolding insert_item
insert_item-IsSorted x [] s = (λ y m. absurd m, tt)
insert_item-IsSorted x (y ∷ ys) (later, s) = elim (Bool-cases (path_permission_less y x)) [
  | inl e ↦ rw e (
    λ z m. elim ((insert_item-In x z ys).0 m) [
      | inl k ↦
          subst (λ u. ¬ (Precedes u y)) (sym k)
            (Precedes-asymm y x ((path_permission_less_iff y x).0 e))
      | inr k ↦ later z k
    ],
    insert_item-IsSorted x ys s,
  )
  | inr e ↦ rw e (
    λ z m. elim m [
      | inl k ↦ subst (λ u. ¬ (Precedes u x)) (sym k) (not_before e)
      | inr k ↦ not-Precedes_trans z y x (later z k) (not_before e)
    ],
    (later, s),
  )
]
  where
    not_before : path_permission_less y x ≡ false → ¬ (Precedes y x)
    not_before e p = let q = (path_permission_less_iff y x).1 p in cc

pub sort_items-IsSorted : (xs : List PathPermItem) → IsSorted (sort_items xs)
unfolding sort_items
sort_items-IsSorted [] = tt
sort_items-IsSorted (x ∷ xs) = insert_item-IsSorted x (sort_items xs) (sort_items-IsSorted xs)
