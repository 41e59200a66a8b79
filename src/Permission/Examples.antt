-- ===== src/Permission/Examples.antt =====
-- The resolution's theorems at a concrete list of items, and tests.
use solocoder_6069_go_drive.Common.{
  has_prefix, sym, inr, subst, inl, true, List, [], ◌∷◌, ◌≡◌, ◌↔◌, refl, codes, arith, In, test_bit,
  and_not, str_eq,
}
use solocoder_6069_go_drive.Permission.{
  PathPermItem, path_permission_less, resolve_accepted_permissions, resolve_loop, to_int8,
  is_accept, is_reject, is_for_anonymous, is_for_user,
}
use solocoder_6069_go_drive.Permission.Priority.{subject_class, Precedes}
use solocoder_6069_go_drive.Permission.Granted.{IsGranted, IsSorted}
use solocoder_6069_go_drive.Permission.Resolve.{
  resolve_accepted_permissions_iff, resolve_loop-sorted,
}

-- A group may read and write, and Ann may not write.
abbrev group_item : PathPermItem
group_item = record {
  perm = record { path = codes "a"; subject = codes "g:staff"; permission = 3; policy = 1 };
  depth = 129;
}

abbrev ann_item : PathPermItem
ann_item = record {
  perm = record { path = codes "a"; subject = codes "u:ann"; permission = 2; policy = 0 };
  depth = 129;
}

abbrev items : List PathPermItem
items = group_item ∷ ann_item ∷ []

reads_only : resolve_accepted_permissions items ≡ 1
unfolding resolve_accepted_permissions path_permission_less is_accept is_reject is_for_anonymous
    is_for_user and_not str_eq has_prefix
reads_only = refl

-- int8 wraps round: a path of depth 128 comes after the root.
deep_wraps : to_int8 128 ≡ 0
unfolding to_int8
deep_wraps = refl

resolve_accepted_permissions_iff_example :
    (test_bit 1 (resolve_accepted_permissions items) ≡ true) ↔ IsGranted 1 items
resolve_accepted_permissions_iff_example = resolve_accepted_permissions_iff 1 items (omega arith)

group_after_ann : ¬ (Precedes group_item ann_item)
unfolding subject_class is_for_anonymous is_for_user str_eq has_prefix
group_after_ann p = ground arith

sorted : IsSorted (ann_item ∷ group_item ∷ [])
sorted = (
  λ y m. elim m [
    | inl e ↦ subst (λ z. ¬ (Precedes z ann_item)) (sym e) group_after_ann
    | inr k ↦ absurd k
  ],
  (λ y m. absurd m, tt),
)

swapped : (z : PathPermItem) → In z (ann_item ∷ group_item ∷ []) ↔ In z items
swapped z = (
  λ m. elim m [ inl e ↦ inr (inl e) | inr k ↦ elim k [ inl e ↦ inl e | inr n ↦ absurd n ] ],
  λ m. elim m [ inl e ↦ inr (inl e) | inr k ↦ elim k [ inl e ↦ inl e | inr n ↦ absurd n ] ],
)

resolve_loop-sorted_example :
    test_bit 1 (resolve_loop 0 0 (ann_item ∷ group_item ∷ []))
    ≡ test_bit 1 (resolve_accepted_permissions items)
resolve_loop-sorted_example =
    resolve_loop-sorted 1 items (ann_item ∷ group_item ∷ []) (omega arith) sorted swapped
