-- ===== src/MountRules/Examples.antt =====
-- The rules of a mount at concrete rows.
use solocoder_6069_go_drive.Common.{
  ℕ, true, List, [], ◌∷◌, ◌≡◌, refl, Str, codes, str_eq, map, test_bit, arith,
}
use solocoder_6069_go_drive.Common.{and_not}
use solocoder_6069_go_drive.PathTree.{path_segments, child_of, put_child, child_or_new}
use solocoder_6069_go_drive.Paths.{path_parent}
use solocoder_6069_go_drive.Permission.{any_subject, resolve_accepted_permissions}
use solocoder_6069_go_drive.MountRules.{
  PathMountRule, MountPermItem, mount_perm_less, effective, resolve_mount_permissions,
}
use solocoder_6069_go_drive.MountRules.Order.{as_perm_item}
use solocoder_6069_go_drive.MountRules.Resolve.{resolve_mount_permissions_agrees}
use solocoder_6069_go_drive.MountRules.Tree.{IsDeep}

abbrev rule : Str → ℕ → ℕ → PathMountRule
rule path permission policy = record {
  path = path;
  subject = any_subject;
  permission = permission;
  policy = policy;
  inherits = true;
}

abbrev two_rules : List PathMountRule
two_rules = rule [] 3 1 ∷ rule (codes "a") 2 0 ∷ []

resolves_below : effective two_rules (codes "a/b") (any_subject ∷ []) ≡ 1
unfolding effective str_eq path_segments child_of put_child child_or_new mount_perm_less and_not
resolves_below = refl

abbrev two_items : List MountPermItem
two_items =
    record { rule = rule [] 3 1; depth = 128 }
    ∷ record { rule = rule (codes "a") 2 0; depth = 129 }
    ∷ []

resolve_mount_permissions_agrees_example :
    test_bit 1 (resolve_mount_permissions two_items)
    ≡ test_bit 1 (resolve_accepted_permissions (map as_perm_item two_items))
resolve_mount_permissions_agrees_example =
    resolve_mount_permissions_agrees 1 two_items (omega arith)

parent_of_deep : path_parent (codes "a/b") ≡ codes "a"
unfolding path_parent
parent_of_deep = refl

a_b-IsDeep : IsDeep (codes "a/b")
a_b-IsDeep = (λ e. cc, λ e. cc (parent_of_deep))
