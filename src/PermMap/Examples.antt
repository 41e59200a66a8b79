-- ===== src/PermMap/Examples.antt =====
-- The permission map's theorems at a concrete list of permissions, and tests of its functions.
use solocoder_6069_go_drive.Common.{
  str_eq, true, List, [], ◌∷◌, ◌≡◌, ◌↔◌, refl, Str, codes, none, some, arith, test_bit,
}
use solocoder_6069_go_drive.PathTree.{path_segments, child_of, put_child, child_or_new, node, nil}
use solocoder_6069_go_drive.Permission.{
  is_for_anonymous, is_for_user, path_permission_less, is_accept, is_reject,
}
use solocoder_6069_go_drive.Common.{and_not, str_eq}
use solocoder_6069_go_drive.Permission.{PathPermission}
use solocoder_6069_go_drive.Session.{Session, has_user_group, admin_user_group}
use solocoder_6069_go_drive.PermMap.{
  PermTree, new_perm_map, filter_subjects, filter_session, resolve_path, resolve_descendant,
}
use solocoder_6069_go_drive.PermMap.Access.{IsAllowed, resolve_path_iff}

-- Everybody may read; Ann may write her directory, where a later row took the others' right to read.
abbrev rows : List PathPermission
rows =
    record { path = []; subject = codes "ANY"; permission = 1; policy = 1 }
    ∷ record { path = codes "ann"; subject = codes "u:ann"; permission = 3; policy = 1 }
    ∷ record { path = codes "ann"; subject = codes "ANY"; permission = 1; policy = 1 }
    ∷ record { path = codes "/ann/"; subject = codes "ANY"; permission = 1; policy = 0 }
    ∷ []

abbrev ann_subjects : List Str
ann_subjects = codes "ANY" ∷ codes "u:ann" ∷ []

abbrev ann : Session
ann = record { user = record { username = codes "ann"; root_path = []; groups = [] }; props = [] }

abbrev bob : Session
bob = record {
  user = record { username = codes "bob"; root_path = []; groups = codes "staff" ∷ [] };
  props = [];
}

abbrev root : Session
root = record {
  user = record { username = codes "root"; root_path = []; groups = codes "admin" ∷ [] };
  props = [];
}

ann_writes : resolve_path (filter_session (new_perm_map rows) ann) (codes "ann/x") ≡ 3
unfolding resolve_path filter_session new_perm_map path_segments child_of put_child child_or_new
    is_for_anonymous is_for_user path_permission_less is_accept is_reject and_not
ann_writes = refl

bob_reads : resolve_path (filter_session (new_perm_map rows) bob) (codes "pub/x") ≡ 1
unfolding resolve_path filter_session new_perm_map path_segments child_of put_child child_or_new
    is_for_anonymous is_for_user path_permission_less is_accept is_reject and_not
bob_reads = refl

bob_shut_out : resolve_path (filter_session (new_perm_map rows) bob) (codes "ann/x") ≡ 0
unfolding resolve_path filter_session new_perm_map path_segments child_of put_child child_or_new
    is_for_anonymous is_for_user path_permission_less is_accept is_reject and_not
bob_shut_out = refl

descendant_of_root : resolve_descendant (filter_session (new_perm_map rows) bob) [] ≡ some 0
unfolding resolve_descendant filter_session new_perm_map path_segments child_of put_child
    child_or_new is_for_anonymous is_for_user path_permission_less is_accept is_reject and_not
descendant_of_root = refl

resolve_path_iff_example :
    (test_bit 1 (resolve_path (filter_subjects (new_perm_map rows) ann_subjects) (codes "ann/x"))
      ≡ true)
    ↔ IsAllowed 1 rows ann_subjects (codes "ann/x")
resolve_path_iff_example = resolve_path_iff 1 rows ann_subjects (codes "ann/x") (omega arith)

root_group : has_user_group admin_user_group root ≡ true
unfolding has_user_group str_eq
root_group = refl

abbrev ann_tree : PermTree
ann_tree = node [] none nil
