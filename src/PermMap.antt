-- ===== src/PermMap.antt =====
-- common/utils/permission_resolver.go: PermMap, a path tree of permissions for each subject, and how
-- the permissions of a session on a path are resolved.
pub mod Effective
pub mod Filter
pub mod Access
mod Examples
use mathlib.Core.Option.{get_or}
use solocoder_6069_go_drive.Common.{
  ℕ, Bool, true, false, not, List, [], ◌∷◌, ◌++◌, foldl, map, if◌then◌else◌, Str, str_eq, Option,
  none, some,
}
use solocoder_6069_go_drive.Paths.{path_depth}
use solocoder_6069_go_drive.PathTree.{Node, new_node, add, get_cb, get, visit}
use solocoder_6069_go_drive.PathTree.Walk.{collect}
use solocoder_6069_go_drive.Permission.{
  PathPermission, PathPermItem, to_int8, any_subject, user_subject, group_subject,
  permission_read_write, policy_accept, resolve_accepted_permissions,
}
use solocoder_6069_go_drive.Session.{Session, is_anonymous, has_user_group, admin_user_group}

-- A tree whose nodes hold an item or nil.
abbrev pub PermTree : Type 0
PermTree = Node (Option PathPermItem)

-- PermMap: subject to tree, as a list without repeated subjects.
abbrev pub PermMap : Type 0
PermMap = List (Str × PermTree)

-- sp, ok := pm[subject]
unfoldable pub find_tree : Str → PermMap → Option PermTree
find_tree s [] = none
find_tree s ((j, t) ∷ pm) = if str_eq j s then some t else find_tree s pm

-- pm[subject] = sp
unfoldable pub put_tree : Str → PermTree → PermMap → PermMap
put_tree s t [] = (s, t) ∷ []
put_tree s t ((j, u) ∷ pm) =
    let rest = put_tree s t pm in if str_eq j s then (s, t) ∷ pm else (j, u) ∷ rest

-- &pathPermItem{PathPermission: p, depth: int8(PathDepth(*p.Path))}
unfoldable pub perm_item : PathPermission → PathPermItem
unfolding to_int8 path_depth
perm_item p = record { perm = p; depth = to_int8 (path_depth p.path) }

-- The tree that a round of NewPermMap adds to: the subject's, or a new one.
unfoldable pub tree_or_new : Option PermTree → PermTree
unfolding new_node
tree_or_new none = new_node none []
tree_or_new (some t) = t

-- A round of the loop of NewPermMap.
unfoldable pub add_permission : PermMap → PathPermission → PermMap
unfolding find_tree put_tree perm_item tree_or_new add
add_permission pm p =
    put_tree p.subject (add none p.path (some (perm_item p)) (tree_or_new (find_tree p.subject pm)))
      pm

-- NewPermMap
unfoldable pub new_perm_map : List PathPermission → PermMap
unfolding add_permission
new_perm_map permissions = foldl add_permission [] permissions

-- result[s] = sp, where the map has the subject
unfoldable pub keep_tree : Str → Option PermTree → PermMap → PermMap
unfolding put_tree
keep_tree s none result = result
keep_tree s (some t) result = put_tree s t result

-- The loop of PermMap.filter.
unfoldable pub filter_loop : PermMap → PermMap → List Str → PermMap
unfolding keep_tree find_tree
filter_loop pm result [] = result
filter_loop pm result (s ∷ ss) = filter_loop pm (keep_tree s (find_tree s pm) result) ss

-- PermMap.filter
unfoldable pub filter_subjects : PermMap → List Str → PermMap
unfolding filter_loop
filter_subjects pm subjects = filter_loop pm [] subjects

-- makeSubjects
unfoldable pub make_subjects : Session → List Str
unfolding is_anonymous user_subject group_subject
make_subjects s =
    any_subject
    ∷ (if not (is_anonymous s)
        then user_subject s.user.username ∷ map group_subject s.user.groups
        else [])

-- The one permission of privilegedPermMap.
abbrev pub root_permission : PathPermission
root_permission = record {
  path = [];
  subject = any_subject;
  permission = permission_read_write;
  policy = policy_accept;
}

-- privilegedPermMap
unfoldable pub privileged_perm_map : PermMap
unfolding new_perm_map
privileged_perm_map = new_perm_map (root_permission ∷ [])

-- PermMap.Filter
unfoldable pub filter_session : PermMap → Session → PermMap
unfolding has_user_group filter_subjects make_subjects privileged_perm_map
filter_session pm s =
    if has_user_group admin_user_group s
    then privileged_perm_map
    else filter_subjects pm (make_subjects s)

-- The items that ResolvePath collects.
unfoldable pub items_on_path : Str → PermMap → List PathPermItem
unfolding get_cb collect
items_on_path path [] = []
items_on_path path ((s, t) ∷ pm) = collect (get_cb path t).0 ++ items_on_path path pm

-- ResolvePath
unfoldable pub resolve_path : PermMap → Str → ℕ
unfolding items_on_path resolve_accepted_permissions
resolve_path pm path = resolve_accepted_permissions (items_on_path path pm)

-- The items below a node that Get found.
unfoldable pub items_below : Option (PermTree × Option PermTree) → List PathPermItem
unfolding visit collect
items_below none = []
items_below (some (n, parent)) = collect (visit n)

unfoldable pub items_under_path : Str → PermMap → List PathPermItem
unfolding get items_below
items_under_path path [] = []
items_under_path path ((s, t) ∷ pm) = items_below (get path t) ++ items_under_path path pm

unfoldable pub resolve_items : List PathPermItem → Option ℕ
unfolding resolve_accepted_permissions
resolve_items [] = none
resolve_items (x ∷ xs) = some (resolve_accepted_permissions (x ∷ xs))

-- ResolveDescendant; `none` is the result (0, false).
unfoldable pub resolve_descendant : PermMap → Str → Option ℕ
unfolding items_under_path resolve_items
resolve_descendant pm path = resolve_items (items_under_path path pm)
