-- ===== src/MountRules.antt =====
-- storage/path_mount_rule.go and server/mount_permission/service.go: the permission rules of a mounted
-- drive. Both files have the same resolution and the same tree; the rows of the database are a
-- parameter.
pub mod Order
pub mod Resolve
pub mod Tree
mod Examples
use mathlib.Core.Option.{get_or}
use solocoder_6069_go_drive.Common.{
  and_not, ℕ, zero, suc, Bool, true, false, not, ◌&&◌, ◌||◌, List, [], ◌∷◌, ◌++◌, length, take, ltb,
  ◌==◌, if◌then◌else◌, Str, str_eq, Option, none, some, bit_or, map_get, map_set, foldl,
}
use solocoder_6069_go_drive.Errors.{Result, ok, err, ◌>>=◌}
use solocoder_6069_go_drive.Paths.{path_depth, path_parent}
use solocoder_6069_go_drive.PathTree.{Node, new_node, add, get_cb}
use solocoder_6069_go_drive.PathTree.Walk.{collect}
use solocoder_6069_go_drive.Permission.{
  to_int8, any_subject, policy_accept, policy_reject, permission_empty,
}

-- PathMountRule; the row's ID and its times play no part.
pub record PathMountRule : Type 0 where
  pub path : Str
  pub subject : Str
  pub permission : ℕ
  pub policy : ℕ
  pub inherits : Bool

-- mountPermItem
pub record MountPermItem : Type 0 where
  pub rule : PathMountRule
  pub depth : ℕ

-- len(subject) > 2 && subject[:2] == "u:"
unfoldable pub names_user : Str → Bool
names_user s = ltb 2 (length s) && str_eq (take 2 s) (b'u' ∷ b':' ∷ [])

unfoldable pub is_any : MountPermItem → Bool
is_any a = str_eq a.rule.subject any_subject

unfoldable pub is_user : MountPermItem → Bool
unfolding names_user
is_user a = names_user a.rule.subject

-- mountPermLess
unfoldable pub mount_perm_less : MountPermItem → MountPermItem → Bool
unfolding is_any is_user
mount_perm_less a b =
    if not (a.depth == b.depth)
    then ltb b.depth a.depth
    else if is_any a
    then (if is_any b then ltb a.rule.policy b.rule.policy else false)
    else if is_any b
    then true
    else if is_user a
    then (if is_user b then ltb a.rule.policy b.rule.policy else true)
    else if is_user b
    then false
    else ltb a.rule.policy b.rule.policy

-- The inner loop of sortMountPermItems: x stands at i, and changes places with each item behind it
-- that it does not come before. The result is what stands at i, and the rest.
unfoldable pub exchange_pass :
    MountPermItem → List MountPermItem → MountPermItem × List MountPermItem
exchange_pass x [] = (x, [])
exchange_pass x (y ∷ ys) =
    let rest = exchange_pass (if mount_perm_less x y then x else y) ys in
    (rest.0, (if mount_perm_less x y then y else x) ∷ rest.1)

-- The outer loop, with the number of rounds.
unfoldable pub exchange_rounds : ℕ → List MountPermItem → List MountPermItem
unfolding exchange_pass
exchange_rounds zero xs = xs
exchange_rounds (suc n) [] = []
exchange_rounds (suc n) (x ∷ xs) = let r = exchange_pass x xs in r.0 ∷ exchange_rounds n r.1

-- sortMountPermItems
unfoldable pub sort_mount_perm_items : List MountPermItem → List MountPermItem
unfolding exchange_rounds
sort_mount_perm_items xs = exchange_rounds (length xs) xs

-- The loop of resolveMountPermissions.
unfoldable pub mount_loop : ℕ → ℕ → List MountPermItem → ℕ
mount_loop accepted rejected [] = accepted
mount_loop accepted rejected (x ∷ xs) =
    mount_loop
      (if x.rule.policy == policy_accept
        then bit_or accepted (and_not x.rule.permission rejected)
        else accepted)
      (if x.rule.policy == policy_reject then bit_or rejected x.rule.permission else rejected) xs

-- resolveMountPermissions
unfoldable pub resolve_mount_permissions : List MountPermItem → ℕ
unfolding sort_mount_perm_items mount_loop
resolve_mount_permissions items =
    mount_loop permission_empty permission_empty (sort_mount_perm_items items)

-- subjectMap[r.Subject]
unfoldable pub has_subject : Str → List Str → Bool
has_subject s [] = false
has_subject s (t ∷ ts) = str_eq t s || has_subject s ts

abbrev pub MountTree : Type 0
MountTree = Node (Option MountPermItem)

abbrev pub MountMap : Type 0
MountMap = List (Str × MountTree)

-- &mountPermItem{PathMountRule: r, depth: int8(PathDepth(r.Path))}
unfoldable pub mount_item : PathMountRule → MountPermItem
unfolding to_int8 path_depth
mount_item r = record { rule = r; depth = to_int8 (path_depth r.path) }

-- A round of the loop over the rules.
unfoldable pub add_rule : List Str → MountMap → PathMountRule → MountMap
unfolding mount_item add map_get map_set new_node has_subject
add_rule subjects m r =
    if not (has_subject r.subject subjects)
    then m
    else map_set r.subject
        (add none r.path (some (mount_item r)) (get_or (map_get r.subject m) (new_node none []))) m

-- n.Data != nil && n.Data.Inherits
unfoldable pub keep_inheriting : List MountPermItem → List MountPermItem
keep_inheriting [] = []
keep_inheriting (x ∷ xs) =
    let rest = keep_inheriting xs in if x.rule.inherits then x ∷ rest else rest

-- The items that are collected on the way to the path.
unfoldable pub mount_items : Str → MountMap → List MountPermItem
unfolding get_cb collect keep_inheriting
mount_items path [] = []
mount_items path ((s, t) ∷ m) = keep_inheriting (collect (get_cb path t).0) ++ mount_items path m

-- GetEffectivePermissions, of the drive's rules
unfoldable pub effective : List PathMountRule → Str → List Str → ℕ
unfolding add_rule mount_items resolve_mount_permissions
effective rules path subjects =
    resolve_mount_permissions (mount_items path (foldl (add_rule subjects) [] rules))

-- GetEffectivePermissions
unfoldable pub get_effective_permissions : Result (List PathMountRule) → Str → List Str → Result ℕ
unfolding effective
get_effective_permissions rows path subjects =
    rows >>= (λ rules. ok (effective rules path subjects))

-- MountPermissionNode, where a child is given by its path: the map has one node for a path, and the
-- pointers to it see what is added later.
pub record MountPermissionNode : Type 0 where
  pub permissions : List PathMountRule
  pub children : List Str

abbrev pub NodeMap : Type 0
NodeMap = List (Str × MountPermissionNode)

abbrev pub empty_node : MountPermissionNode
empty_node = record { permissions = []; children = [] }

-- The node of a path, made and put in the map when there is none.
unfoldable pub node_or_new : Str → NodeMap → MountPermissionNode
unfolding map_get
node_or_new path m = get_or (map_get path m) empty_node

-- The part of a round for a path that is not in the map: its node, and the link from the parent's.
unfoldable pub link_node : Str → NodeMap → NodeMap
unfolding map_set node_or_new path_parent
link_node path m =
    let made = map_set path empty_node m in
    let parent = node_or_new (path_parent path) made in
    map_set (path_parent path) (record parent { children = parent.children ++ (path ∷ []) }) made

unfoldable pub linked : Str → Option MountPermissionNode → NodeMap → NodeMap
unfolding link_node
linked path none m = link_node path m
linked path (some n) m = m

-- node.Permissions = append(node.Permissions, rule)
unfoldable pub append_rule : PathMountRule → NodeMap → NodeMap
unfolding map_set node_or_new
append_rule r m =
    let node = node_or_new r.path m in
    map_set r.path (record node { permissions = node.permissions ++ (r ∷ []) }) m

-- A round of GetTree.
unfoldable pub tree_round : NodeMap → PathMountRule → NodeMap
unfolding linked append_rule map_get
tree_round m r = append_rule r (linked r.path (map_get r.path m) m)

-- GetTree: the nodes, of which the one of the empty path is the result.
unfoldable pub get_tree : List PathMountRule → NodeMap
unfolding tree_round
get_tree rules = foldl tree_round (([], empty_node) ∷ []) rules
