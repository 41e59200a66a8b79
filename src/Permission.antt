-- ===== src/Permission.antt =====
-- common/types/db.go and common/utils/permission_resolver.go: path permissions, their order of
-- priority, and how a list of them is resolved to one set of permission bits.
pub mod Priority
pub mod Granted
pub mod Sorting
pub mod Resolve
mod Examples
use solocoder_6069_go_drive.Common.{
  ℕ, ◌+◌, ◌%◌, Bool, true, false, not, ◌&&◌, ◌||◌, List, [], ◌∷◌, ltb, ◌==◌, if◌then◌else◌, Str,
  codes, str_eq, has_prefix, bit_and, bit_or, and_not,
}

-- PermissionEmpty, PermissionRead, PermissionWrite, PermissionReadWrite
abbrev pub permission_empty : ℕ
permission_empty = 0

abbrev pub permission_read : ℕ
permission_read = 1

abbrev pub permission_write : ℕ
permission_write = 2

abbrev pub permission_read_write : ℕ
permission_read_write = 3

-- Permission.Readable, Permission.Writable
unfoldable pub readable : ℕ → Bool
readable p = bit_and p permission_read == permission_read

unfoldable pub writable : ℕ → Bool
writable p = bit_and p permission_write == permission_write

-- PolicyReject, PolicyAccept
abbrev pub policy_reject : ℕ
policy_reject = 0

abbrev pub policy_accept : ℕ
policy_accept = 1

-- AnySubject, UserSubject, GroupSubject
abbrev pub any_subject : Str
any_subject = codes "ANY"

unfoldable pub user_subject : Str → Str
user_subject name = b'u' ∷ b':' ∷ name

unfoldable pub group_subject : Str → Str
group_subject name = b'g' ∷ b':' ∷ name

-- PathPermission; the row's ID plays no part.
pub record PathPermission : Type 0 where
  pub path : Str
  pub subject : Str
  pub permission : ℕ
  pub policy : ℕ

-- IsForAnonymous, IsForUser, IsAccept, IsReject
unfoldable pub is_for_anonymous : PathPermission → Bool
is_for_anonymous p = str_eq p.subject any_subject

unfoldable pub is_for_user : PathPermission → Bool
is_for_user p = has_prefix p.subject (b'u' ∷ b':' ∷ [])

unfoldable pub is_accept : PathPermission → Bool
is_accept p = p.policy == policy_accept

unfoldable pub is_reject : PathPermission → Bool
is_reject p = p.policy == policy_reject

-- The Go conversion int8(d), moved up by 128 so that the order of the int8 values is that of the
-- numbers: d wraps round at 128.
unfoldable pub to_int8 : ℕ → ℕ
to_int8 d = (d + 128) % 256

-- pathPermItem; `depth` is an int8, in the form of `to_int8`.
pub record PathPermItem : Type 0 where
  pub perm : PathPermission
  pub open perm use *
  pub depth : ℕ

-- pathPermissionLess
unfoldable pub path_permission_less : PathPermItem → PathPermItem → Bool
path_permission_less a b =
    if not (a.depth == b.depth)
    then ltb b.depth a.depth
    else if is_for_anonymous a.perm
    then (if is_for_anonymous b.perm then ltb a.policy b.policy else false)
    else if is_for_anonymous b.perm
    then true
    else if is_for_user a.perm
    then (if is_for_user b.perm then ltb a.policy b.policy else true)
    else if is_for_user b.perm
    then false
    else ltb a.policy b.policy

-- sort.Slice(items, pathPermissionLess). Go's sort is not stable: see `Permission.Resolve`, where
-- the result of the fold is the same for every sorted arrangement.
unfoldable pub insert_item : PathPermItem → List PathPermItem → List PathPermItem
insert_item x [] = x ∷ []
insert_item x (y ∷ ys) =
    let rest = insert_item x ys in if path_permission_less y x then y ∷ rest else x ∷ y ∷ ys

unfoldable pub sort_items : List PathPermItem → List PathPermItem
unfolding insert_item
sort_items [] = []
sort_items (x ∷ xs) = insert_item x (sort_items xs)

-- The loop of resolveAcceptedPermissions over the sorted items.
unfoldable pub resolve_loop : ℕ → ℕ → List PathPermItem → ℕ
resolve_loop accepted rejected [] = accepted
resolve_loop accepted rejected (x ∷ xs) =
    resolve_loop
      (if is_accept x.perm then bit_or accepted (and_not x.permission rejected) else accepted)
      (if is_reject x.perm then bit_or rejected x.permission else rejected) xs

-- resolveAcceptedPermissions
unfoldable pub resolve_accepted_permissions : List PathPermItem → ℕ
unfolding sort_items resolve_loop
resolve_accepted_permissions items =
    resolve_loop permission_empty permission_empty (sort_items items)
