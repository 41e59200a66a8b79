-- ===== src/Permission/Priority.antt =====
-- pathPermissionLess is the lexicographic order of three numbers: deeper paths first, then users,
-- then groups, then everybody, and reject before accept.
use solocoder_6069_go_drive.Common.{ℕ, ◌<◌, ◌≡◌, ◌⊎◌, ◌↔◌, true, arith, if◌then◌else◌}
use solocoder_6069_go_drive.Permission.{
  PathPermItem, PathPermission, is_for_anonymous, is_for_user, path_permission_less,
}

-- 0 for a user, 1 for a group, 2 for everybody
unfoldable pub subject_class : PathPermission → ℕ
subject_class p = if is_for_anonymous p then 2 else if is_for_user p then 0 else 1

-- `a` has the higher priority.
abbrev pub Precedes : PathPermItem → PathPermItem → Type 0
Precedes a b =
    (b.depth < a.depth)
    ⊎ ((a.depth ≡ b.depth) × (subject_class a.perm < subject_class b.perm))
    ⊎ ((a.depth ≡ b.depth) × (subject_class a.perm ≡ subject_class b.perm) × (a.policy < b.policy))

-- pathPermissionLess decides Precedes.
pub path_permission_less_iff :
    (a b : PathPermItem) → (path_permission_less a b ≡ true) ↔ Precedes a b
unfolding path_permission_less subject_class
path_permission_less_iff a b = (λ h. ground arith, λ h. ground arith)
