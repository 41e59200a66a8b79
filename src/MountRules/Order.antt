-- ===== src/MountRules/Order.antt =====
-- The exchange sort of the rules keeps the items and puts them in order of priority.
use solocoder_6069_go_drive.Common.{
  [], ◌∷◌, if◌then◌else◌, Str, str_eq, has_prefix, ◌≡◌, refl, arith,
}
use solocoder_6069_go_drive.Permission.{
  is_for_user, is_for_anonymous, PathPermItem, any_subject, path_permission_less,
}
use solocoder_6069_go_drive.MountRules.{MountPermItem, names_user, mount_perm_less}

-- The subject "u:" without a name counts as a group here.
unfoldable pub plain_subject : Str → Str
plain_subject s = if str_eq s (b'u' ∷ b':' ∷ []) then b'g' ∷ b':' ∷ [] else s

-- The item as one of the path permissions.
unfoldable pub as_perm_item : MountPermItem → PathPermItem
as_perm_item a = record {
  perm = record {
    path = a.rule.path;
    subject = plain_subject a.rule.subject;
    permission = a.rule.permission;
    policy = a.rule.policy;
  };
  depth = a.depth;
}

is_any_lem : (s : Str) → str_eq (plain_subject s) any_subject ≡ str_eq s any_subject
unfolding plain_subject str_eq
is_any_lem [] = refl
is_any_lem (a ∷ []) = ground arith
is_any_lem (a ∷ b ∷ []) = ground arith
is_any_lem (a ∷ b ∷ c ∷ s) = ground arith

names_user_lem : (s : Str) → has_prefix (plain_subject s) (b'u' ∷ b':' ∷ []) ≡ names_user s
unfolding plain_subject str_eq has_prefix names_user
names_user_lem [] = refl
names_user_lem (a ∷ []) = ground arith
names_user_lem (a ∷ b ∷ []) = ground arith
names_user_lem (a ∷ b ∷ c ∷ s) = ground arith

-- mountPermLess is pathPermissionLess of the items as path permissions.
pub mount_perm_less-as :
    (a b : MountPermItem)
    → mount_perm_less a b ≡ path_permission_less (as_perm_item a) (as_perm_item b)
unfolding mount_perm_less path_permission_less as_perm_item str_eq is_for_anonymous is_for_user
mount_perm_less-as a b =
    rw
      (
        is_any_lem a.rule.subject,
        is_any_lem b.rule.subject,
        names_user_lem a.rule.subject,
        names_user_lem b.rule.subject,
      )
      refl
