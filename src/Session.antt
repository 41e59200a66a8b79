-- ===== src/Session.antt =====
-- common/types/server.go: the session of a request, and its user.
use solocoder_6069_go_drive.Common.{
  if◌then◌else◌, Bool, false, ◌||◌, List, [], ◌∷◌, Str, codes, str_eq,
}

-- User, with its groups' names.
pub record User : Type 0 where
  pub username : Str
  pub root_path : Str
  pub groups : List Str

-- Session; the map of properties as a list of pairs.
pub record Session : Type 0 where
  pub user : User
  pub props : List (Str × Str)

-- AdminUserGroup
abbrev pub admin_user_group : Str
admin_user_group = codes "admin"

-- Session.IsAnonymous
unfoldable pub is_anonymous : Session → Bool
is_anonymous s = str_eq s.user.username []

unfoldable pub any_group : Str → List Str → Bool
any_group g [] = false
any_group g (r ∷ rs) = str_eq r g || any_group g rs

-- Session.HasUserGroup
unfoldable pub has_user_group : Str → Session → Bool
unfolding any_group
has_user_group g s = any_group g s.user.groups

-- s.Props[key], empty when there is none
unfoldable pub get_prop : Str → List (Str × Str) → Str
get_prop key [] = []
get_prop key ((k, v) ∷ props) = if str_eq k key then v else get_prop key props
