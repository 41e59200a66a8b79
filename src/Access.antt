-- ===== src/Access.antt =====
-- drive/access.go: the drive that a session is given. Reloading the permissions builds a new PermMap
-- (PermMap.new_perm_map) from the rows of the database.
pub mod Compose
mod Examples
use solocoder_6069_go_drive.Common.{List, [], ◌∷◌, if◌then◌else◌, Str, Option, none, some}
use solocoder_6069_go_drive.Errors.{Result, ok, err, ◌>>=◌}
use solocoder_6069_go_drive.Drive.{Drive}
use solocoder_6069_go_drive.Session.{Session, is_anonymous, has_user_group, admin_user_group}
use solocoder_6069_go_drive.PermMap.{PermMap, filter_session}
use solocoder_6069_go_drive.Chroot.{Chroot, new_chroot}
use solocoder_6069_go_drive.ChrootDrive.{chroot_drive}
use solocoder_6069_go_drive.ListenerDrive.{Event, listener_drive}
use solocoder_6069_go_drive.PermissionDrive.{permission_drive}
use solocoder_6069_go_drive.PathMeta.{PathMeta, path_meta_drive}

-- The end of GetChroot: no chroot for an empty root path.
unfoldable pub chroot_at : Str → Option Chroot
unfolding new_chroot
chroot_at [] = none
chroot_at (c ∷ root_path) = some (new_chroot (c ∷ root_path) [])

-- GetChroot; the option anonymous.rootPath is a parameter.
unfoldable pub get_chroot : Result Str → Session → Result (Option Chroot)
unfolding chroot_at has_user_group is_anonymous
get_chroot anonymous_root s =
    if has_user_group admin_user_group s
    then ok none
    else if is_anonymous s
    then (anonymous_root >>= (λ root_path. ok (chroot_at root_path)))
    else ok (chroot_at s.user.root_path)

module _ {S R C U : Type 0} (root : Drive S R C U) (perms : PermMap)
    (store : Str → Result (List PathMeta)) (session : Session) where
  -- GetRootDrive, behind the permissions and the settings of the paths
  unfoldable pub guarded_drive : Drive (S × List Event) R C U
  unfolding permission_drive path_meta_drive listener_drive filter_session
  guarded_drive =
      path_meta_drive (permission_drive (listener_drive root) (filter_session perms session)) store
        session

  -- if chroot != nil { drive = NewChrootWrapper(drive, chroot) }
  unfoldable pub with_chroot : Option Chroot → Drive (S × List Event) R C U
  unfolding guarded_drive chroot_drive
  with_chroot none = guarded_drive
  with_chroot (some c) = chroot_drive guarded_drive c

  -- GetDrive
  unfoldable pub get_drive : Result Str → Result (Drive (S × List Event) R C U)
  unfolding get_chroot with_chroot
  get_drive anonymous_root =
      get_chroot anonymous_root session >>= (λ chroot. ok (with_chroot chroot))
