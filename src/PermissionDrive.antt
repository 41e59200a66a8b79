-- ===== src/PermissionDrive.antt =====
-- drive/permission_wrapper.go: the drive that lets a session do what its permissions allow.
pub mod Guards
pub mod Changes
pub mod Listing
mod Examples
use solocoder_6069_go_drive.Common.{
  ℕ, Bool, true, false, not, ◌&&◌, List, [], ◌∷◌, ◌==◌, if◌then◌else◌, Str, Option, none, some,
  bit_and,
}
use solocoder_6069_go_drive.Errors.{after, Result, ok, err, not_found, not_allowed, ◌>>=◌}
use solocoder_6069_go_drive.Drive.{Entry, Drive, permission_entry, path_of, is_readable}
use solocoder_6069_go_drive.Paths.{is_root_path, path_parent}
use solocoder_6069_go_drive.Permission.{permission_read, permission_read_write, readable, writable}
use solocoder_6069_go_drive.PermMap.{PermMap, resolve_path, resolve_descendant}

-- &permissionWrapperEntry{p: p, IEntry: entry, permission: permission}
abbrev pub wrap_entry : ℕ → Entry → Entry
wrap_entry permission e = permission_entry permission e

-- The last lines of an operation that answers an entry.
unfoldable pub wrap_result : {S : Type 0} → ℕ → Result Entry × S → Result Entry × S
wrap_result permission (ok e, s) = (ok (wrap_entry permission e), s)
wrap_result permission (err x, s) = (err x, s)

-- requirePermission
unfoldable pub require_permission : PermMap → Str → ℕ → Result ℕ
require_permission pm path require =
    let resolved = resolve_path pm path in
    if not (bit_and resolved require == require) then err not_found else ok resolved

-- requirePathAndParentWritable
unfoldable pub require_path_and_parent_writable : PermMap → Str → Result ℕ
unfolding require_permission
require_path_and_parent_writable pm path =
    if not (is_root_path path)
    then (require_permission pm (path_parent path) permission_read_write
        >>= (λ _. require_permission pm path permission_read_write))
    else require_permission pm path permission_read_write

-- !defined || dp&require == require
unfoldable pub descendants_allow : Option ℕ → ℕ → Bool
descendants_allow none require = true
descendants_allow (some dp) require = bit_and dp require == require

-- requireDescendantPermission
unfoldable pub require_descendant_permission : PermMap → Str → ℕ → Result {0} Unit
unfolding descendants_allow
require_descendant_permission pm path require =
    if not (
      bit_and (resolve_path pm path) require == require
      && descendants_allow (resolve_descendant pm path) require)
    then err not_allowed
    else ok tt

-- The entries that List keeps, each with its permission.
unfoldable pub keep_readable : PermMap → List Entry → List Entry
unfolding readable is_readable path_of
keep_readable pm [] = []
keep_readable pm (e ∷ es) =
    let rest = keep_readable pm es in
    let per = resolve_path pm (path_of e) in
    if not (is_readable e) then rest else if readable per then wrap_entry per e ∷ rest else rest

unfoldable pub filter_list :
    {S : Type 0} → PermMap → Result (List Entry) × S → Result (List Entry) × S
unfolding keep_readable
filter_list pm (ok es, s) = (ok (keep_readable pm es), s)
filter_list pm (err x, s) = (err x, s)

module _ {S R C U : Type 0} (drive : Drive S R C U) (pm : PermMap) where
  -- Get
  unfoldable pub get : Str → S → Result Entry × S
  unfolding after wrap_result require_permission
  get path s =
      after (require_permission pm path permission_read)
        (λ permission. wrap_result permission (drive.get path s)) s

  -- Save
  unfoldable pub save : Str → ℕ → Bool → R → S → Result Entry × S
  unfolding after wrap_result require_permission
  save path size override reader s =
      after (require_permission pm path permission_read_write)
        (λ permission. wrap_result permission (drive.save path size override reader s)) s

  -- MakeDir
  unfoldable pub make_dir : Str → S → Result Entry × S
  unfolding after wrap_result require_permission
  make_dir path s =
      after (require_permission pm path permission_read_write)
        (λ permission. wrap_result permission (drive.make_dir path s)) s

  -- Copy
  unfoldable pub copy : Entry → Str → Bool → S → Result Entry × S
  unfolding after wrap_result require_path_and_parent_writable require_descendant_permission
  copy from to override s =
      after (require_path_and_parent_writable pm to)
        (λ to_permission.
          after (require_descendant_permission pm (path_of from) permission_read)
            (λ _.
              after (require_descendant_permission pm to permission_read_write)
                (λ _. wrap_result to_permission (drive.copy from to override s)) s)
            s)
        s

  -- Move
  unfoldable pub move : Entry → Str → Bool → S → Result Entry × S
  unfolding after wrap_result require_path_and_parent_writable require_descendant_permission
  move from to override s =
      after (require_path_and_parent_writable pm to)
        (λ to_permission.
          after (require_path_and_parent_writable pm (path_of from))
            (λ _.
              after (require_descendant_permission pm (path_of from) permission_read_write)
                (λ _.
                  after (require_descendant_permission pm to permission_read_write)
                    (λ _. wrap_result to_permission (drive.move from to override s)) s)
                s)
            s)
        s

  -- List
  unfoldable pub list : Str → S → Result (List Entry) × S
  unfolding filter_list is_root_path readable
  list path s =
      if not (is_root_path path) && not (readable (resolve_path pm path))
      then (err not_found, s)
      else filter_list pm (drive.list path s)

  -- Delete
  unfoldable pub delete : Str → S → Result {0} Unit × S
  unfolding after require_path_and_parent_writable
  delete path s = after (require_path_and_parent_writable pm path) (λ _. drive.delete path s) s

  -- Upload
  unfoldable pub upload : Str → ℕ → Bool → C → S → Result U × S
  unfolding after require_permission
  upload path size override config s =
      after (require_permission pm path permission_read_write)
        (λ _. drive.upload path size override config s) s

-- NewPermissionWrapperDrive: the wrapper as a drive
unfoldable pub permission_drive : {S R C U : Type 0} → Drive S R C U → PermMap → Drive S R C U
unfolding get save make_dir copy move list delete upload
permission_drive drive pm = record {
  get = get drive pm;
  save = save drive pm;
  make_dir = make_dir drive pm;
  copy = copy drive pm;
  move = move drive pm;
  list = list drive pm;
  delete = delete drive pm;
  upload = upload drive pm;
}
