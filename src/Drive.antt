-- ===== src/Drive.antt =====
-- common/types/drive.go: what a drive does, as an interface, and the entries that drives return. The
-- state of the storage that a drive reads and changes is passed along; readers, upload settings and
-- the like are parameters.
pub mod Counting
pub mod Change
use solocoder_6069_go_drive.Common.{
  ℕ, Bool, true, false, ◌&&◌, List, Str, Option, none, some, if◌then◌else◌,
}
use solocoder_6069_go_drive.Errors.{Result}
use solocoder_6069_go_drive.Permission.{readable, writable}

-- What an entry of a storage's own drive (a file or a directory) answers.
pub record BaseEntry : Type 0 where
  pub entry_path : Str
  pub is_directory : Bool
  pub byte_size : ℕ
  pub can_read : Bool
  pub can_write : Bool

-- IEntry: the entries of the storages, those of the dispatcher for its drives, and the wrappers,
-- each around another entry (permissionWrapperEntry, chrootEntry, entryWrapper, metaEntryWrapper).
pub data Entry : Type 0 where
  base_entry : BaseEntry → Entry
  drive_entry : Str → Bool → Entry
  permission_entry : ℕ → Entry → Entry
  chroot_entry : Str → Entry → Entry
  dispatched_entry : Str → Str → Str → Entry → Entry
  meta_entry : Entry → Entry

-- Path
unfoldable pub path_of : Entry → Str
path_of (base_entry b) = b.entry_path
path_of (drive_entry name w) = name
path_of (permission_entry p e) = path_of e
path_of (chroot_entry path e) = path
path_of (dispatched_entry path mount_at drive_name e) = path
path_of (meta_entry e) = path_of e

-- Meta().Readable
unfoldable pub is_readable : Entry → Bool
unfolding readable
is_readable (base_entry b) = b.can_read
is_readable (drive_entry name w) = true
is_readable (permission_entry p e) = is_readable e && readable p
is_readable (chroot_entry path e) = is_readable e
is_readable (dispatched_entry path mount_at drive_name e) = is_readable e
is_readable (meta_entry e) = is_readable e

-- Meta().Writable
unfoldable pub is_writable : Entry → Bool
unfolding writable
is_writable (base_entry b) = b.can_write
is_writable (drive_entry name w) = w
is_writable (permission_entry p e) = is_writable e && writable p
is_writable (chroot_entry path e) = is_writable e
is_writable (dispatched_entry path mount_at drive_name e) = is_writable e
is_writable (meta_entry e) = is_writable e

-- Type().IsDir()
unfoldable pub is_dir : Entry → Bool
is_dir (base_entry b) = b.is_directory
is_dir (drive_entry name w) = true
is_dir (permission_entry p e) = is_dir e
is_dir (chroot_entry path e) = is_dir e
is_dir (dispatched_entry path mount_at drive_name e) = is_dir e
is_dir (meta_entry e) = is_dir e

-- GetIEntry of common/drive_util/utils.go with a test: the outermost entry that passes it.
unfoldable pub find_entry : (Entry → Bool) → Entry → Option Entry
find_entry test (base_entry b) = if test (base_entry b) then some (base_entry b) else none
find_entry test (drive_entry name w) =
    if test (drive_entry name w) then some (drive_entry name w) else none
find_entry test (permission_entry p e) =
    let rest = find_entry test e in
    if test (permission_entry p e) then some (permission_entry p e) else rest
find_entry test (chroot_entry path e) =
    let rest = find_entry test e in
    if test (chroot_entry path e) then some (chroot_entry path e) else rest
find_entry test (dispatched_entry path mount_at drive_name e) =
    let rest = find_entry test e in
    if test (dispatched_entry path mount_at drive_name e)
    then some (dispatched_entry path mount_at drive_name e)
    else rest
find_entry test (meta_entry e) =
    let rest = find_entry test e in if test (meta_entry e) then some (meta_entry e) else rest

-- UnwrapIEntry: the entry inside all wrappers.
unfoldable pub innermost : Entry → Entry
innermost (base_entry b) = base_entry b
innermost (drive_entry name w) = drive_entry name w
innermost (permission_entry p e) = innermost e
innermost (chroot_entry path e) = innermost e
innermost (dispatched_entry path mount_at drive_name e) = innermost e
innermost (meta_entry e) = innermost e

-- IDrive, over a storage S, with readers R, upload settings C and their answers U.
pub record Drive (S R C U : Type 0) : Type 0 where
  pub get : Str → S → Result Entry × S
  pub save : Str → ℕ → Bool → R → S → Result Entry × S
  pub make_dir : Str → S → Result Entry × S
  pub copy : Entry → Str → Bool → S → Result Entry × S
  pub move : Entry → Str → Bool → S → Result Entry × S
  pub list : Str → S → Result (List Entry) × S
  pub delete : Str → S → Result {0} Unit × S
  pub upload : Str → ℕ → Bool → C → S → Result U × S
