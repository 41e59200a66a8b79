-- ===== src/PermissionDrive/Changes.antt =====
-- The operations of the permission wrapper that change the storage, and what they require.
use solocoder_6069_go_drive.Common.{ℕ, false, ◌≡◌, refl, ◌⊎◌}
use solocoder_6069_go_drive.Errors.{Result, ok, err}
use solocoder_6069_go_drive.Drive.{Entry, Drive, path_of}
use solocoder_6069_go_drive.Permission.{permission_read, permission_read_write}
use solocoder_6069_go_drive.PermMap.{PermMap}
use solocoder_6069_go_drive.Drive.Change.{
  Change, save_file, new_dir, copy_entry, move_entry, delete_entry, start_upload, settle, change,
  after-last, after-Guarded,
}
use solocoder_6069_go_drive.PermissionDrive.{
  permission_drive, wrap_result, require_permission, require_path_and_parent_writable,
  require_descendant_permission, save, make_dir, copy, move, delete, upload,
}
use solocoder_6069_go_drive.PermissionDrive.Guards.{
  Holds, HoldsUp, HoldsBelow, require_permission-Checks, require_path_and_parent_writable-Checks,
  require_descendant_permission-Checks,
}

-- The permissions that a change needs.
abbrev pub IsPermitted : {R C : Type 0} → PermMap → Change R C → Type 0
IsPermitted pm (save_file path size override reader) = Holds pm path permission_read_write
IsPermitted pm (new_dir path) = Holds pm path permission_read_write
IsPermitted pm (copy_entry from to override) =
    HoldsUp pm to
    × (HoldsBelow pm (path_of from) permission_read × HoldsBelow pm to permission_read_write)
IsPermitted pm (move_entry from to override) =
    HoldsUp pm to
    × (HoldsUp pm (path_of from)
        × (HoldsBelow pm (path_of from) permission_read_write
            × HoldsBelow pm to permission_read_write))
IsPermitted pm (delete_entry path) = HoldsUp pm path
IsPermitted pm (start_upload path size override config) = Holds pm path permission_read_write

settle-wrap_result :
    {S : Type 0} (p : ℕ) (o : Result Entry × S) → settle (wrap_result p o) ≡ settle o
unfolding settle wrap_result
settle-wrap_result p (ok e, s) = refl
settle-wrap_result p (err x, s) = refl

module _ {S R C U : Type 0} (drive : Drive S R C U) where
  -- For every change one of two things holds. Either the permissions that it needs are there, and it
  -- fails or succeeds as on the drive below and leaves the storage as that does; or they are not,
  -- and it fails and leaves the storage as it was.
  pub change-guarded :
      (pm : PermMap) (ch : Change R C) (s : S)
      → (IsPermitted pm ch × (change (permission_drive drive pm) ch s ≡ change drive ch s))
        ⊎ ((IsPermitted pm ch → ⊥) × (change (permission_drive drive pm) ch s ≡ (false, s)))
  unfolding change permission_drive save make_dir copy move delete upload
  change-guarded pm (save_file path size override reader) s =
      after-last (require_permission pm path permission_read_write)
        (λ p. wrap_result p (drive.save path size override reader s)) s
        (settle (drive.save path size override reader s))
        (require_permission-Checks pm path permission_read_write)
        (λ p. settle-wrap_result p (drive.save path size override reader s))
  change-guarded pm (new_dir path) s =
      after-last (require_permission pm path permission_read_write)
        (λ p. wrap_result p (drive.make_dir path s)) s (settle (drive.make_dir path s))
        (require_permission-Checks pm path permission_read_write)
        (λ p. settle-wrap_result p (drive.make_dir path s))
  change-guarded pm (copy_entry from to override) s =
      after-Guarded (require_path_and_parent_writable pm to) _ s
        (settle (drive.copy from to override s)) (require_path_and_parent_writable-Checks pm to)
        (λ p.
          after-Guarded (require_descendant_permission pm (path_of from) permission_read) _ s
            (settle (drive.copy from to override s))
            (require_descendant_permission-Checks pm (path_of from) permission_read)
            (λ _.
              after-last (require_descendant_permission pm to permission_read_write) _ s
                (settle (drive.copy from to override s))
                (require_descendant_permission-Checks pm to permission_read_write)
                (λ _. settle-wrap_result p (drive.copy from to override s))))
  change-guarded pm (move_entry from to override) s =
      after-Guarded (require_path_and_parent_writable pm to) _ s
        (settle (drive.move from to override s)) (require_path_and_parent_writable-Checks pm to)
        (λ p.
          after-Guarded (require_path_and_parent_writable pm (path_of from)) _ s
            (settle (drive.move from to override s))
            (require_path_and_parent_writable-Checks pm (path_of from))
            (λ _.
              after-Guarded (require_descendant_permission pm (path_of from) permission_read_write)
                _ s (settle (drive.move from to override s))
                (require_descendant_permission-Checks pm (path_of from) permission_read_write)
                (λ _.
                  after-last (require_descendant_permission pm to permission_read_write) _ s
                    (settle (drive.move from to override s))
                    (require_descendant_permission-Checks pm to permission_read_write)
                    (λ _. settle-wrap_result p (drive.move from to override s)))))
  change-guarded pm (delete_entry path) s =
      after-last (require_path_and_parent_writable pm path) _ s (settle (drive.delete path s))
        (require_path_and_parent_writable-Checks pm path) (λ _. refl)
  change-guarded pm (start_upload path size override config) s =
      after-last (require_permission pm path permission_read_write) _ s
        (settle (drive.upload path size override config s))
        (require_permission-Checks pm path permission_read_write) (λ _. refl)
