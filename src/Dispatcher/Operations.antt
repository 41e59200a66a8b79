-- ===== src/Dispatcher/Operations.antt =====
-- drive/dispatcher.go: the operations of the dispatcher, over the drives by their names.
use solocoder_6069_go_drive.Common.{
  ℕ, Bool, false, List, [], ◌∷◌, ◌==◌, if◌then◌else◌, Str, str_eq, Option, none, some, map_get,
}
use solocoder_6069_go_drive.Errors.{Result, ok, err, not_found, after, then_do, ◌>>=◌}
use solocoder_6069_go_drive.Drive.{Entry, Drive, dispatched_entry, drive_entry, path_of}
use solocoder_6069_go_drive.Paths.{join_path, path_parent, path_base, is_root_path}
use solocoder_6069_go_drive.Dispatcher.{Mounts, follow_mounts, max_mount_depth, match_path}
use solocoder_6069_go_drive.Dispatcher.Names.{path_to_write}
use solocoder_6069_go_drive.Dispatcher.Directories.{ensure_dir}

-- mapDriveEntry of what a drive returned
unfoldable pub map_drive_entry : {S : Type 0} → Str → Str → Result Entry × S → Result Entry × S
map_drive_entry path drive_name (ok e, s) = (ok (dispatched_entry path [] drive_name e), s)
map_drive_entry path drive_name (err x, s) = (err x, s)

-- mapDriveEntries
unfoldable pub map_drive_entries : Str → Str → List Entry → List Entry
unfolding join_path path_base path_of
map_drive_entries dir drive_name [] = []
map_drive_entries dir drive_name (e ∷ es) =
    dispatched_entry (join_path dir (path_base (path_of e))) [] drive_name e
    ∷ map_drive_entries dir drive_name es

module _ {S R C U : Type 0} (drives : List (Str × Drive S R C U)) (ms : Mounts) where
  -- The end of resolve: the drive of that name.
  unfoldable pub find_drive : Option (Str × Str) → Result (Str × (Drive S R C U × Str))
  unfolding map_get
  find_drive none = err not_found
  find_drive (some (drive_name, entry_path)) = elim (map_get drive_name drives) [
    | none ↦ err not_found
    | some drive ↦ ok (drive_name, (drive, entry_path))
  ]

  -- resolve
  unfoldable pub resolve : Str → Result (Str × (Drive S R C U × Str))
  unfolding follow_mounts match_path find_drive
  resolve path = follow_mounts ms max_mount_depth path >>= (λ p. find_drive (match_path p))

  -- Get
  unfoldable pub get : Str → S → Result Entry × S
  unfolding resolve after map_drive_entry is_root_path
  get path s =
      if is_root_path path
      then (ok (drive_entry [] false), s)
      else after (resolve path) (λ r. map_drive_entry path r.0 (r.1.0.get r.1.1 s)) s

  -- Save
  unfoldable pub save : Str → ℕ → Bool → R → S → Result Entry × S
  unfolding resolve after then_do ensure_dir path_to_write map_drive_entry join_path
  save path size override reader s =
      after (resolve path)
        (λ r. then_do (ensure_dir r.1.0 (path_parent r.1.1) s) (λ u s'.
          then_do (path_to_write r.1.0.get r.1.0.list r.1.1 override s') (λ real s''.
            map_drive_entry (join_path r.0 real) r.0 (r.1.0.save real size override reader s''))))
        s

  -- MakeDir
  unfoldable pub make_dir : Str → S → Result Entry × S
  unfolding resolve after then_do ensure_dir map_drive_entry
  make_dir path s =
      after (resolve path)
        (λ r.
          then_do (ensure_dir r.1.0 (path_parent r.1.1) s)
            (λ u s'. map_drive_entry path r.0 (r.1.0.make_dir r.1.1 s')))
        s

  -- Upload; for a file of no bytes the answer is that of UseLocalProvider, a parameter. `renamed`
  -- puts the new path into an answer.
  unfoldable pub upload : U → (Str → U → U) → Str → ℕ → Bool → C → S → Result U × S
  unfolding resolve after then_do ensure_dir path_to_write join_path
  upload local renamed path size override config s =
      after (resolve path)
        (λ r. then_do (ensure_dir r.1.0 (path_parent r.1.1) s) (λ u s'.
          then_do (path_to_write r.1.0.get r.1.0.list r.1.1 override s') (λ real s''.
            let rename =
              λ (a : U). if str_eq r.1.1 real then a else renamed (join_path r.0 real) a in
            if size == 0
            then (ok (rename local), s'')
            else then_do (r.1.0.upload real size override config s'') (λ a t. (ok (rename a), t)))))
        s
