-- ===== src/Dispatcher/Moving.antt =====
-- drive/dispatcher.go: Move and Delete, which change the mounts too.
use solocoder_6069_go_drive.Common.{
  Bool, true, List, [], ◌∷◌, length, drop, ◌==◌, if◌then◌else◌, Str,
}
use solocoder_6069_go_drive.Errors.{Result, ok, err, not_allowed, after, then_do, is_unsupported}
use solocoder_6069_go_drive.Drive.{Entry, Drive, path_of}
use solocoder_6069_go_drive.Paths.{join_path, path_base, path_parent, path_depth, is_root_path}
use solocoder_6069_go_drive.Dispatcher.{PathMount, Mounts, reload_mounts, resolve_mounted_children}
use solocoder_6069_go_drive.Dispatcher.Names.{path_to_write}
use solocoder_6069_go_drive.Dispatcher.Operations.{resolve, get, map_drive_entry}
use solocoder_6069_go_drive.Dispatcher.Listing.{list}

-- What the dispatcher calls of PathMountDAO (storage/path_mount.go), a database.
pub record MountStore (S : Type 0) : Type 0 where
  pub get_mounts : S → Result (List PathMount) × S
  pub delete_mounts : List PathMount → S → Result {0} Unit × S
  pub delete_and_save_mounts : List PathMount → List PathMount → Bool → S → Result {0} Unit × S

-- reloadMounts, whose error Move and Delete ignore
unfoldable pub reloaded : {S : Type 0} → Mounts → Result (List PathMount) × S → Mounts × S
unfolding reload_mounts
reloaded ms (ok rows, s) = (reload_mounts rows, s)
reloaded ms (err x, s) = (ms, s)

-- An operation on the storage, with the mounts as they are
unfoldable pub keep_mounts {ℓ} :
    {X : Type ℓ} {S : Type 0} → Mounts → Result X × S → Result X × (Mounts × S)
keep_mounts ms (r, s) = (r, (ms, s))

-- The error of Move where the drive does not move across drives
unfoldable pub not_across : {S : Type 0} → Result Entry × S → Result Entry × S
not_across (ok e, s) = (ok e, s)
not_across (err x, s) = if is_unsupported x then (err not_allowed, s) else (err x, s)

module _ {S R C U : Type 0} (drives : List (Str × Drive S R C U)) (store : MountStore S)
    (meta : Str → S → Result Bool × S) where
  -- What Delete does after the mounts.
  unfoldable pub delete_resolved : Mounts → Str → S → Result {0} Unit × (Mounts × S)
  unfolding keep_mounts resolve after is_root_path
  delete_resolved ms path s = keep_mounts ms (
      after (resolve drives ms path)
        (λ r. if is_root_path r.1.1 then (err not_allowed, s) else r.1.0.delete r.1.1 s) s)

  unfoldable pub delete_children :
      Mounts → Str → List PathMount × Bool → S → Result {0} Unit × (Mounts × S)
  unfolding delete_resolved reloaded then_do keep_mounts
  delete_children ms path ([], is_self) s = delete_resolved ms path s
  delete_children ms path (m ∷ more, is_self) s =
      then_do (keep_mounts ms (store.delete_mounts (m ∷ more) s)) (λ u t.
        let (ms', s') = reloaded t.0 (store.get_mounts t.1) in
        if is_self then (ok tt, (ms', s')) else delete_resolved ms' path s')

  -- Delete
  unfoldable pub delete : Str → Mounts × S → Result {0} Unit × (Mounts × S)
  unfolding delete_children resolve_mounted_children
  delete path (ms, s) = delete_children ms path (resolve_mounted_children ms path) s

  -- A mount that was moved to a path.
  unfoldable pub mount_moved : PathMount → Str → PathMount
  unfolding path_parent path_base
  mount_moved m t = record { parent = path_parent t; name = path_base t; mount_at = m.mount_at }

  -- The loop of Move over the children: movedMounts.
  unfoldable pub moved_mounts :
      Mounts → Str → Str → Bool → List PathMount → S → Result (List PathMount) × S
  unfolding path_to_write get list join_path mount_moved then_do
  moved_mounts ms from to override [] s = (ok [], s)
  moved_mounts ms from to override (m ∷ rest) s =
      then_do
        (path_to_write (get drives ms) (list drives ms meta)
          (join_path to (drop (length from) (join_path m.parent m.name))) override s)
        (λ t s'.
          then_do (moved_mounts ms from to override rest s')
            (λ others s''. (ok (mount_moved m t ∷ others), s'')))

  -- The end of Move, on the drive of the new path if there is one. For a path in the root that no
  -- drive has, driveName and pathTo are empty.
  unfoldable pub move_entry :
      Mounts → Entry → Bool → Result (Str × (Drive S R C U × Str)) → S → Result Entry × (Mounts × S)
  unfolding keep_mounts path_to_write then_do not_across map_drive_entry join_path get
  move_entry ms from override (ok (drive_name, (drive, path))) s = keep_mounts ms (
      then_do (path_to_write drive.get drive.list path override s) (λ real s'.
        map_drive_entry (join_path drive_name real) drive_name
          (not_across (drive.move from real override s'))))
  move_entry ms from override (err x) s = keep_mounts ms (get drives ms [] s)

  -- path2.Join(driveName, pathTo)
  unfoldable pub target_path : Result (Str × (Drive S R C U × Str)) → Str
  unfolding join_path
  target_path (ok (drive_name, (drive, path))) = join_path drive_name path
  target_path (err x) = []

  -- The part of Move after movedMounts.
  unfoldable pub move_children :
      Mounts
      → Entry
      → Bool
      → List PathMount × Bool
      → List PathMount
      → Result (Str × (Drive S R C U × Str))
      → S
      → Result Entry × (Mounts × S)
  unfolding keep_mounts then_do reloaded move_entry get target_path
  move_children ms from override (children, is_self) moved target s =
      then_do (keep_mounts ms (store.delete_and_save_mounts children moved true s)) (λ u t.
        let (ms', s') = reloaded t.0 (store.get_mounts t.1) in
        if is_self
        then keep_mounts ms' (get drives ms' (target_path target) s')
        else move_entry ms' from override target s')

  -- Move, with what resolve says of the new path
  unfoldable pub move_to :
      Mounts
      → Entry
      → Str
      → Bool
      → List PathMount × Bool
      → Result (Str × (Drive S R C U × Str))
      → S
      → Result Entry × (Mounts × S)
  unfolding move_entry move_children moved_mounts then_do keep_mounts path_of
  move_to ms from to override ([], is_self) (err x) s = (err not_allowed, (ms, s))
  move_to ms from to override ([], is_self) (ok r) s = move_entry ms from override (ok r) s
  move_to ms from to override (m ∷ more, is_self) target s =
      then_do (keep_mounts ms (moved_mounts ms (path_of from) to override (m ∷ more) s))
        (λ moved t. move_children t.0 from override (m ∷ more, is_self) moved target t.1)

  -- The first check of Move: without a drive the new path has to be in the root.
  unfoldable pub check_target :
      Str → Result (Str × (Drive S R C U × Str)) → Result (Result (Str × (Drive S R C U × Str)))
  unfolding path_depth
  check_target to (ok r) = ok (ok r)
  check_target to (err x) = if path_depth to == 1 then ok (err x) else err x

  -- Move
  unfoldable pub move : Entry → Str → Bool → Mounts × S → Result Entry × (Mounts × S)
  unfolding check_target resolve move_to resolve_mounted_children path_of after
  move from to override (ms, s) =
      after (check_target to (resolve drives ms to))
        (λ target.
          move_to ms from to override (resolve_mounted_children ms (path_of from)) target s)
        (ms, s)
