-- ===== src/Dispatcher/Directories.antt =====
-- drive/dispatcher.go: ensureDir, which makes the directories above a path.
use solocoder_6069_go_drive.Common.{List, [], ◌∷◌, if◌then◌else◌, Str, split}
use solocoder_6069_go_drive.Errors.{Result, ok, err, then_do, is_not_found}
use solocoder_6069_go_drive.Drive.{Entry, Drive}
use solocoder_6069_go_drive.Paths.{slash, join_path, clean_path, is_root_path}

module _ {S R C U : Type 0} where
  -- drive.MakeDir in a round of ensureDir, where Get failed
  unfoldable pub make_missing : Drive S R C U → Str → Result Entry × S → Result {0} Unit × S
  unfolding then_do
  make_missing drive path (ok e, s) = (ok tt, s)
  make_missing drive path (err x, s) =
      if is_not_found x then then_do (drive.make_dir path s) (λ e s'. (ok tt, s')) else (err x, s)

  -- The loop of ensureDir.
  unfoldable pub ensure_loop : Drive S R C U → Str → List Str → S → Result {0} Unit × S
  unfolding make_missing then_do join_path
  ensure_loop drive path [] s = (ok tt, s)
  ensure_loop drive path (seg ∷ segs) s =
      then_do (make_missing drive (join_path path seg) (drive.get (join_path path seg) s))
        (λ u s'. ensure_loop drive (join_path path seg) segs s')

  -- ensureDir
  unfoldable pub ensure_dir : Drive S R C U → Str → S → Result {0} Unit × S
  unfolding ensure_loop clean_path is_root_path
  ensure_dir drive path s =
      if is_root_path (clean_path path)
      then (ok tt, s)
      else ensure_loop drive [] (split slash (clean_path path)) s
