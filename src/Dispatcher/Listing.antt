-- ===== src/Dispatcher/Listing.antt =====
-- drive/dispatcher.go: List, which shows the mounts of a directory with its entries.
use solocoder_6069_go_drive.Common.{
  Bool, true, false, List, [], ◌∷◌, ◌++◌, if◌then◌else◌, Str, Option, none, some, map_get, map,
}
use solocoder_6069_go_drive.Errors.{Result, ok, err, after, then_do}
use solocoder_6069_go_drive.Drive.{Entry, Drive, dispatched_entry, drive_entry, path_of}
use solocoder_6069_go_drive.Paths.{join_path, path_base, is_root_path}
use solocoder_6069_go_drive.Dispatcher.{PathMount, Mounts}
use solocoder_6069_go_drive.Dispatcher.Operations.{resolve, map_drive_entries}

-- The entry of a mount in the map, if Get found one.
unfoldable pub add_mounted :
    {S : Type 0}
    → Str
    → Str
    → PathMount
    → Result Entry × S
    → List (Str × Entry) × S
    → List (Str × Entry) × S
unfolding join_path
add_mounted path name m (ok e, s) (rest, t) =
    ((name, dispatched_entry (join_path path name) m.mount_at [] e) ∷ rest, t)
add_mounted path name m (err x, s) (rest, t) = (rest, t)

-- mountedMap[name] == nil
unfoldable pub is_mounted_name : Str → List (Str × Entry) → Bool
unfolding map_get
is_mounted_name name mounted = elim (map_get name mounted) [ none ↦ false | some e ↦ true ]

-- The entries whose names no mount has.
unfoldable pub unmounted : List (Str × Entry) → List Entry → List Entry
unfolding is_mounted_name path_base path_of
unmounted mounted [] = []
unmounted mounted (e ∷ es) =
    let rest = unmounted mounted es in
    if is_mounted_name (path_base (path_of e)) mounted then rest else e ∷ rest

-- newEntries
unfoldable pub with_mounted : List Entry → List (Str × Entry) → List Entry
unfolding unmounted
with_mounted entries mounted = unmounted mounted entries ++ map (λ m. m.1) mounted

-- The entries of the drives, by their names. `meta` is Meta of the drive of a name: is it writable?
unfoldable pub drive_entries :
    {S : Type 0} → (Str → S → Result Bool × S) → List Str → S → Result (List Entry) × S
unfolding then_do
drive_entries meta [] s = (ok [], s)
drive_entries meta (name ∷ names) s =
    then_do (meta name s) (λ w s'.
      then_do (drive_entries meta names s') (λ es s''. (ok (drive_entry name w ∷ es), s'')))

module _ {S R C U : Type 0} (drives : List (Str × Drive S R C U)) (ms : Mounts) where
  -- resolve of where a mount leads, and Get there
  unfoldable pub get_mounted : PathMount → S → Result Entry × S
  unfolding resolve after
  get_mounted m s = after (resolve drives ms m.mount_at) (λ r. r.1.0.get r.1.1 s) s

  -- The loop over the mounts of a directory.
  unfoldable pub mounted_entries : Str → List (Str × PathMount) → S → List (Str × Entry) × S
  unfolding get_mounted add_mounted
  mounted_entries path [] s = ([], s)
  mounted_entries path ((name, m) ∷ rest) s =
      let r = get_mounted m s in add_mounted path name m r (mounted_entries path rest r.1)

  -- The entries of List before mounts are added.
  unfoldable pub own_entries : (Str → S → Result Bool × S) → Str → S → Result (List Entry) × S
  unfolding drive_entries resolve after then_do map_drive_entries is_root_path
  own_entries meta path s =
      if is_root_path path
      then drive_entries meta (map (λ d. d.0) drives) s
      else after (resolve drives ms path)
          (λ r. then_do (r.1.0.list r.1.1 s) (λ es s'. (ok (map_drive_entries path r.0 es), s'))) s

  unfoldable pub add_mounts :
      Str → Option (List (Str × PathMount)) → List Entry → S → Result (List Entry) × S
  unfolding mounted_entries with_mounted
  add_mounts path none entries s = (ok entries, s)
  add_mounts path (some t) entries s =
      let r = mounted_entries path t s in (ok (with_mounted entries r.0), r.1)

  -- List
  unfoldable pub list : (Str → S → Result Bool × S) → Str → S → Result (List Entry) × S
  unfolding own_entries add_mounts then_do map_get
  list meta path s =
      then_do (own_entries meta path s) (λ es s'. add_mounts path (map_get path ms) es s')
