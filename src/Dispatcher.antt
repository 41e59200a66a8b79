-- ===== src/Dispatcher.antt =====
-- drive/dispatcher.go: the drive at the root, which finds the drive that a path belongs to, through
-- the mounts. All drives work on one storage S; readers, upload settings and answers are parameters.
-- Copy and Move, which copy between drives and store changed mounts, are not here.
pub mod Mounts
pub mod Nearest
pub mod Names
pub mod Free
pub mod Numbered
pub mod Directories
pub mod Operations
pub mod Listing
pub mod Moving
mod Examples
use mathlib.Core.Option.{get_or}
use solocoder_6069_go_drive.Common.{
  ℕ, zero, suc, ◌+◌, ◌/◌, ◌%◌, Bool, true, false, not, ◌&&◌, ◌||◌, List, [], ◌∷◌, ◌++◌, length,
  drop, ltb, ◌==◌, if◌then◌else◌, Str, str_eq, split, Option, none, some, map_get, map_set, map,
  foldl,
}
use solocoder_6069_go_drive.Common.Text.Bytes.{byte_length, drop_bytes}
use solocoder_6069_go_drive.Errors.{
  then_do, Result, ok, err, Error, not_found, not_allowed, other, after, is_not_found, ◌>>=◌,
}
use solocoder_6069_go_drive.Drive.{Entry, Drive, dispatched_entry, drive_entry, path_of}
use solocoder_6069_go_drive.Paths.{
  slash, join_path, clean_path, path_parent, path_base, path_name, ext, is_root_path,
  is_path_parent, path_parent_tree,
}

-- types.PathMount
pub record PathMount : Type 0 where
  pub parent : Str
  pub name : Str
  pub mount_at : Str

abbrev pub Mounts : Type 0
Mounts = List (Str × List (Str × PathMount))

-- A round of reloadMounts: t[m.Name] = m, in the map of its path.
unfoldable pub add_mount : Mounts → PathMount → Mounts
unfolding map_get map_set
add_mount ms m = map_set m.parent (map_set m.name m (get_or (map_get m.parent ms) [])) ms

-- reloadMounts, of the rows of the database
unfoldable pub reload_mounts : List PathMount → Mounts
unfolding add_mount
reload_mounts rows = foldl add_mount [] rows

-- temp[name].MountAt, empty when there is none
unfoldable pub mount_at_name : Str → Option (List (Str × PathMount)) → Str
unfolding map_get
mount_at_name name none = []
mount_at_name name (some t) = elim (map_get name t) [ none ↦ [] | some m ↦ m.mount_at ]

-- The loop of resolveMount over a path and its ancestors: where the nearest mount leads, and the path
-- that has it.
unfoldable pub find_mount : Mounts → List Str → Option (Str × Str)
unfolding mount_at_name map_get path_parent path_base
find_mount ms [] = none
find_mount ms (p ∷ ps) =
    let rest = find_mount ms ps in
    let at = mount_at_name (path_base p) (map_get (path_parent p) ms) in
    if str_eq at [] then rest else some (at, p)

-- The list of PathParentTree, which is always there (Paths.Ancestors.path_parent_tree_total).
unfoldable pub ancestors : Str → List Str
unfolding path_parent_tree
ancestors path = get_or (path_parent_tree path) []

-- The end of resolveMount; path[len(prefix):] counts bytes.
unfoldable pub mounted_path : Str → Option (Str × Str) → Str
unfolding join_path clean_path drop_bytes byte_length
mounted_path path none = []
mounted_path path (some (at, prefix)) =
    join_path at (clean_path (drop_bytes (byte_length prefix) path))

-- resolveMount
unfoldable pub resolve_mount : Mounts → Str → Str
unfolding mounted_path find_mount ancestors
resolve_mount ms path = mounted_path path (find_mount ms (ancestors path))

-- maxMountDepth
abbrev pub max_mount_depth : ℕ
max_mount_depth = 10

-- The loop of resolve, with the number of mounts that may still be followed.
unfoldable pub follow_mounts : Mounts → ℕ → Str → Result Str
follow_mounts ms zero path = if str_eq (resolve_mount ms path) [] then ok path else err other
follow_mounts ms (suc left) path =
    let rest = follow_mounts ms left (resolve_mount ms path) in
    if str_eq (resolve_mount ms path) [] then ok path else rest

-- strings of pathRegexp ^/?([^/]+)(/(.*))?$ : the name before the first slash, and the text behind it
unfoldable pub first_segment : Str → Str × Str
first_segment [] = ([], [])
first_segment (c ∷ s) =
    let rest = first_segment s in if c == slash then ([], s) else (c ∷ rest.0, rest.1)

unfoldable pub has_newline : Str → Bool
has_newline [] = false
has_newline (c ∷ s) = c == b'\n' || has_newline s

unfoldable pub check_match : Str × Str → Option (Str × Str)
unfolding has_newline
check_match ([], rest) = none
check_match (c ∷ name, rest) = if has_newline rest then none else some (c ∷ name, rest)

-- pathRegexp.FindStringSubmatch: the drive's name and the path in the drive
unfoldable pub match_path : Str → Option (Str × Str)
unfolding check_match first_segment
match_path [] = none
match_path (c ∷ s) =
    if c == slash then check_match (first_segment s) else check_match (first_segment (c ∷ s))

-- resolveMountedChildren: the mounts at the path and below it, and whether one is at the path. The
-- loop over the maps is a loop over all mounts.
unfoldable pub children_of : Str → List PathMount → List PathMount
unfolding join_path is_path_parent
children_of path [] = []
children_of path (m ∷ rest) =
    let others = children_of path rest in
    let at = join_path m.parent m.name in
    if str_eq at path || is_path_parent at path then m ∷ others else others

unfoldable pub any_self : Str → List PathMount → Bool
unfolding join_path
any_self path [] = false
any_self path (m ∷ rest) = str_eq (join_path m.parent m.name) path || any_self path rest

unfoldable pub all_mounts : Mounts → List PathMount
all_mounts [] = []
all_mounts ((p, t) ∷ rest) = map (λ e. e.1) t ++ all_mounts rest

unfoldable pub resolve_mounted_children : Mounts → Str → List PathMount × Bool
unfolding children_of any_self all_mounts
resolve_mounted_children ms path =
    let children = children_of path (all_mounts ms) in (children, any_self path children)
