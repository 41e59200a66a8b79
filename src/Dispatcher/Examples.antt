-- ===== src/Dispatcher/Examples.antt =====
-- The dispatcher's theorems, for mounts of a few rows and for a drive that is a set of directories.
use solocoder_6069_go_drive.Common.{
  ◌+◌, ◌++◌, some, join, ◌<◌, false, str_eq, ℕ, suc, ◌≤◌, true, List, [], ◌∷◌, Str, codes, Option,
  ◌≡◌, ◌≢◌, refl, ◌⊎◌, if◌then◌else◌, map,
}
use solocoder_6069_go_drive.Errors.{ok, err, not_found, other}
use solocoder_6069_go_drive.Drive.{Drive, dispatched_entry, path_of}
use solocoder_6069_go_drive.Drive.Counting.{entry_at}
use solocoder_6069_go_drive.Paths.{
  is_space, is_unsafe_char, clean_path, ext, path_name, path_parent,
}
use solocoder_6069_go_drive.Paths.Ancestors.{IsLine}
use solocoder_6069_go_drive.Dispatcher.{
  PathMount, reload_mounts, resolve_mount, mounted_path, follow_mounts, max_mount_depth,
}
use solocoder_6069_go_drive.Dispatcher.Names.{has_path, find_non_exists, numbered_path}
use solocoder_6069_go_drive.Dispatcher.Numbered.{IsNumberable, find_non_exists-free}
use solocoder_6069_go_drive.Dispatcher.Nearest.{IsFirst, resolve_mount-nearest}
use solocoder_6069_go_drive.Dispatcher.Mounts.{
  Follows, Continues, Chain, stay, hop, follow_mounts_total, follow_mounts-cycle,
}
use solocoder_6069_go_drive.Dispatcher.Operations.{get}
use solocoder_6069_go_drive.Dispatcher.Moving.{MountStore, delete, move}

abbrev mount : Str → Str → Str → PathMount
mount dir n at = record { parent = dir; name = n; mount_at = at }

-- x is mounted at a/b, and y at z and z at y.
abbrev rows : List PathMount
rows =
    mount (codes "a") (codes "b") (codes "x")
    ∷ mount [] (codes "y") (codes "z")
    ∷ mount [] (codes "z") (codes "y")
    ∷ []

leads : resolve_mount (reload_mounts rows) (codes "a/b/c") ≡ codes "x/c"
unfolding resolve_mount reload_mounts
leads = refl

resolve_mount-nearest_example :
    (line : List Str) × (r : Option (Str × Str)) × IsLine (clean_path (codes "a/b/c")) line
    × IsFirst rows line r
    × (resolve_mount (reload_mounts rows) (codes "a/b/c") ≡ mounted_path (codes "a/b/c") r)
resolve_mount-nearest_example = resolve_mount-nearest rows (codes "a/b/c")

follow_mounts_total_example :
    ((q : Str) × (n : ℕ) × (n ≤ max_mount_depth)
      × Follows (reload_mounts rows) n (codes "a/b/c") q
      × (follow_mounts (reload_mounts rows) max_mount_depth (codes "a/b/c") ≡ ok q))
    ⊎ (Continues (reload_mounts rows) (suc max_mount_depth) (codes "a/b/c")
        × (follow_mounts (reload_mounts rows) max_mount_depth (codes "a/b/c") ≡ err other))
follow_mounts_total_example = follow_mounts_total (reload_mounts rows) (codes "a/b/c")

y_mounted : resolve_mount (reload_mounts rows) (codes "y") ≢ []
unfolding resolve_mount reload_mounts
y_mounted e = cc

z_mounted : resolve_mount (reload_mounts rows) (codes "z") ≢ []
unfolding resolve_mount reload_mounts
z_mounted e = cc

y_again : Chain (reload_mounts rows) 2 (codes "y") (codes "y")
unfolding resolve_mount reload_mounts
y_again = hop y_mounted (hop z_mounted stay)

follow_mounts-cycle_example :
    follow_mounts (reload_mounts rows) max_mount_depth (codes "y") ≡ err other
follow_mounts-cycle_example =
    follow_mounts-cycle (reload_mounts rows) 1 0 (codes "y") (codes "y") y_again stay

-- A drive whose storage is the list of its paths.
abbrev shelf : Drive (List Str) Unit Unit Unit
shelf = record {
  get = λ path s. (if has_path path s then ok (entry_at path) else err not_found, s);
  save = λ path size override reader s. (ok (entry_at path), path ∷ s);
  make_dir = λ path s. (ok (entry_at path), path ∷ s);
  copy = λ from to override s. (ok (entry_at to), to ∷ s);
  move = λ from to override s. (ok (entry_at to), to ∷ s);
  list = λ path s. (ok (map entry_at s), s);
  delete = λ path s. (ok tt, s);
  upload = λ path size override config s. (ok tt, s);
}

-- Without override a taken name gets a number.
numbers :
    find_non_exists shelf.get shelf.list (codes "a.b") (codes "a.b" ∷ codes "a_1.b" ∷ [])
    ≡ (ok (codes "a_2.b"), codes "a.b" ∷ codes "a_1.b" ∷ [])
unfolding find_non_exists has_path
numbers = refl

a_b-IsNumberable : IsNumberable (codes "a.b")
unfolding path_parent path_name ext join is_unsafe_char is_space
a_b-IsNumberable = record {
  parents = [];
  normal = tt;
  below = refl;
  safe = (refl, tt);
  safe_ext = (refl, (refl, tt));
  starts = refl;
  ends = refl;
}

a_b_found :
    shelf.get (codes "a.b") (codes "a.b" ∷ codes "a_1.b" ∷ [])
    ≡ (ok (entry_at (codes "a.b")), codes "a.b" ∷ codes "a_1.b" ∷ [])
unfolding has_path str_eq
a_b_found = refl

find_non_exists-free_example :
    (p : Str) × (find_non_exists shelf.get shelf.list
        (codes "a.b")
        (codes "a.b" ∷ codes "a_1.b" ∷ [])
      ≡ (ok p, codes "a.b" ∷ codes "a_1.b" ∷ []))
    × ((k : ℕ) × (1 ≤ k)
        × (p ≡ numbered_path (codes "a.b") k)
        × (has_path p (codes "a.b" ∷ codes "a_1.b" ∷ []) ≡ false)
        × ((j : ℕ)
            → 1 ≤ j
            → j < k
            → has_path (numbered_path (codes "a.b") j) (codes "a.b" ∷ codes "a_1.b" ∷ []) ≡ true))
unfolding path_of
find_non_exists-free_example =
    find_non_exists-free (codes "a.b") a_b-IsNumberable shelf.get shelf.list
      (codes "a.b" ∷ codes "a_1.b" ∷ []) (codes "a.b" ∷ codes "a_1.b" ∷ [])
      (codes "a.b" ∷ codes "a_1.b" ∷ []) (entry_at (codes "a.b"))
      (entry_at (codes "a.b") ∷ entry_at (codes "a_1.b") ∷ []) (λ e. cc) a_b_found refl

abbrev drives : List (Str × Drive (List Str) Unit Unit Unit)
drives = (codes "x", shelf) ∷ []

-- The bytes of the prefix are cut off a path that was not cleaned: the last byte of "é" stays.
cuts_bytes :
    mounted_path (codes " é/b") (some (codes "x", codes "é"))
    ≡ codes "x/" ++ ((0x110000 + 0xa9) ∷ codes "/b")
unfolding mounted_path
cuts_bytes = refl

gets_mounted :
    get drives (reload_mounts rows) (codes "a/b/c") (codes "c" ∷ [])
    ≡ (ok (dispatched_entry (codes "a/b/c") [] (codes "x") (entry_at (codes "c"))), codes "c" ∷ [])
unfolding get reload_mounts has_path str_eq resolve_mount
gets_mounted = refl

abbrev store : MountStore (List Str)
store = record {
  get_mounts = λ s. (ok [], s);
  delete_mounts = λ ms s. (ok tt, s);
  delete_and_save_mounts = λ old new override s. (ok tt, s);
}

deletes_mount :
    delete drives store (λ n s. (ok true, s)) (codes "a/b") (reload_mounts rows, [])
    ≡ (ok tt, ([], []))
unfolding delete reload_mounts
deletes_mount = refl

moves :
    (move drives store (λ n s. (ok true, s)) (entry_at (codes "x/c")) (codes "x/d") true ([], [])).1
    ≡ ([], codes "d" ∷ [])
unfolding move resolve_mount
moves = refl
