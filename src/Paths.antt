-- ===== src/Paths.antt =====
-- common/utils/utils.go: the functions on entry paths, over the parts of Go's `path` and `strings`
-- packages that they call. A path is the list of the code points of a valid UTF-8 string.
mod GoPath
pub mod Segments
pub mod Clean
pub mod Shape
pub mod Plain
pub mod Size
pub mod Ancestors
mod Examples
use solocoder_6069_go_drive.Common.{
  ℕ, zero, suc, ◌+◌, Bool, true, false, not, ◌&&◌, ◌||◌, List, [], ◌∷◌, ◌++◌, length, ltb, leb,
  ◌==◌, if◌then◌else◌, Str, codes, str_eq, has_prefix, Option, none, some,
}
use GoPath.{slash, dot, trim_space, clean, base, dir, before_last}
unfoldable pub use GoPath.*

-- IsRootPath
unfoldable pub is_root_path : Str → Bool
is_root_path [] = true
is_root_path (c ∷ s) = false

-- unsafePathCharsRegexp: [\x00-\x1f\x7f-\x9f]
unfoldable pub is_unsafe_char : ℕ → Bool
is_unsafe_char c = leb c 0x1f || (leb 0x7f c && leb c 0x9f)

-- unsafePathCharsRegexp.ReplaceAllLiteralString(path, "")
unfoldable pub remove_unsafe : Str → Str
unfolding is_unsafe_char
remove_unsafe [] = []
remove_unsafe (c ∷ s) = let rest = remove_unsafe s in if is_unsafe_char c then rest else c ∷ rest

-- strings.TrimPrefix(path, "/")
unfoldable pub trim_slash : Str → Str
trim_slash [] = []
trim_slash (c ∷ s) = if c == slash then s else c ∷ s

-- for strings.HasPrefix(path, "../") { path = path[3:] }
unfoldable pub strip_parents : Str → Str
strip_parents (a ∷ b ∷ c ∷ s) =
    let rest = strip_parents s in
    if (a == dot) && ((b == dot) && (c == slash)) then rest else a ∷ b ∷ c ∷ s
strip_parents s = s

-- if path == "." { path = "" }
unfoldable pub drop_dot : Str → Str
drop_dot s = if str_eq s (dot ∷ []) then [] else s

-- CleanPath
unfoldable pub clean_path : Str → Str
unfolding remove_unsafe trim_slash strip_parents drop_dot trim_space clean
clean_path path = drop_dot (strip_parents (trim_slash (clean (remove_unsafe (trim_space path)))))

-- PathBase
unfoldable pub path_base : Str → Str
unfolding base
path_base path = let b = base path in if str_eq b (slash ∷ []) || str_eq b (dot ∷ []) then [] else b

-- PathParent
unfoldable pub path_parent : Str → Str
unfolding clean_path dir
path_parent path =
    let parent = dir (clean_path path) in
    if str_eq parent (slash ∷ []) || str_eq parent (dot ∷ []) then [] else parent

-- IsPathParent
unfoldable pub is_path_parent : Str → Str → Bool
unfolding clean_path is_root_path
is_path_parent path parent =
    let p = clean_path path in
    let q = clean_path parent in
    if is_root_path q then not (is_root_path p) else has_prefix p (q ++ (slash ∷ []))

-- The slashes of a text: len(slashPattern.FindAll([]byte(path), -1)).
unfoldable pub count_slashes : Str → ℕ
count_slashes [] = 0
count_slashes (c ∷ s) = (if c == slash then 1 else 0) + count_slashes s

-- PathDepth
unfoldable pub path_depth : Str → ℕ
unfolding clean_path is_root_path count_slashes
path_depth path = let p = clean_path path in if is_root_path p then 0 else count_slashes p + 1

-- The loop of PathParentTree; `none` when the fuel runs out.
unfoldable pub parents_loop : ℕ → Str → Option (List Str)
unfolding path_parent is_root_path
parents_loop zero path = none
parents_loop (suc fuel) path = elim (is_root_path path) [
  | true ↦ some ([] ∷ [])
  | false ↦ elim (parents_loop fuel (path_parent path)) [
    | none ↦ none
    | some rest ↦ some (path ∷ rest)
  ]
]

-- PathParentTree: the path and its ancestors, nearest first, down to the root "".
unfoldable pub path_parent_tree : Str → Option (List Str)
unfolding parents_loop clean_path
path_parent_tree path = let p = clean_path path in parents_loop (suc (length p)) p

-- PathName: the base name without its last extension.
unfoldable pub path_name : Str → Str
unfolding path_base before_last
path_name name = before_last dot (path_base name)
