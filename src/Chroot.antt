-- ===== src/Chroot.antt =====
-- drive/chroot.go: the jail that confines a session to a root path, with an optional set of names
-- visible in it.
pub mod Jail
mod Examples
use solocoder_6069_go_drive.Common.{
  ◌||◌, Bool, true, false, not, ◌&&◌, List, [], ◌∷◌, ◌++◌, length, drop, if◌then◌else◌, Str, str_eq,
  has_prefix, Option, none, some, ◌==◌,
}
use solocoder_6069_go_drive.Errors.{Result, ok, err, not_found}
use solocoder_6069_go_drive.Paths.{slash, clean_path, is_root_path, path_base, join_path, contains}

pub record Chroot : Type 0 where
  pub root : Str
  pub name_filter : Option (List Str)

-- NewChroot
unfoldable pub new_chroot : Str → List Str → Chroot
new_chroot root [] = record { root = root; name_filter = none }
new_chroot root (e ∷ es) = record { root = root; name_filter = some (e ∷ es) }

-- _, ok := set[name]
unfoldable pub has_name : Str → List Str → Bool
has_name n [] = false
has_name n (m ∷ ms) = str_eq m n || has_name n ms

-- firstNode[:strings.Index(firstNode, "/")]
unfoldable pub first_node : Str → Str
first_node [] = []
first_node (c ∷ s) = let rest = first_node s in if c == slash then [] else c ∷ rest

-- May the (cleaned) path be seen through the name filter?
unfoldable pub is_visible : Option (List Str) → Str → Bool
unfolding has_name first_node is_root_path
is_visible none path = true
is_visible (some names) path = is_root_path path || has_name (first_node path) names

-- Chroot.WrapPath
unfoldable pub wrap_path : Chroot → Str → Result Str
unfolding is_visible
wrap_path c path =
    let p = clean_path path in
    if is_visible c.name_filter p then ok (join_path c.root p) else err not_found

-- Chroot.UnwrapPath
unfoldable pub unwrap_path : Chroot → Str → Str
unwrap_path c path =
    if not (str_eq path c.root) && not (has_prefix path (c.root ++ (slash ∷ [])))
    then path
    else clean_path (drop (length c.root) path)

module _ {ℓ} {E : Type ℓ} (c : Chroot) (path_of : E → Str) where
  -- The entries whose unwrapped base name is in the set.
  unfoldable pub keep_named : List Str → List E → List E
  keep_named names [] = []
  keep_named names (e ∷ es) =
      let rest = keep_named names es in
      if has_name (path_base (unwrap_path c (path_of e))) names then e ∷ rest else rest

  -- Chroot.FilterEntries, on the paths of the entries: only the listing of the root is filtered.
  unfoldable pub filter_entries : Str → List E → List E
  unfolding keep_named
  filter_entries at entries = elim c.name_filter [
    | none ↦ entries
    | some names ↦ if is_root_path at then keep_named names entries else entries
  ]
