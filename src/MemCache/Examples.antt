-- ===== src/MemCache/Examples.antt =====
-- A cache of a drive n, with the files of one directory.
use solocoder_6069_go_drive.Common.{
  str_eq, arith, false, List, [], ◌∷◌, ◌≡◌, ◌≢◌, refl, inl, inr, All, Str, codes, none, some,
  if◌then◌else◌,
}
use solocoder_6069_go_drive.Paths.{path_base, contains}
use solocoder_6069_go_drive.KvCache.{is_past, expiry}
use solocoder_6069_go_drive.PathTree.{
  child_of, put_child, child_or_new, new_node, node, nil, path_segments,
}
use solocoder_6069_go_drive.MemCache.{
  RemoteEntry, Tree, no_data, serialize_entry, get_entry_raw, put_entry, put_children,
  get_children_raw, clean_tree, evict_all,
}
use solocoder_6069_go_drive.MemCache.Entries.{same_path, get_entry_raw-put_entry}
use solocoder_6069_go_drive.MemCache.Cleaning.{IsTreeOfMaps, get_entry_raw-clean_tree}
use solocoder_6069_go_drive.MemCache.Listing.{
  IsName, names_of, HasDistinct, unexpired, get_children_raw-put_children,
}

abbrev empty : Tree
empty = node [] no_data nil

abbrev file : Str → RemoteEntry
file path = record { mod_time = 1; size = 2; path = path; is_folder = false; entry_data = [] }

abbrev a_b : Tree
a_b = put_entry 10 (codes "n") (file (codes "a/b")) 5 empty

get_entry_raw-put_entry_example :
    get_entry_raw 15
      (codes "n")
      (codes "a/b")
      (put_entry 10 (codes "n") (file (codes "a/b")) 5 empty)
    ≡ (if same_path (codes "n") (codes "a/b") (codes "a/b")
        then (if is_past (expiry 10 5) 15
            then none
            else some (serialize_entry (file (codes "a/b"))))
        else get_entry_raw 15 (codes "n") (codes "a/b") empty)
get_entry_raw-put_entry_example =
    get_entry_raw-put_entry 10 15 (codes "n") (codes "a/b") (file (codes "a/b")) 5 empty

a_b-IsTreeOfMaps : IsTreeOfMaps a_b
unfolding put_entry path_segments child_of put_child child_or_new new_node
a_b-IsTreeOfMaps = (refl, (refl, (refl, tt, tt), tt), tt)

get_entry_raw-clean_tree_example :
    get_entry_raw 12 (codes "n") (codes "a/b") (clean_tree 12 a_b)
    ≡ get_entry_raw 12 (codes "n") (codes "a/b") a_b
get_entry_raw-clean_tree_example =
    get_entry_raw-clean_tree 12 (codes "n") (codes "a/b") a_b a_b-IsTreeOfMaps

abbrev two_files : List RemoteEntry
two_files = file (codes "a/b") ∷ file (codes "a/c") ∷ []

two_files-IsName : All (λ e. IsName (path_base e.path)) two_files
unfolding path_base path_segments contains
two_files-IsName = (
  record { one_segment = refl; no_slash = refl },
  (record { one_segment = refl; no_slash = refl }, tt),
)

b_not_c : codes "b" ≢ codes "c"
b_not_c e = let no : ⊥ = grind arith in no

two_files-HasDistinct : HasDistinct (names_of two_files)
unfolding path_base str_eq names_of
two_files-HasDistinct = (λ e. elim e [ inl p ↦ b_not_c p | inr p ↦ p ], ((λ e. e), tt))

get_children_raw-put_children_example :
    (after : Tree) × (put_children 10 (codes "n") (codes "a") two_files 5 a_b ≡ some after)
    × (get_children_raw 15 (codes "n") (codes "a") after ≡ unexpired (expiry 10 5) 15 two_files)
get_children_raw-put_children_example =
    get_children_raw-put_children 10 15 (codes "n") (codes "a") two_files 5 a_b two_files-IsName
      two_files-HasDistinct

-- An empty directory is remembered for longer than its ttl.
empty_forever :
    (after : Tree) × (put_children 10 (codes "n") (codes "a") [] 5 empty ≡ some after)
    × (get_children_raw 1000 (codes "n") (codes "a") after ≡ some [])
unfolding unexpired
empty_forever = get_children_raw-put_children 10 1000 (codes "n") (codes "a") [] 5 empty tt tt

-- With an empty namespace Evict with the descendants has no parent to remove from.
panics : evict_all [] empty ≡ none
unfolding evict_all path_segments
panics = refl
