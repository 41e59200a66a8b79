-- ===== src/PathTree/Examples.antt =====
-- The path tree's theorems at a concrete tree, and tests of its functions.
use solocoder_6069_go_drive.Common.{ℕ, [], ◌∷◌, ◌≡◌, refl, codes, Option, none, some, if◌then◌else◌}
use solocoder_6069_go_drive.PathTree.{
  Node, node, nil, child, new_node, add, get, path_segments, add_children, child_of, put_child,
  child_or_new,
}
use solocoder_6069_go_drive.Paths.{contains}
use solocoder_6069_go_drive.PathTree.Lookup.{segments_eq}
use solocoder_6069_go_drive.PathTree.Walk.{found_value, get-add}

abbrev empty : Node (Option ℕ)
empty = node [] none nil

added :
    add none (codes "/a//b") (some 7) empty
    ≡ node [] none (
        child
          (codes "a")
          (node (codes "a") none (child (codes "b") (node (codes "b") (some 7) nil) nil))
          nil)
unfolding add path_segments child_of put_child child_or_new new_node
added = refl

names_with_slash : add_children {T = Option ℕ} none ((codes "a/b", none) ∷ []) empty ≡ none
unfolding add_children contains
names_with_slash = refl

get-add_example :
    found_value none (get (codes "a/./b") (add none (codes "/a//b") (some 7) empty)) ≡ (
      if segments_eq (path_segments (codes "/a//b")) (path_segments (codes "a/./b"))
      then some 7
      else found_value none (get (codes "a/./b") empty))
get-add_example = get-add none (codes "/a//b") (codes "a/./b") (some 7) empty
