-- ===== src/PathTree.antt =====
-- common/utils/path_tree.go: a tree with a value at every node, reached by the segments of a path.
-- A Go node is a pointer; here an operation returns the tree that the store holds afterwards. The
-- mutexes are not modelled: each operation is one step.
pub mod Lookup
pub mod Walk
mod Examples
use solocoder_6069_go_drive.Common.{
  Bool, true, false, ◌||◌, List, [], ◌∷◌, ◌++◌, if◌then◌else◌, Str, str_eq, split, Option, none,
  some,
}
use solocoder_6069_go_drive.Paths.{slash, clean_path, contains}

-- PathTreeNode; the children map is a list without repeated keys.
mutual
  pub data Node {ℓ} (T : Type ℓ) : Type ℓ where
    node : Str → T → Children T → Node T

  pub data Children {ℓ} (T : Type ℓ) : Type ℓ where
    nil : Children T
    child : Str → Node T → Children T → Children T

-- The segments that Get and Create walk: none for the root path "", else the parts of the cleaned
-- path. CleanPath may return "" here too, and then there is one empty segment.
unfoldable pub path_segments : Str → List Str
unfolding clean_path split
path_segments [] = []
path_segments (c ∷ s) = split slash (clean_path (c ∷ s))

module _ {ℓ} {T : Type ℓ} where
  -- node.Key(), node.Data, node.children
  abbrev pub key : Node T → Str
  key (node k d c) = k

  abbrev pub value : Node T → T
  value (node k d c) = d

  abbrev pub children : Node T → Children T
  children (node k d c) = c

  -- t, ok := node.children[k]
  unfoldable pub child_of : Str → Children T → Option (Node T)
  child_of k nil = none
  child_of k (child j n c) = if str_eq j k then some n else child_of k c

  -- node.children[k] = t
  unfoldable pub put_child : Str → Node T → Children T → Children T
  put_child k n nil = child k n nil
  put_child k n (child j m c) =
      let rest = put_child k n c in if str_eq j k then child k n c else child j m rest

  -- delete(n.children, key)
  unfoldable pub delete_child : Str → Children T → Children T
  delete_child k nil = nil
  delete_child k (child j m c) =
      let rest = delete_child k c in if str_eq j k then rest else child j m rest

  -- MapValues(n.children)
  unfoldable pub child_nodes : Children T → List (Node T)
  child_nodes nil = []
  child_nodes (child j n c) = n ∷ child_nodes c

  -- A round of the loop of GetCb: the callback on the node, and the next round at its child.
  unfoldable pub go_down :
      Node T
      → (Node T → List (Node T) × Option (Node T × Option (Node T)))
      → Option (Node T)
      → List (Node T) × Option (Node T × Option (Node T))
  go_down n next none = (n ∷ [], none)
  go_down n next (some t) = let (seen, found) = next t in (n ∷ seen, found)

  -- The loop of GetCb: the nodes handed to the callback, and the node found with its parent.
  unfoldable pub get_loop :
      List Str → Option (Node T) → Node T → List (Node T) × Option (Node T × Option (Node T))
  unfolding go_down
  get_loop [] parent n = (n ∷ [], some (n, parent))
  get_loop (s ∷ ss) parent (node k d c) =
      go_down (node k d c) (get_loop ss (some (node k d c))) (child_of s c)

  -- GetCb, Get
  unfoldable pub get_cb : Str → Node T → List (Node T) × Option (Node T × Option (Node T))
  unfolding get_loop
  get_cb path n = get_loop (path_segments path) none n

  unfoldable pub get : Str → Node T → Option (Node T × Option (Node T))
  unfolding get_cb
  get path n = (get_cb path n).1

  module _ (zero_value : T) where
    -- newPathTreeNode
    unfoldable pub new_node : Str → Node T
    new_node k = node k zero_value nil

    -- The child that Create steps into: the one at hand, or a new one.
    unfoldable pub child_or_new : Str → Children T → Node T
    child_or_new k c = elim (child_of k c) [ none ↦ new_node k | some n ↦ n ]

    -- The loop of Create.
    unfoldable pub create_loop : List Str → Node T → Node T
    create_loop [] n = n
    create_loop (s ∷ ss) (node k d c) = node k d (put_child s (create_loop ss (child_or_new s c)) c)

    -- Create
    unfoldable pub create : Str → Node T → Node T
    unfolding create_loop
    create path n = create_loop (path_segments path) n

  -- A write through the pointer to a child, where there is one.
  unfoldable pub update_child : (Node T → Node T) → Str → Option (Node T) → Children T → Children T
  update_child f k none c = c
  update_child f k (some n) c = put_child k (f n) c

  -- node.Data = data, for the node at the segments.
  unfoldable pub set_value : List Str → T → Node T → Node T
  unfolding update_child
  set_value [] d (node k e c) = node k d c
  set_value (s ∷ ss) d (node k e c) = node k e (update_child (set_value ss d) s (child_of s c) c)

  -- Add: Create, then a write to the node that it returned.
  unfoldable pub add : T → Str → T → Node T → Node T
  unfolding create set_value
  add zero_value path d n = set_value (path_segments path) d (create zero_value path n)

-- Visit: the node, then its descendants.
unfoldable mutual
  pub visit {ℓ} : {T : Type ℓ} → Node T → List (Node T)
  visit (node k d c) = node k d c ∷ visit_children c

  pub visit_children {ℓ} : {T : Type ℓ} → Children T → List (Node T)
  visit_children nil = []
  visit_children (child k n c) = visit n ++ visit_children c

module _ {ℓ} {T : Type ℓ} where
  -- RemoveChild
  unfoldable pub remove_child : Str → Node T → Node T
  unfolding delete_child
  remove_child s (node k d c) = node k d (delete_child s c)

  -- The loop of AddChildren: each entry becomes a new node, which replaces a child of that name.
  unfoldable pub put_children : T → List (Str × T) → Children T → Children T
  unfolding put_child new_node
  put_children zero_value [] c = c
  put_children zero_value ((s, d) ∷ rest) c =
      put_children zero_value rest (put_child s (node s d nil) c)

  unfoldable pub any_slash : List (Str × T) → Bool
  any_slash [] = false
  any_slash ((s, d) ∷ rest) = contains slash s || any_slash rest

  -- AddChildren; `none` is the panic on a name with a slash.
  unfoldable pub add_children : T → List (Str × T) → Node T → Option (Node T)
  unfolding put_children any_slash
  add_children zero_value entries (node k d c) =
      if any_slash entries then none else some (node k d (put_children zero_value entries c))
