-- ===== src/MountRules/Tree.antt =====
-- Which rules the tree of a mount shows.
use solocoder_6069_go_drive.Common.{
  List, [], ◌∷◌, foldl, ◌≡◌, ◌≢◌, refl, ◌∙◌, inl, inr, All, Str, str_eq, str_eq_iff, Option, none,
  some, map_get, map_set, map_get-map_set, Bool-cases,
}
use solocoder_6069_go_drive.Paths.{path_parent}
use solocoder_6069_go_drive.MountRules.{
  PathMountRule, MountPermissionNode, NodeMap, empty_node, link_node, linked, append_rule,
  tree_round, get_tree,
}

-- The path has two or more segments.
abbrev pub IsDeep : Str → Type 0
IsDeep p = (p ≢ []) × (path_parent p ≢ [])

map_set-root :
    (p : Str) (n : MountPermissionNode) (m : NodeMap)
    → p ≢ []
    → map_get [] (map_set p n m) ≡ map_get [] m
map_set-root p n m d = map_get-map_set p [] n m ∙ elim (Bool-cases (str_eq p [])) [
  | inl e ↦ absurd (d ((str_eq_iff p []).0 e))
  | inr e ↦ rw e refl
]

linked-root :
    (p : Str) (o : Option MountPermissionNode) (m : NodeMap)
    → IsDeep p
    → map_get [] (linked p o m) ≡ map_get [] m
unfolding linked link_node
linked-root p none m (d, e) = map_set-root (path_parent p) _ _ e ∙ map_set-root p empty_node m d
linked-root p (some n) m h = refl

tree_round-root :
    (m : NodeMap) (r : PathMountRule) → IsDeep r.path → map_get [] (tree_round m r) ≡ map_get [] m
unfolding tree_round append_rule
tree_round-root m r h = map_set-root r.path _ _ h.0 ∙ linked-root r.path (map_get r.path m) m h

foldl-root :
    (rules : List PathMountRule) (m : NodeMap)
    → All (λ r. IsDeep r.path) rules
    → map_get [] (foldl tree_round m rules) ≡ map_get [] m
foldl-root [] m h = refl
foldl-root (r ∷ rs) m (d, h) = foldl-root rs (tree_round m r) h ∙ tree_round-root m r d

-- Where every rule has a path of two or more segments, the root of the tree that GetTree returns has
-- no rules and no children: none of the rules is shown.
pub get_tree-root :
    (rules : List PathMountRule)
    → All (λ r. IsDeep r.path) rules
    → map_get [] (get_tree rules) ≡ some empty_node
unfolding get_tree
get_tree-root rules h = foldl-root rules (([], empty_node) ∷ []) h ∙ (unfold map_get str_eq in refl)
