-- ===== src/PermMap/Effective.antt =====
-- What NewPermMap stores: for a subject and the segments of a path, the last permission of the list
-- with that subject and those segments.
use solocoder_6069_go_drive.Common.{
  Bool, true, false, ◌&&◌, List, [], ◌∷◌, foldl, ◌≡◌, refl, sym, ap, ◌∙◌, if◌then◌else◌, Str,
  str_eq, str_eq_iff, Option, none, some, arith, Bool-cases, inl, inr,
}
use solocoder_6069_go_drive.PathTree.{add, path_segments}
use solocoder_6069_go_drive.PathTree.Lookup.{
  value_at, value_at-none, value_at-add, value_at-new_node, segments_eq,
}
use solocoder_6069_go_drive.Permission.{PathPermission, PathPermItem}
use solocoder_6069_go_drive.PermMap.{
  PermMap, PermTree, find_tree, put_tree, perm_item, tree_or_new, add_permission, new_perm_map,
}

-- The permission is for the subject and for a path of these segments.
unfoldable pub is_for : Str → List Str → PathPermission → Bool
is_for s ts p = str_eq p.subject s && segments_eq (path_segments p.path) ts

-- The item of the last permission for the subject and the segments, or else `seen`.
unfoldable pub last_item :
    Str → List Str → Option PathPermItem → List PathPermission → Option PathPermItem
last_item s ts seen [] = seen
last_item s ts seen (p ∷ ps) =
    last_item s ts (if is_for s ts p then some (perm_item p) else seen) ps

pub find_tree-put_tree :
    (k j : Str) (t : PermTree) (pm : PermMap)
    → find_tree j (put_tree k t pm) ≡ (if str_eq k j then some t else find_tree j pm)
unfolding find_tree put_tree
find_tree-put_tree k j t [] = refl
find_tree-put_tree k j t ((i, u) ∷ pm) =
    ground (arith, str_eq_iff i k, str_eq_iff i j, str_eq_iff k j, find_tree-put_tree k j t pm)

value_at-tree_or_new :
    (ts : List Str) (o : Option PermTree)
    → value_at none ts (some (tree_or_new o)) ≡ value_at none ts o
unfolding tree_or_new
value_at-tree_or_new ts none = value_at-new_node none ts [] ∙ sym (value_at-none none ts)
value_at-tree_or_new ts (some t) = refl

-- One round of NewPermMap.
value_at-add_permission :
    (s : Str) (ts : List Str) (pm : PermMap) (p : PathPermission)
    → value_at none ts (find_tree s (add_permission pm p))
      ≡ (if is_for s ts p then some (perm_item p) else value_at none ts (find_tree s pm))
value_at-add_permission s ts pm p =
    rw (add_permission_lem, find_tree-put_tree)
      (elim (Bool-cases (str_eq p.subject s)) [
        | inl e ↦ rw e (
            value_at-add none p.path ts (some (perm_item p)) (tree_or_new (find_tree p.subject pm))
            ∙ ap (λ x. if segments_eq (path_segments p.path) ts then some (perm_item p) else x)
                (value_at-tree_or_new ts (find_tree p.subject pm)
                  ∙ ap (λ k. value_at none ts (find_tree k pm)) ((str_eq_iff p.subject s).0 e))
            ∙ ap (λ b. if b then some (perm_item p) else value_at none ts (find_tree s pm))
                (sym (same_subject e)))
        | inr e ↦ rw (e, other_subject e)
      ])
  where
    same_subject : str_eq p.subject s ≡ true → is_for s ts p ≡ segments_eq (path_segments p.path) ts
    same_subject e = unfold is_for in rw e

    other_subject : str_eq p.subject s ≡ false → is_for s ts p ≡ false
    other_subject e = unfold is_for in rw e

    add_permission_lem :
        add_permission pm p
        ≡ put_tree p.subject
            (add none p.path (some (perm_item p)) (tree_or_new (find_tree p.subject pm)))
            pm
    add_permission_lem = unfold add_permission in refl

foldl-last_item :
    (s : Str) (ts : List Str) (ps : List PathPermission) (pm : PermMap)
    → value_at none ts (find_tree s (foldl add_permission pm ps))
      ≡ last_item s ts (value_at none ts (find_tree s pm)) ps
unfolding last_item
foldl-last_item s ts [] pm = refl
foldl-last_item s ts (p ∷ ps) pm =
    foldl-last_item s ts ps (add_permission pm p)
    ∙ ap (λ o. last_item s ts o ps) (value_at-add_permission s ts pm p)

-- The tree of each subject holds, at each list of segments, the last permission of the list for
-- that subject and those segments, and nothing else.
pub new_perm_map-last_item :
    (s : Str) (ts : List Str) (ps : List PathPermission)
    → value_at none ts (find_tree s (new_perm_map ps)) ≡ last_item s ts none ps
unfolding new_perm_map
new_perm_map-last_item s ts ps =
    foldl-last_item s ts ps []
    ∙ ap (λ o. last_item s ts o ps) (unfold find_tree in value_at-none none ts)
