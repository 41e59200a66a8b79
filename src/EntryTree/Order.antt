-- ===== src/EntryTree/Order.antt =====
-- common/drive_util/utils.go: VisitEntriesTree against FlattenEntriesTree.
use solocoder_6069_go_drive.Common.{
  false, List, [], ◌∷◌, ◌++◌, map, ◌≡◌, refl, sym, ◌∙◌, ap, append_assoc, append-nil,
}
use solocoder_6069_go_drive.Errors.{Result, ok, err, then_do}
use solocoder_6069_go_drive.Drive.{Entry}
use solocoder_6069_go_drive.EntryTree.{
  EntryTreeNode, EntryTrees, entry_tree, no_trees, and_tree, entry_of, append_unless, flatten_first,
  flatten_first_all, flatten_entries_tree, visit_entries_tree, visit_entries_trees,
}

-- The entries one after the other, up to the first error.
unfoldable pub visit_each :
    {S : Type 0} → (Entry → S → Result {0} Unit × S) → List Entry → S → Result {0} Unit × S
unfolding then_do
visit_each f [] s = (ok tt, s)
visit_each f (e ∷ es) s = then_do (f e s) (λ u s'. visit_each f es s')

-- The entries of trees, each in front of those below it.
in_order : EntryTrees → List Entry
in_order no_trees = []
in_order (and_tree (entry_tree e kids x) ts) = e ∷ (in_order kids ++ in_order ts)

abbrev pub NoneExcluded : EntryTrees → Type 0
NoneExcluded no_trees = Unit
NoneExcluded (and_tree (entry_tree e kids x) ts) = (x ≡ false) × NoneExcluded kids × NoneExcluded ts

then_do_assoc :
    {A B C S : Type 0} (r : Result A × S) (g : A → S → Result B × S) (h : B → S → Result C × S)
    → then_do (then_do r g) h ≡ then_do r (λ a t. then_do (g a t) h)
unfolding then_do
then_do_assoc (ok a, s) g h = refl
then_do_assoc (err x, s) g h = refl

then_do_cong :
    {A B S : Type 0} (r : Result A × S) (g h : A → S → Result B × S)
    → ((a : A) (t : S) → g a t ≡ h a t)
    → then_do r g ≡ then_do r h
unfolding then_do
then_do_cong (ok a, s) g h e = e a s
then_do_cong (err x, s) g h e = refl

visit_each-append :
    {S : Type 0} (f : Entry → S → Result {0} Unit × S) (es fs : List Entry) (s : S)
    → visit_each f (es ++ fs) s ≡ then_do (visit_each f es s) (λ u t. visit_each f fs t)
unfolding visit_each
visit_each-append f [] fs s = unfold then_do in refl
visit_each-append f (e ∷ es) fs s =
    then_do_cong (f e s) (λ u t. visit_each f (es ++ fs) t)
      (λ u t. then_do (visit_each f es t) (λ v t'. visit_each f fs t'))
      (λ u t. visit_each-append f es fs t)
    ∙ sym (then_do_assoc (f e s) (λ u t. visit_each f es t) (λ v t. visit_each f fs t))

visit_entries_trees_lem :
    {S : Type 0} (f : Entry → S → Result {0} Unit × S) (ts : EntryTrees) (s : S)
    → visit_entries_trees f ts s ≡ visit_each f (in_order ts) s
unfolding visit_entries_trees in_order visit_each
visit_entries_trees_lem f no_trees s = refl
visit_entries_trees_lem f (and_tree (entry_tree e kids x) ts) s =
    then_do_assoc (f e s) (λ u t. visit_entries_trees f kids t) (λ u t. visit_entries_trees f ts t)
    ∙ then_do_cong (f e s)
        (λ u t. then_do (visit_entries_trees f kids t) (λ v t'. visit_entries_trees f ts t'))
        (λ u t. visit_each f (in_order kids ++ in_order ts) t)
        (λ u t.
          then_do_cong (visit_entries_trees f kids t) (λ v t'. visit_entries_trees f ts t')
            (λ v t'. visit_each f (in_order ts) t') (λ v t'. visit_entries_trees_lem f ts t')
          ∙ ap (λ r. then_do r (λ v t'. visit_each f (in_order ts) t'))
              (visit_entries_trees_lem f kids t)
          ∙ sym (visit_each-append f (in_order kids) (in_order ts) t))

map-append_one :
    (result : List EntryTreeNode) (t : EntryTreeNode)
    → map entry_of (result ++ (t ∷ [])) ≡ map entry_of result ++ (entry_of t ∷ [])
map-append_one [] t = refl
map-append_one (r ∷ result) t = ap (λ x. entry_of r ∷ x) (map-append_one result t)

flatten_first_all_lem :
    (ts : EntryTrees) (result : List EntryTreeNode)
    → NoneExcluded ts
    → map entry_of (flatten_first_all ts result) ≡ map entry_of result ++ in_order ts
unfolding flatten_first_all in_order append_unless entry_of
flatten_first_all_lem no_trees result n = sym (append-nil (map entry_of result))
flatten_first_all_lem (and_tree (entry_tree e kids x) ts) result (ex, nk, nt) =
    flatten_first_all_lem ts (flatten_first_all kids (append_unless x (entry_tree e kids x) result))
      nt
    ∙ ap (λ es. es ++ in_order ts)
        (flatten_first_all_lem kids (append_unless x (entry_tree e kids x) result) nk
          ∙ ap (λ es. es ++ in_order kids)
              (ap (λ b. map entry_of (append_unless b (entry_tree e kids x) result)) ex
                ∙ map-append_one result (entry_tree e kids x)))
    ∙ append_assoc (map entry_of result ++ (e ∷ [])) (in_order kids) (in_order ts)
    ∙ append_assoc (map entry_of result) (e ∷ []) (in_order kids ++ in_order ts)

-- For a tree of which nothing is excluded, VisitEntriesTree does the same as visiting the entries of
-- the list of FlattenEntriesTree, not deep first, one after the other up to the first error.
pub visit_entries_tree-flatten_entries_tree :
    {S : Type 0} (f : Entry → S → Result {0} Unit × S) (e : Entry) (kids : EntryTrees) (s : S)
    → NoneExcluded kids
    → visit_entries_tree f (entry_tree e kids false) s
      ≡ visit_each f (map entry_of (flatten_entries_tree (entry_tree e kids false) false)) s
unfolding visit_entries_tree visit_each flatten_entries_tree flatten_first append_unless entry_of
visit_entries_tree-flatten_entries_tree f e kids s n =
    then_do_cong (f e s) (λ u t. visit_entries_trees f kids t)
      (λ u t. visit_each f (in_order kids) t) (λ u t. visit_entries_trees_lem f kids t)
    ∙ ap (λ es. visit_each f es s)
        (sym (flatten_first_all_lem kids (entry_tree e kids false ∷ []) n))
