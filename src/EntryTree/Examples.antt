-- ===== src/EntryTree/Examples.antt =====
-- A directory with two files.
use solocoder_6069_go_drive.Common.{ℕ, ◌+◌, true, false, [], ◌∷◌, map, codes, ◌≡◌, refl}
use solocoder_6069_go_drive.Errors.{Result, ok}
use solocoder_6069_go_drive.Drive.{Entry, base_entry}
use solocoder_6069_go_drive.Drive.Counting.{counting, entry_at}
use solocoder_6069_go_drive.EntryTree.{
  EntryTrees, entry_tree, no_trees, and_tree, entry_of, flatten_entries_tree, visit_entries_tree,
  copy_all,
}
use solocoder_6069_go_drive.EntryTree.Order.{visit_each, visit_entries_tree-flatten_entries_tree}

abbrev top : Entry
top = base_entry (record {
  entry_path = codes "d";
  is_directory = true;
  byte_size = 0;
  can_read = true;
  can_write = true;
})

abbrev files : EntryTrees
files =
    and_tree (entry_tree (entry_at (codes "d/a")) no_trees false)
      (and_tree (entry_tree (entry_at (codes "d/b")) no_trees false) no_trees)

flattens :
    (map entry_of (flatten_entries_tree (entry_tree top files false) false)
      ≡ top ∷ entry_at (codes "d/a") ∷ entry_at (codes "d/b") ∷ [])
    × (map entry_of (flatten_entries_tree (entry_tree top files false) true)
        ≡ entry_at (codes "d/a") ∷ entry_at (codes "d/b") ∷ top ∷ [])
unfolding flatten_entries_tree entry_of
flattens = (refl, refl)

abbrev count : Entry → ℕ → Result {0} Unit × ℕ
count e s = (ok tt, s + 1)

visit_entries_tree-flatten_entries_tree_example :
    visit_entries_tree count (entry_tree top files false) 0
    ≡ visit_each count (map entry_of (flatten_entries_tree (entry_tree top files false) false)) 0
visit_entries_tree-flatten_entries_tree_example =
    visit_entries_tree-flatten_entries_tree count top files 0 ((refl, tt, (refl, tt, tt)))

-- A file is copied over a file.
copies_file :
    (copy_all counting
      (λ s. ok tt)
      (λ e to s. (ok tt, s + 1))
      (λ e all s. (ok tt, s))
      (entry_tree (entry_at (codes "d")) no_trees false)
      (codes "x")
      false
      0)
    ≡ (ok true, 1)
unfolding copy_all
copies_file = refl
