-- ===== src/EntryTree.antt =====
-- common/drive_util/utils.go: trees of entries, which are walked, listed and copied. The state S is
-- that of the storages; ctx.Err, doCopy and the callback are parameters.
pub mod Order
mod Examples
use solocoder_6069_go_drive.Common.{
  Bool, true, false, ◌&&◌, List, [], ◌∷◌, ◌++◌, if◌then◌else◌, Str, Option, none, some,
}
use solocoder_6069_go_drive.Errors.{
  Result, ok, err, Error, not_allowed, is_not_found, after, then_do,
}
use solocoder_6069_go_drive.Drive.{Entry, Drive, is_dir, path_of}
use solocoder_6069_go_drive.Paths.{clean_path, join_path, path_base}

-- EntryTreeNode: the entry, the children, and is it excluded?
mutual
  pub data EntryTreeNode : Type 0 where
    entry_tree : Entry → EntryTrees → Bool → EntryTreeNode

  pub data EntryTrees : Type 0 where
    no_trees : EntryTrees
    and_tree : EntryTreeNode → EntryTrees → EntryTrees

unfoldable pub entry_of : EntryTreeNode → Entry
entry_of (entry_tree e kids excluded) = e

-- result = append(result, root), unless the root is excluded
unfoldable pub append_unless : Bool → EntryTreeNode → List EntryTreeNode → List EntryTreeNode
append_unless true root result = result
append_unless false root result = result ++ (root ∷ [])

-- flattenEntriesTree, by what is true of deepFirst
unfoldable mutual
  unfolding append_unless

  pub flatten_deep : EntryTreeNode → List EntryTreeNode → List EntryTreeNode
  flatten_deep (entry_tree e kids excluded) result =
      append_unless excluded (entry_tree e kids excluded) (flatten_deep_all kids result)

  pub flatten_deep_all : EntryTrees → List EntryTreeNode → List EntryTreeNode
  flatten_deep_all no_trees result = result
  flatten_deep_all (and_tree t ts) result = flatten_deep_all ts (flatten_deep t result)

unfoldable mutual
  unfolding append_unless

  pub flatten_first : EntryTreeNode → List EntryTreeNode → List EntryTreeNode
  flatten_first (entry_tree e kids excluded) result =
      flatten_first_all kids (append_unless excluded (entry_tree e kids excluded) result)

  pub flatten_first_all : EntryTrees → List EntryTreeNode → List EntryTreeNode
  flatten_first_all no_trees result = result
  flatten_first_all (and_tree t ts) result = flatten_first_all ts (flatten_first t result)

-- FlattenEntriesTree
unfoldable pub flatten_entries_tree : EntryTreeNode → Bool → List EntryTreeNode
unfolding flatten_deep flatten_first
flatten_entries_tree root deep_first =
    if deep_first then flatten_deep root [] else flatten_first root []

-- VisitEntriesTree
unfoldable mutual
  unfolding then_do

  pub visit_entries_tree :
      {S : Type 0} → (Entry → S → Result {0} Unit × S) → EntryTreeNode → S → Result {0} Unit × S
  visit_entries_tree f (entry_tree e kids excluded) s =
      then_do (f e s) (λ u s'. visit_entries_trees f kids s')

  pub visit_entries_trees :
      {S : Type 0} → (Entry → S → Result {0} Unit × S) → EntryTrees → S → Result {0} Unit × S
  visit_entries_trees f no_trees s = (ok tt, s)
  visit_entries_trees f (and_tree t ts) s =
      then_do (visit_entries_tree f t s) (λ u s'. visit_entries_trees f ts s')

-- dstExists and dstType: is there a directory, a file (false), or nothing?
unfoldable pub found_type : {S : Type 0} → Result Entry × S → Result (Option Bool) × S
unfolding is_dir
found_type (ok e, s) = (ok (some (is_dir e)), s)
found_type (err x, s) = if is_not_found x then (ok none, s) else (err x, s)

module _ {S R C U : Type 0} (drive : Drive S R C U) where
  unfoldable pub destination : Str → Bool → S → Result (Option Bool) × S
  unfolding found_type
  destination to new_parent s = if new_parent then (ok none, s) else found_type (drive.get to s)

  -- dirCreate, of a directory that is copied
  unfoldable pub make_destination : Str → Option Bool → S → Result Bool × S
  unfolding then_do
  make_destination to none s = then_do (drive.make_dir to s) (λ e s'. (ok true, s'))
  make_destination to (some true) s = (ok false, s)
  make_destination to (some false) s = (err not_allowed, s)

-- A file that is copied.
unfoldable pub copy_file :
    {S : Type 0}
    → (Entry → Str → S → Result {0} Unit × S)
    → Entry
    → Str
    → Option Bool
    → S
    → Result {0} Unit × S
copy_file do_copy e to (some true) s = (err not_allowed, s)
copy_file do_copy e to (some false) s = do_copy e to s
copy_file do_copy e to none s = do_copy e to s

-- copyAll, with ctx.Err, doCopy, and the callback `done`
unfoldable mutual
  unfolding after then_do destination make_destination copy_file is_dir path_of clean_path join_path
      path_base

  pub copy_all :
      {S R C U : Type 0}
      → Drive S R C U
      → (S → Result {0} Unit)
      → (Entry → Str → S → Result {0} Unit × S)
      → (Entry → Bool → S → Result {0} Unit × S)
      → EntryTreeNode
      → Str
      → Bool
      → S
      → Result Bool × S
  copy_all drive ctx_err do_copy done (entry_tree e kids excluded) to new_parent s =
      after (ctx_err s)
        (λ u. then_do (destination drive to new_parent s) (λ dst s1.
          then_do
            (elim (is_dir e) [
              | true ↦
                  then_do (make_destination drive to dst s1)
                    (λ created s2. copy_each drive ctx_err do_copy done kids to created s2)
              | false ↦ then_do (copy_file do_copy e to dst s1) (λ v s2. (ok true, s2))
            ])
            (λ all s3. then_do (done e all s3) (λ v s4. (ok all, s4)))))
        s

  pub copy_each :
      {S R C U : Type 0}
      → Drive S R C U
      → (S → Result {0} Unit)
      → (Entry → Str → S → Result {0} Unit × S)
      → (Entry → Bool → S → Result {0} Unit × S)
      → EntryTrees
      → Str
      → Bool
      → S
      → Result Bool × S
  copy_each drive ctx_err do_copy done no_trees to created s = (ok true, s)
  copy_each drive ctx_err do_copy done (and_tree t ts) to created s =
      then_do
        (copy_all drive ctx_err do_copy done t
          (clean_path (join_path to (path_base (path_of (entry_of t))))) created s)
        (λ r s'.
          then_do (copy_each drive ctx_err do_copy done ts to created s')
            (λ all s''. (ok (r && all), s'')))
