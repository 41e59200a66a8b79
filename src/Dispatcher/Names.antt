-- ===== src/Dispatcher/Names.antt =====
-- drive/dispatcher.go: FindNonExistsEntryName.
use mathlib.Core.Option.{get_or}
use solocoder_6069_go_drive.Common.{
  ℕ, zero, suc, ◌+◌, Bool, true, false, ◌||◌, List, [], ◌∷◌, ◌++◌, length, if◌then◌else◌, Str,
  str_eq, Option, none, some, map,
}
use solocoder_6069_go_drive.Errors.{Result, ok, err, then_do, is_not_found}
use solocoder_6069_go_drive.Drive.{Entry, path_of}
use solocoder_6069_go_drive.Common.Text.Numbers.{decimal}
use solocoder_6069_go_drive.Paths.{join_path, clean_path, path_parent, path_name, ext}

-- CleanPath(path.Join(parentPath, fmt.Sprintf("%s_%d%s", pathBaseName, seq, pathExt)))
unfoldable pub numbered_path : Str → ℕ → Str
unfolding clean_path join_path path_parent path_name ext decimal
numbered_path path seq =
    clean_path (join_path (path_parent path) (path_name path ++ (b'_' ∷ (decimal seq ++ ext path))))

unfoldable pub has_path : Str → List Str → Bool
has_path p [] = false
has_path p (q ∷ qs) = str_eq p q || has_path p qs

-- The search for a number that no sibling has.
unfoldable pub number_loop : ℕ → (ℕ → Str) → List Str → ℕ → Option Str
unfolding has_path
number_loop zero candidate siblings seq = none
number_loop (suc fuel) candidate siblings seq =
    let rest = number_loop fuel candidate siblings (seq + 1) in
    if has_path (candidate seq) siblings then rest else some (candidate seq)

-- The search, with one more number than there are siblings: of as many different paths one is free.
unfoldable pub free_path : Str → List Entry → Str
unfolding number_loop numbered_path path_of
free_path path siblings =
    get_or
      (number_loop (suc (length (map path_of siblings))) (numbered_path path) (map path_of siblings)
        1)
      []

module _ {S : Type 0} (get : Str → S → Result Entry × S)
    (list : Str → S → Result (List Entry) × S) where
  -- The part of FindNonExistsEntryName after Get.
  unfoldable pub free_or_same : Str → Result Entry × S → Result Str × S
  unfolding free_path then_do
  free_or_same path (ok e, s) =
      then_do (list (path_parent path) s) (λ siblings t. (ok (free_path path siblings), t))
  free_or_same path (err x, s) = if is_not_found x then (ok path, s) else (err x, s)

  -- FindNonExistsEntryName, with Get and List of the drive
  unfoldable pub find_non_exists : Str → S → Result Str × S
  unfolding free_or_same
  find_non_exists [] s = (ok [], s)
  find_non_exists (c ∷ path) s = free_or_same (c ∷ path) (get (c ∷ path) s)

  -- if !override { realPath, e = d.FindNonExistsEntryName(…) }
  unfoldable pub path_to_write : Str → Bool → S → Result Str × S
  unfolding find_non_exists
  path_to_write path true s = (ok path, s)
  path_to_write path false s = find_non_exists path s
