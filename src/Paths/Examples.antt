-- ===== src/Paths/Examples.antt =====
-- The theorems on paths at concrete paths, and tests, some of them those of the repository.
use mathlib.Core.List.{List, cons-ne-nil}
use solocoder_6069_go_drive.Common.{
  Str, str_eq, true, false, [], ◌∷◌, ◌≡◌, ◌⊎◌, refl, codes, some, join, All, arith, has_prefix,
}
use solocoder_6069_go_drive.Paths.{
  slash, dot_dot, clean_path, path_parent, path_parent_tree, path_depth, path_base, path_name,
  is_path_parent,
}
use solocoder_6069_go_drive.Paths.Segments.{IsNormal}
use solocoder_6069_go_drive.Paths.Ancestors.{IsLine, path_parent_tree_total}
use solocoder_6069_go_drive.Paths.Shape.{IsInside, IsPlain, clean_path-IsInside}

cleans : clean_path (codes " /a/./b//../c/ ") ≡ codes "a/c"
unfolding clean_path
cleans = refl

parents :
    (path_parent (codes "/") ≡ [])
    × (path_parent (codes "..") ≡ [])
    × (path_parent (codes "...") ≡ [])
    × (path_parent (codes "//a/b/c/") ≡ codes "a/b")
    × (path_parent (codes "a/../../../c") ≡ [])
unfolding path_parent
parents = (refl, refl, refl, refl, refl)

parent_tree :
    path_parent_tree (codes "a/b/c") ≡ some (codes "a/b/c" ∷ codes "a/b" ∷ codes "a" ∷ [] ∷ [])
unfolding path_parent_tree
parent_tree = refl

depths : (path_depth (codes "/") ≡ 0) × (path_depth (codes "a/b") ≡ 2)
unfolding path_depth
depths = (refl, refl)

names :
    (path_base (codes "a/b.txt/") ≡ codes "b.txt")
    × (path_base (codes "/") ≡ [])
    × (path_name (codes "a/b.tar.gz") ≡ codes "b.tar")
unfolding path_base path_name str_eq
names = (refl, refl, refl)

below :
    (is_path_parent (codes "/a/b") (codes "a") ≡ true)
    × (is_path_parent (codes "ab") (codes "a") ≡ false)
unfolding is_path_parent has_prefix
below = (refl, refl)

-- CleanPath removes control characters behind the trimming of white space, and trims before it
-- cleans: a second CleanPath may remove more.
not_idempotent : (clean_path (codes "a/ /") ≡ codes "a/ ") × (clean_path (codes "a/ ") ≡ codes "a")
unfolding clean_path
not_idempotent = (refl, refl)

clean_path-IsInside_example :
    (clean_path (codes "../x") ≡ dot_dot) ⊎ IsInside (clean_path (codes "../x"))
clean_path-IsInside_example = clean_path-IsInside (codes "../x")

ab-IsNormal : All IsNormal (codes "a" ∷ codes "b" ∷ [])
ab-IsNormal = (
  record {
    not_empty = cons-ne-nil _ _;
    not_dot = λ e. cc;
    not_parent = λ e. cc;
    no_slash = omega arith;
  },
  (
    record {
      not_empty = cons-ne-nil _ _;
      not_dot = λ e. cc;
      not_parent = λ e. cc;
      no_slash = omega arith;
    },
    tt,
  ),
)

ab-IsPlain : IsPlain (join slash (codes "a" ∷ codes "b" ∷ []))
unfolding join clean_path
ab-IsPlain = refl

path_parent_tree_total_example :
    (line : List Str) × (path_parent_tree (codes "/a/b") ≡ some line)
    × IsLine (clean_path (codes "/a/b")) line
path_parent_tree_total_example = path_parent_tree_total (codes "/a/b")
