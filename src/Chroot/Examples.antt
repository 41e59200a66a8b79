-- ===== src/Chroot/Examples.antt =====
-- The jail's theorems at a concrete root, and tests of its functions.
use mathlib.Core.List.{cons-ne-nil}
use solocoder_6069_go_drive.Common.{
  ◌≢◌, Str, codes, List, [], ◌∷◌, ◌++◌, ◌≡◌, refl, All, join, none, some, arith,
}
use solocoder_6069_go_drive.Errors.{ok, err, not_found}
use solocoder_6069_go_drive.Paths.{join_path, slash, dot_dot, clean_path}
use solocoder_6069_go_drive.Paths.Shape.{IsPlain}
use solocoder_6069_go_drive.Paths.Segments.{IsNormal}
use solocoder_6069_go_drive.Chroot.{Chroot, wrap_path, unwrap_path}
use solocoder_6069_go_drive.Chroot.Jail.{wrap_path-names, unwrap_path-wrap_path, wrap_path-escape}

abbrev home : Chroot
home = record { root = codes "users/ann"; name_filter = none }

abbrev home_names : List Str
home_names = codes "users" ∷ codes "ann" ∷ []

users-IsNormal : IsNormal (codes "users")
users-IsNormal = record {
  not_empty = cons-ne-nil _ _;
  not_dot = λ e. cc;
  not_parent = λ e. cc;
  no_slash = omega arith;
}

ann-IsNormal : IsNormal (codes "ann")
ann-IsNormal = record {
  not_empty = cons-ne-nil _ _;
  not_dot = λ e. cc;
  not_parent = λ e. cc;
  no_slash = omega arith;
}

home_names-IsNormal : All IsNormal home_names
home_names-IsNormal = (users-IsNormal, (ann-IsNormal, tt))

home_root : home.root ≡ join slash home_names
unfolding join
home_root = refl

-- A path that climbs out is cut back to the names below the root.
clean_docs : clean_path (codes "../docs//a.txt") ≡ codes "docs/a.txt"
unfolding clean_path
clean_docs = refl

docs-ne-dot_dot : clean_path (codes "../docs//a.txt") ≢ dot_dot
docs-ne-dot_dot e = cc (clean_docs)

wrap_docs : wrap_path home (codes "../docs//a.txt") ≡ ok (codes "users/ann/docs/a.txt")
unfolding wrap_path clean_path join_path
wrap_docs = refl

wrap_hidden :
    wrap_path (record { root = codes "r"; name_filter = some (codes "a" ∷ []) }) (codes "b/a")
    ≡ err not_found
unfolding wrap_path clean_path
wrap_hidden = refl

docs-IsPlain : IsPlain (slash ∷ clean_path (codes "../docs//a.txt"))
unfolding clean_path
docs-IsPlain = refl

parent_path : clean_path (codes "../..") ≡ dot_dot
unfolding clean_path
parent_path = refl

wrap_path-names_example :
    (ns : List Str) × All IsNormal ns
    × (clean_path (codes "../docs//a.txt") ≡ join slash ns)
    × (codes "users/ann/docs/a.txt" ≡ join slash (home_names ++ ns))
wrap_path-names_example =
    wrap_path-names home home_names (cons-ne-nil _ _) home_names-IsNormal home_root
      (codes "../docs//a.txt") docs-ne-dot_dot (codes "users/ann/docs/a.txt") wrap_docs

unwrap_path-wrap_path_example :
    unwrap_path home (codes "users/ann/docs/a.txt") ≡ clean_path (codes "../docs//a.txt")
unwrap_path-wrap_path_example =
    unwrap_path-wrap_path home home_names (cons-ne-nil _ _) home_names-IsNormal home_root
      (codes "../docs//a.txt") docs-ne-dot_dot (codes "users/ann/docs/a.txt") docs-IsPlain wrap_docs

wrap_path-escape_example : wrap_path home (codes "../..") ≡ ok (join slash (codes "users" ∷ []))
wrap_path-escape_example =
    wrap_path-escape home (codes "users") [] (codes "ann") (users-IsNormal, tt) ann-IsNormal
      home_root refl (codes "../..") parent_path
