-- ===== src/Access/Examples.antt =====
-- The theorems on composed drives, for a user whose root is users/ann.
use mathlib.Core.List.{cons-ne-nil}
use solocoder_6069_go_drive.Common.{
  ℕ, true, false, List, [], ◌∷◌, ◌++◌, ◌≡◌, ◌≢◌, refl, ◌⊎◌, Str, codes, str_eq, join, All, some,
  arith,
}
use solocoder_6069_go_drive.Errors.{Result, ok}
use solocoder_6069_go_drive.Drive.{Drive}
use solocoder_6069_go_drive.Drive.Counting.{counting, entry_at}
use solocoder_6069_go_drive.Drive.Change.{Change, delete_entry, change, target, copy_entry}
use solocoder_6069_go_drive.Session.{Session}
use solocoder_6069_go_drive.Paths.{slash, dot_dot, clean_path}
use solocoder_6069_go_drive.Paths.Segments.{IsNormal}
use solocoder_6069_go_drive.PermMap.{new_perm_map, filter_session}
use solocoder_6069_go_drive.Chroot.{Chroot}
use solocoder_6069_go_drive.ChrootDrive.{chroot_drive}
use solocoder_6069_go_drive.ChrootDrive.Reach.{retarget, change-jailed}
use solocoder_6069_go_drive.ListenerDrive.{Event, listener_drive}
use solocoder_6069_go_drive.ListenerDrive.Events.{Announces, change-published}
use solocoder_6069_go_drive.PermissionDrive.Changes.{IsPermitted}
use solocoder_6069_go_drive.PathMeta.{PathMeta}
use solocoder_6069_go_drive.Access.{none, get_chroot, get_drive}
use solocoder_6069_go_drive.Access.Compose.{get_drive-change}

abbrev home : Chroot
home = record { root = codes "users/ann"; name_filter = none }

abbrev names : List Str
names = codes "users" ∷ codes "ann" ∷ []

names-IsNormal : All IsNormal names
names-IsNormal = (
  record {
    not_empty = cons-ne-nil _ _;
    not_dot = λ e. cc;
    not_parent = λ e. cc;
    no_slash = omega arith;
  },
  (
    record {
      not_empty = cons-ne-nil _ _;
      not_dot = λ e. cc;
      not_parent = λ e. cc;
      no_slash = omega arith;
    },
    tt,
  ),
)

home_root : home.root ≡ join slash names
unfolding join
home_root = refl

abbrev ann : Session
ann = record {
  user = record { username = codes "ann"; root_path = codes "users/ann"; groups = [] };
  props = [];
}

abbrev no_metas : Str → Result (List PathMeta)
no_metas path = ok []

ann_chroot : get_chroot (ok []) ann ≡ ok (some home)
unfolding get_chroot str_eq
ann_chroot = refl

abbrev removal : Change Unit Unit
removal = delete_entry (codes "../docs//a.txt")

clean_removal : clean_path (target removal) ≡ codes "docs/a.txt"
unfolding clean_path
clean_removal = refl

removal-ne-dot_dot : clean_path (target removal) ≢ dot_dot
removal-ne-dot_dot e = cc (clean_removal)

change-jailed_example :
    (change (chroot_drive counting home) removal 4 ≡ (false, 4))
    ⊎ ((ns : List Str) × All IsNormal ns
        × (clean_path (target removal) ≡ join slash ns)
        × (change (chroot_drive counting home) removal 4
            ≡ change counting (retarget (join slash (names ++ ns)) removal) 4))
change-jailed_example =
    change-jailed counting home names (cons-ne-nil _ _) names-IsNormal home_root removal 4
      removal-ne-dot_dot

abbrev two_copies : Change Unit Unit
two_copies = copy_entry (entry_at (codes "a")) (codes "b") true

change-published_example :
    (((change counting two_copies 4).0 ≡ true)
      × ((change (listener_drive counting) two_copies (4, [])).0 ≡ true)
      × ((change (listener_drive counting) two_copies (4, [])).1.0
          ≡ (change counting two_copies 4).1)
      × Announces counting two_copies 4 []
          (change (listener_drive counting) two_copies (4, [])).1.1)
    ⊎ (((change counting two_copies 4).0 ≡ false)
        × (change (listener_drive counting) two_copies (4, [])
            ≡ (false, ((change counting two_copies 4).1, []))))
change-published_example = change-published counting two_copies 4 []

get_drive-change_example :
    (d : Drive (ℕ × List Event) Unit Unit Unit) × (get_drive counting
        (new_perm_map [])
        no_metas
        ann
        (ok [])
      ≡ ok d)
    × ((ch : Change Unit Unit) (st : ℕ × List Event)
        → clean_path (target ch) ≢ dot_dot
        → (change d ch st ≡ (false, st))
          ⊎ ((ns : List Str) × All IsNormal ns
              × IsPermitted
                  (filter_session (new_perm_map []) ann)
                  (retarget (join slash (names ++ ns)) ch)
              × (change d ch st
                  ≡ change (listener_drive counting) (retarget (join slash (names ++ ns)) ch) st)))
get_drive-change_example =
    get_drive-change counting (new_perm_map []) no_metas ann (ok []) home names ann_chroot
      (cons-ne-nil _ _) names-IsNormal home_root
