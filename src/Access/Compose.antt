-- ===== src/Access/Compose.antt =====
-- What a session can change through the drive that it is given.
use solocoder_6069_go_drive.Common.{
  false, Str, List, [], ◌++◌, ◌≡◌, ◌≢◌, refl, ◌∙◌, ap, ◌⊎◌, inl, inr, All, join, some,
}
use solocoder_6069_go_drive.Errors.{Result, ok, ◌>>=◌}
use solocoder_6069_go_drive.Drive.{Drive}
use solocoder_6069_go_drive.Drive.Change.{
  Change, save_file, new_dir, copy_entry, move_entry, delete_entry, start_upload, change, target,
}
use solocoder_6069_go_drive.Session.{Session}
use solocoder_6069_go_drive.Paths.{clean_path, slash, dot_dot}
use solocoder_6069_go_drive.Paths.Segments.{IsNormal}
use solocoder_6069_go_drive.PermMap.{PermMap, filter_session}
use solocoder_6069_go_drive.Chroot.{Chroot}
use solocoder_6069_go_drive.ChrootDrive.{chroot_drive}
use solocoder_6069_go_drive.ChrootDrive.Reach.{retarget, change-jailed}
use solocoder_6069_go_drive.ListenerDrive.{Event, listener_drive}
use solocoder_6069_go_drive.PermissionDrive.{permission_drive}
use solocoder_6069_go_drive.PermissionDrive.Changes.{IsPermitted, change-guarded}
use solocoder_6069_go_drive.PathMeta.{PathMeta, path_meta_drive}
use solocoder_6069_go_drive.Access.{get_chroot, guarded_drive, with_chroot, get_drive}

change-path_meta_drive :
    {S R C U : Type 0} (drive : Drive S R C U) (store : Str → Result (List PathMeta))
    (session : Session) (ch : Change R C) (s : S)
    → change (path_meta_drive drive store session) ch s ≡ change drive ch s
unfolding change path_meta_drive
change-path_meta_drive drive store session (save_file path size override reader) s = refl
change-path_meta_drive drive store session (new_dir path) s = refl
change-path_meta_drive drive store session (copy_entry from to override) s = refl
change-path_meta_drive drive store session (move_entry from to override) s = refl
change-path_meta_drive drive store session (delete_entry path) s = refl
change-path_meta_drive drive store session (start_upload path size override config) s = refl

module _ {S R C U : Type 0} (root : Drive S R C U) (perms : PermMap)
    (store : Str → Result (List PathMeta)) (session : Session) where
  change-guarded_drive :
      (ch : Change R C) (st : S × List Event)
      → (IsPermitted (filter_session perms session) ch
          × (change (guarded_drive root perms store session) ch st
              ≡ change (listener_drive root) ch st))
        ⊎ (change (guarded_drive root perms store session) ch st ≡ (false, st))
  unfolding guarded_drive
  change-guarded_drive ch st =
      let below = permission_drive (listener_drive root) (filter_session perms session) in
      elim (change-guarded (listener_drive root) (filter_session perms session) ch st) [
        | inl (p, e) ↦ inl (p, change-path_meta_drive below store session ch st ∙ e)
        | inr (n, e) ↦ inr (change-path_meta_drive below store session ch st ∙ e)
      ]

  -- For a session with a chroot whose root is a joined list of at least one name, GetDrive returns a
  -- drive. Through it, a change at a path that CleanPath does not turn into ".." either fails, and
  -- leaves the storage as it was and publishes nothing; or it is the same change on the root drive
  -- with its listener, at the chroot's root followed by zero or more names, and the session's
  -- permissions there allow it.
  pub get_drive-change :
      (anonymous_root : Result Str) (c : Chroot) (rs : List Str)
      → get_chroot anonymous_root session ≡ ok (some c)
      → rs ≢ []
      → All IsNormal rs
      → c.root ≡ join slash rs
      → (d : Drive (S × List Event) R C U) × (get_drive root perms store session anonymous_root
          ≡ ok d)
        × ((ch : Change R C) (st : S × List Event)
            → clean_path (target ch) ≢ dot_dot
            → (change d ch st ≡ (false, st))
              ⊎ ((ns : List Str) × All IsNormal ns
                  × IsPermitted (filter_session perms session) (retarget (join slash (rs ++ ns)) ch)
                  × (change d ch st
                      ≡ change (listener_drive root) (retarget (join slash (rs ++ ns)) ch) st)))
  unfolding get_drive with_chroot
  get_drive-change anonymous_root c rs found ne normal at = (
    chroot_drive (guarded_drive root perms store session) c,
    ap (λ x. x >>= (λ chroot. ok (with_chroot root perms store session chroot))) found,
    λ ch st no_escape.
        elim (change-jailed (guarded_drive root perms store session) c rs ne normal at ch st
          no_escape) [
            | inl e ↦ inl e
            | inr (ns, names, same, e) ↦
                elim (change-guarded_drive (retarget (join slash (rs ++ ns)) ch) st) [
                  | inl (p, f) ↦ inr (ns, names, p, e ∙ f)
                  | inr f ↦ inl (e ∙ f)
                ]
          ],
  )
