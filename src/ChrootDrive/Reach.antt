-- ===== src/ChrootDrive/Reach.antt =====
-- Where the requests that pass through a chroot arrive.
use solocoder_6069_go_drive.Common.{
  Bool, false, Str, List, [], ◌++◌, ◌≡◌, ◌≢◌, refl, ◌∙◌, ap, ◌⊎◌, inl, inr, All, join,
}
use solocoder_6069_go_drive.Errors.{Result, ok, err, Error, after}
use solocoder_6069_go_drive.Drive.{Entry, Drive}
use solocoder_6069_go_drive.Drive.Change.{
  Change, save_file, new_dir, copy_entry, move_entry, delete_entry, start_upload, settle, change,
  after-cases, target,
}
use solocoder_6069_go_drive.Paths.{clean_path, slash, dot_dot}
use solocoder_6069_go_drive.Paths.Segments.{IsNormal}
use solocoder_6069_go_drive.Chroot.{Chroot, wrap_path}
use solocoder_6069_go_drive.Chroot.Jail.{wrap_path-names}
use solocoder_6069_go_drive.ChrootDrive.{
  wrap_result, unwrap_entry, save, make_dir, copy, move, delete, upload, chroot_drive,
}

-- The same request at another path, and of the entry inside its chroot's wrapper.
abbrev pub retarget : {R C : Type 0} → Str → Change R C → Change R C
retarget q (save_file path size override reader) = save_file q size override reader
retarget q (new_dir path) = new_dir q
retarget q (copy_entry from to override) = copy_entry (unwrap_entry from) q override
retarget q (move_entry from to override) = move_entry (unwrap_entry from) q override
retarget q (delete_entry path) = delete_entry q
retarget q (start_upload path size override config) = start_upload q size override config

settle-wrap_result :
    {S : Type 0} (c : Chroot) (o : Result Entry × S) → settle (wrap_result c o) ≡ settle o
unfolding settle wrap_result
settle-wrap_result c (ok e, s) = refl
settle-wrap_result c (err x, s) = refl

-- WrapPath refuses the path and the storage stays as it is, or the request is made at its path.
abbrev Passes : {S : Type 0} → Result Str → S → Bool × S → (Str → Bool × S) → Type 0
Passes r s out bare =
    ((x : Error) × (r ≡ err x) × (out ≡ (false, s))) ⊎ ((q : Str) × (r ≡ ok q) × (out ≡ bare q))

Passes-wrapped :
    {S : Type 0} (c : Chroot) (r : Result Str) (f : Str → Result Entry × S) (s : S)
    → Passes r s (settle (after r (λ q. wrap_result c (f q)) s)) (λ q. settle (f q))
Passes-wrapped c r f s = elim (after-cases r (λ q. wrap_result c (f q)) s) [
  | inl m ↦ inl m
  | inr (q, e, g) ↦ inr (q, e, g ∙ settle-wrap_result c (f q))
]

module _ {S R C U : Type 0} (drive : Drive S R C U) (c : Chroot) where
  change-Passes :
      (ch : Change R C) (s : S)
      → Passes
          (wrap_path c (target ch))
          s
          (change (chroot_drive drive c) ch s)
          (λ q. change drive (retarget q ch) s)
  unfolding change chroot_drive save make_dir copy move delete upload
  change-Passes (save_file path size override reader) s =
      Passes-wrapped c (wrap_path c path) (λ q. drive.save q size override reader s) s
  change-Passes (new_dir path) s = Passes-wrapped c (wrap_path c path) (λ q. drive.make_dir q s) s
  change-Passes (copy_entry from to override) s =
      Passes-wrapped c (wrap_path c to) (λ q. drive.copy (unwrap_entry from) q override s) s
  change-Passes (move_entry from to override) s =
      Passes-wrapped c (wrap_path c to) (λ q. drive.move (unwrap_entry from) q override s) s
  change-Passes (delete_entry path) s = after-cases (wrap_path c path) (λ q. drive.delete q s) s
  change-Passes (start_upload path size override config) s =
      after-cases (wrap_path c path) (λ q. drive.upload q size override config s) s

  -- For a chroot whose root is a joined list of at least one name, and a change at a path that
  -- CleanPath does not turn into "..": the change fails and leaves the storage as it was, or it is
  -- the same change on the drive below at the root followed by zero or more names, which are those
  -- of the cleaned path.
  pub change-jailed :
      (rs : List Str)
      → rs ≢ []
      → All IsNormal rs
      → c.root ≡ join slash rs
      → (ch : Change R C) (s : S) → clean_path (target ch) ≢ dot_dot
      → (change (chroot_drive drive c) ch s ≡ (false, s))
        ⊎ ((ns : List Str) × All IsNormal ns
            × (clean_path (target ch) ≡ join slash ns)
            × (change (chroot_drive drive c) ch s
                ≡ change drive (retarget (join slash (rs ++ ns)) ch) s))
  change-jailed rs ne normal at ch s no_escape = elim (change-Passes ch s) [
    | inl (x, e, f) ↦ inl f
    | inr (q, e, f) ↦
        let (ns, names, same, found) =
          wrap_path-names c rs ne normal at (target ch) no_escape q e in
        inr (ns, names, same, f ∙ ap (λ p. change drive (retarget p ch) s) found)
  ]
