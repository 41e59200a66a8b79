-- ===== src/ChrootDrive.antt =====
-- drive/chroot.go: ChrootWrapper, the drive that shows a session only what is below its root.
pub mod Reach
use solocoder_6069_go_drive.Common.{ℕ, Bool, true, false, List, map, Str, Option, none, some}
use solocoder_6069_go_drive.Errors.{Result, ok, err, after}
use solocoder_6069_go_drive.Drive.{
  Entry, Drive, chroot_entry, path_of, find_entry, permission_entry,
}
use solocoder_6069_go_drive.Chroot.{Chroot, wrap_path, unwrap_path, filter_entries}

-- ChrootWrapper.wrapEntry
unfoldable pub wrap_entry : Chroot → Entry → Entry
unfolding path_of
wrap_entry c e = chroot_entry (unwrap_path c (path_of e)) e

-- _, ok := entry.(*chrootEntry)
unfoldable pub is_chroot_entry : Entry → Bool
is_chroot_entry (chroot_entry path e) = true
is_chroot_entry _ = false

-- ee.(*chrootEntry).IEntry, or the entry itself when there is no chrootEntry
unfoldable pub inside : Entry → Option Entry → Entry
inside e none = e
inside e (some (chroot_entry path x)) = x
inside e (some other) = other

-- unwrapEntry
unfoldable pub unwrap_entry : Entry → Entry
unfolding inside is_chroot_entry find_entry
unwrap_entry e = inside e (find_entry is_chroot_entry e)

-- return c.wrapEntry(entry), e
unfoldable pub wrap_result : {S : Type 0} → Chroot → Result Entry × S → Result Entry × S
unfolding wrap_entry
wrap_result c (ok e, s) = (ok (wrap_entry c e), s)
wrap_result c (err x, s) = (err x, s)

-- The end of List: FilterEntries, and wrapEntries.
unfoldable pub wrap_list :
    {S : Type 0} → Chroot → Str → Result (List Entry) × S → Result (List Entry) × S
unfolding wrap_entry filter_entries path_of
wrap_list c path (ok es, s) = (ok (map (wrap_entry c) (filter_entries c path_of path es)), s)
wrap_list c path (err x, s) = (err x, s)

module _ {S R C U : Type 0} (drive : Drive S R C U) (c : Chroot) where
  -- Get
  unfoldable pub get : Str → S → Result Entry × S
  unfolding after wrap_result wrap_path
  get path s = after (wrap_path c path) (λ p. wrap_result c (drive.get p s)) s

  -- Save
  unfoldable pub save : Str → ℕ → Bool → R → S → Result Entry × S
  unfolding after wrap_result wrap_path
  save path size override reader s =
      after (wrap_path c path) (λ p. wrap_result c (drive.save p size override reader s)) s

  -- MakeDir
  unfoldable pub make_dir : Str → S → Result Entry × S
  unfolding after wrap_result wrap_path
  make_dir path s = after (wrap_path c path) (λ p. wrap_result c (drive.make_dir p s)) s

  -- Copy
  unfoldable pub copy : Entry → Str → Bool → S → Result Entry × S
  unfolding after wrap_result wrap_path unwrap_entry
  copy from to override s =
      after (wrap_path c to)
        (λ to_path. wrap_result c (drive.copy (unwrap_entry from) to_path override s)) s

  -- Move
  unfoldable pub move : Entry → Str → Bool → S → Result Entry × S
  unfolding after wrap_result wrap_path unwrap_entry
  move from to override s =
      after (wrap_path c to)
        (λ to_path. wrap_result c (drive.move (unwrap_entry from) to_path override s)) s

  -- List
  unfoldable pub list : Str → S → Result (List Entry) × S
  unfolding after wrap_list wrap_path
  list path s = after (wrap_path c path) (λ p. wrap_list c path (drive.list p s)) s

  -- Delete
  unfoldable pub delete : Str → S → Result {0} Unit × S
  unfolding after wrap_path
  delete path s = after (wrap_path c path) (λ p. drive.delete p s) s

  -- Upload
  unfoldable pub upload : Str → ℕ → Bool → C → S → Result U × S
  unfolding after wrap_path
  upload path size override config s =
      after (wrap_path c path) (λ p. drive.upload p size override config s) s

  -- NewChrootWrapper
  unfoldable pub chroot_drive : Drive S R C U
  unfolding get save make_dir copy move list delete upload
  chroot_drive = record {
    get = get;
    save = save;
    make_dir = make_dir;
    copy = copy;
    move = move;
    list = list;
    delete = delete;
    upload = upload;
  }
