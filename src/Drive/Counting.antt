-- ===== src/Drive/Counting.antt =====
-- A drive for examples, whose storage is the number of its changes.
use solocoder_6069_go_drive.Common.{ℕ, ◌+◌, true, false, [], Str}
use solocoder_6069_go_drive.Errors.{ok}
use solocoder_6069_go_drive.Drive.{Entry, base_entry, Drive}

abbrev pub entry_at : Str → Entry
entry_at path = base_entry (record {
  entry_path = path;
  is_directory = false;
  byte_size = 0;
  can_read = true;
  can_write = true;
})

abbrev pub counting : Drive ℕ Unit Unit Unit
counting = record {
  get = λ path s. (ok (entry_at path), s);
  save = λ path size override reader s. (ok (entry_at path), s + 1);
  make_dir = λ path s. (ok (entry_at path), s + 1);
  copy = λ from to override s. (ok (entry_at to), s + 1);
  move = λ from to override s. (ok (entry_at to), s + 1);
  list = λ path s. (ok [], s);
  delete = λ path s. (ok tt, s + 1);
  upload = λ path size override config s. (ok tt, s);
}
