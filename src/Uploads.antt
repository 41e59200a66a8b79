-- ===== src/Uploads.antt =====
-- server/chunk_uploader.go: uploads in chunks. The file system is a map from the path of a directory to
-- its files, each a name and its bytes; it does not fail by itself. What os.RemoveAll leaves of a
-- directory, where it fails, is a parameter. Numbers that are not positive are 0.
pub mod Ids
pub mod Pieces
pub mod Found
pub mod Sending
pub mod Copying
pub mod Assembly
pub mod Refusals
pub mod Deletion
mod Examples
use solocoder_6069_go_drive.Common.{
  ℕ, zero, suc, ◌+◌, ◌*◌, ◌/◌, ◌%◌, Bool, true, false, not, ◌&&◌, ◌||◌, ◌==◌, ltb, leb, List, [],
  ◌∷◌, ◌++◌, length, if◌then◌else◌, Str, codes, split, Option, none, some, map_get, map_set,
  map_delete,
}
use solocoder_6069_go_drive.Common.Float.{ceil_float}
use solocoder_6069_go_drive.Common.Text.Numbers.{decimal, to_int64}
use solocoder_6069_go_drive.Errors.{
  Result, ok, err, not_found, not_allowed, bad_request, other, ◌>>=◌,
}
use solocoder_6069_go_drive.Paths.{clean, join_path}

abbrev pub Bytes : Type 0
Bytes = List ℕ

abbrev pub Dir : Type 0
Dir = List (Str × Bytes)

abbrev pub FileSystem : Type 0
FileSystem = List (Str × Dir)

-- minChunkSize
abbrev pub min_chunk_size : ℕ
min_chunk_size = 5 * 1024 * 1024

-- ChunkUpload
pub record ChunkUpload : Type 0 where
  pub id : Str
  pub size : ℕ
  pub chunk_size : ℕ
  pub chunks : ℕ

-- newChunkUpload, with the ceiling of the float64 quotient
unfoldable pub new_chunk_upload : Str → ℕ → ℕ → ChunkUpload
unfolding ceil_float
new_chunk_upload id size chunk_size = record {
  id = id;
  size = size;
  chunk_size = chunk_size;
  chunks = ceil_float size chunk_size;
}

-- isValidUploadIdPart
unfoldable pub is_id_char : ℕ → Bool
is_id_char c = leb 48 c && leb c 57 || leb 97 c && leb c 102 || leb 65 c && leb c 70 || c == 45

unfoldable pub all_id_chars : Str → Bool
unfolding is_id_char
all_id_chars [] = true
all_id_chars (c ∷ s) = is_id_char c && all_id_chars s

unfoldable pub is_valid_upload_id_part : Str → Bool
unfolding all_id_chars
is_valid_upload_id_part [] = false
is_valid_upload_id_part (c ∷ s) = all_id_chars (c ∷ s)

-- getDir
unfoldable pub get_dir : Str → Str → Str
get_dir dir id = join_path dir (clean id)

-- generateUploadId, with the text that uuid.New gives
unfoldable pub generate_upload_id : Str → ℕ → ℕ → Str
unfolding decimal
generate_upload_id uuid size chunk_size =
    uuid ++ (b'_' ∷ (decimal size ++ (b'_' ∷ decimal chunk_size)))

-- getUpload: the parts of the id, the directory, the numbers
unfoldable pub id_parts : List Str → Result (Str × Str)
unfolding is_valid_upload_id_part
id_parts [] = err bad_request
id_parts (a ∷ []) = err bad_request
id_parts (a ∷ b ∷ []) = err bad_request
id_parts (a ∷ b ∷ c ∷ []) = if is_valid_upload_id_part a then ok (b, c) else err bad_request
id_parts (a ∷ b ∷ c ∷ d ∷ e) = err bad_request

unfoldable pub existing : Option Dir → Result Dir
existing none = err not_found
existing (some d) = ok d

unfoldable pub with_sizes : Str → ℕ → ℕ → Result ChunkUpload
unfolding new_chunk_upload
with_sizes id size chunk_size =
    if size == 0 || chunk_size == 0
    then err bad_request
    else ok (new_chunk_upload id size chunk_size)

unfoldable pub get_upload : Str → Str → FileSystem → Result ChunkUpload
unfolding id_parts split existing get_dir with_sizes to_int64
get_upload dir id fs = do
  p ← id_parts (split b'_' id)
  d ← existing (map_get (get_dir dir id) fs)
  with_sizes id (to_int64 p.0) (to_int64 p.1)

-- The files of a directory.
unfoldable pub files_or_none : Option Dir → Dir
files_or_none none = []
files_or_none (some d) = d

unfoldable pub files_at : Str → FileSystem → Dir
unfolding files_or_none
files_at path fs = files_or_none (map_get path fs)

unfoldable pub is_file_there : {A : Type 0} → Option A → Bool
is_file_there none = false
is_file_there (some a) = true

-- CreateUpload, with what getUpload answers at its end: the panic is `none`.
unfoldable pub or_panic : Result ChunkUpload → FileSystem → Option (Result ChunkUpload × FileSystem)
or_panic (ok u) fs = some (ok u, fs)
or_panic (err e) fs = none

unfoldable pub make_upload :
    Str → Str → Option Dir → FileSystem → Option (Result ChunkUpload × FileSystem)
unfolding or_panic get_upload get_dir
make_upload dir id (some d) fs = some (err not_allowed, fs)
make_upload dir id none fs =
    let made = map_set (get_dir dir id) [] fs in or_panic (get_upload dir id made) made

unfoldable pub create_upload :
    Str → Str → ℕ → ℕ → FileSystem → Option (Result ChunkUpload × FileSystem)
unfolding make_upload generate_upload_id get_dir
create_upload dir uuid size chunk_size fs =
    let id = generate_upload_id uuid size chunk_size in
    if ltb chunk_size min_chunk_size
    then some (err bad_request, fs)
    else if size == 0
    then some (err bad_request, fs)
    else make_upload dir id (map_get (get_dir dir id) fs) fs

-- getFile, getDeleteMark, getChunk: the names in the directory
abbrev pub file_name : Str
file_name = codes "file"

abbrev pub mark_name : Str
mark_name = codes "deleted"

-- isMarkedDelete, markDeleted
unfoldable pub is_marked_delete : Dir → Bool
unfolding is_file_there
is_marked_delete d = is_file_there (map_get mark_name d)

unfoldable pub mark_deleted : Dir → Dir
unfolding is_marked_delete
mark_deleted d = if is_marked_delete d then d else map_set mark_name [] d

-- What a request sends: the bytes that are read, and whether reading them fails then.
pub record Reader : Type 0 where
  pub content : Bytes
  pub fails : Bool

-- ChunkUpload: the check of the number (`none` is a negative one), the size that the chunk must have,
-- and the chunk's file.
unfoldable pub check_seq : Option ℕ → ℕ → Result ℕ
check_seq none chunks = err not_allowed
check_seq (some seq) chunks = if ltb seq chunks then ok seq else err not_allowed

unfoldable pub size_of_chunk : ChunkUpload → ℕ → ℕ
size_of_chunk u seq =
    if seq + 1 == u.chunks && not (u.size % u.chunk_size == 0)
    then u.size % u.chunk_size
    else u.chunk_size

unfoldable pub write_chunk : ChunkUpload → Reader → Result ℕ → Dir → Result {0} Unit × Dir
unfolding size_of_chunk
write_chunk u reader (err e) d = (err e, d)
write_chunk u reader (ok seq) d =
    if reader.fails
    then (err other, map_delete (decimal seq) d)
    else if length reader.content == size_of_chunk u seq
    then (ok tt, map_set (decimal seq) reader.content d)
    else (err bad_request, map_delete (decimal seq) d)

-- Each operation, with what getUpload answers.
module _ (remove_all : Dir → Option Dir) (dir : Str) where
  unfoldable pub remove_dir : Str → Option Dir → FileSystem → FileSystem
  unfolding mark_deleted
  remove_dir path none fs = map_delete path fs
  remove_dir path (some rest) fs = map_set path (mark_deleted rest) fs

  unfoldable pub delete_found : Result ChunkUpload → Str → FileSystem → Result {0} Unit × FileSystem
  unfolding remove_dir files_at
  delete_found (err e) path fs = (err e, fs)
  delete_found (ok u) path fs = (ok tt, remove_dir path (remove_all (files_at path fs)) fs)

  unfoldable pub delete_upload : Str → FileSystem → Result {0} Unit × FileSystem
  unfolding delete_found get_upload get_dir
  delete_upload id fs = delete_found (get_upload dir id fs) (get_dir dir id) fs

  -- The deferred end of a request, when the directory has the files d.
  unfoldable pub leave : Str → Dir → FileSystem → FileSystem
  unfolding delete_upload is_marked_delete get_dir
  leave id d fs =
      let kept = map_set (get_dir dir id) d fs in
      if is_marked_delete d then (delete_upload id kept).1 else kept

  unfoldable pub leave_with :
      Str → Result {0} Unit × Dir → FileSystem → Result {0} Unit × FileSystem
  unfolding leave
  leave_with id (r, d) fs = (r, leave id d fs)

  -- ChunkUpload. Without an upload its deferred function reads the id of a nil pointer: the panic is
  -- `none`.
  unfoldable pub upload_found :
      Result ChunkUpload → Option ℕ → Reader → FileSystem → Option (Result {0} Unit × FileSystem)
  unfolding leave_with write_chunk check_seq files_at get_dir
  upload_found (err e) seq reader fs = none
  upload_found (ok u) seq reader fs = some (
      leave_with u.id
        (write_chunk u reader (check_seq seq u.chunks) (files_at (get_dir dir u.id) fs)) fs)

  unfoldable pub chunk_upload :
      Str → Option ℕ → Reader → FileSystem → Option (Result {0} Unit × FileSystem)
  unfolding upload_found get_upload
  chunk_upload id seq reader fs = upload_found (get_upload dir id fs) seq reader fs

-- The numbers that are reported to the task.
pub record Ctx : Type 0 where
  pub total : ℕ
  pub loaded : ℕ

unfoldable pub has_chunks : ℕ → ℕ → Dir → Bool
unfolding is_file_there decimal
has_chunks zero seq d = true
has_chunks (suc n) seq d = is_file_there (map_get (decimal seq) d) && has_chunks n (seq + 1) d

-- The loop of CompleteUpload over the n chunks from seq on: what the file has then.
module _ (canceled : ℕ → Bool) (d : Dir) where
  unfoldable pub copy_chunk : Option Bytes → (Bytes → Result Bytes × Ctx) → Ctx → Result Bytes × Ctx
  unfolding is_marked_delete
  copy_chunk none rest ctx = (err other, ctx)
  copy_chunk (some chunk) rest ctx = if is_marked_delete d then (err other, ctx) else rest chunk

  unfoldable pub copy_chunks : ℕ → ℕ → Bytes → Ctx → Result Bytes × Ctx
  unfolding copy_chunk decimal
  copy_chunks zero seq file ctx = (ok file, ctx)
  copy_chunks (suc n) seq file ctx =
      let copied =
        copy_chunk (map_get (decimal seq) d)
          (λ chunk.
            copy_chunks n (seq + 1) (file ++ chunk)
              (record ctx { loaded = ctx.loaded + length chunk }))
          ctx in
      if canceled seq then (err other, ctx) else copied

unfoldable pub close_file : Result Bytes → Dir → Dir
close_file (ok content) d = map_set file_name content d
close_file (err e) d = map_delete file_name d

module _ (remove_all : Dir → Option Dir) (dir : Str) where
  unfoldable pub close_with :
      Str → Dir → FileSystem → Result Bytes × Ctx → Result Bytes × Ctx × FileSystem
  unfolding close_file leave
  close_with id d fs (r, ctx) = (r, ctx, leave remove_all dir id (close_file r d) fs)

  unfoldable pub complete_found :
      (ℕ → Bool) → Result ChunkUpload → Ctx → FileSystem → Result Bytes × Ctx × FileSystem
  unfolding close_with copy_chunks has_chunks files_at get_dir
  complete_found canceled (err e) ctx fs = (err e, ctx, fs)
  complete_found canceled (ok u) ctx fs =
      let opened = map_set file_name [] (files_at (get_dir dir u.id) fs) in
      if has_chunks u.chunks 0 (files_at (get_dir dir u.id) fs)
      then close_with u.id opened fs
          (copy_chunks canceled opened u.chunks 0 [] (record ctx { total = u.size }))
      else (err not_allowed, ctx, fs)

  -- CompleteUpload
  unfoldable pub complete_upload :
      (ℕ → Bool) → Str → Ctx → FileSystem → Result Bytes × Ctx × FileSystem
  unfolding complete_found get_upload
  complete_upload canceled id ctx fs = complete_found canceled (get_upload dir id fs) ctx fs
