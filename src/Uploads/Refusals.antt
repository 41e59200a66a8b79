-- ===== src/Uploads/Refusals.antt =====
-- server/chunk_uploader.go: chunks that are refused.
use solocoder_6069_go_drive.Common.{
  ℕ, ◌<◌, Bool, true, false, ◌==◌, ltb, [], length, Str, Option, some, map_set, map_delete, ◌≡◌,
  ◌≢◌, refl, ap, ◌∙◌, inl, inr, ◌⊎◌, Bool-cases, arith,
}
use solocoder_6069_go_drive.Errors.{ok, err, not_allowed, bad_request, other, Error}
use solocoder_6069_go_drive.Uploads.{
  Dir, FileSystem, ChunkUpload, get_dir, get_upload, files_at, is_file_there, mark_name,
  is_marked_delete, Reader, check_seq, size_of_chunk, write_chunk, leave_with, upload_found,
  chunk_upload, Ctx, has_chunks, complete_upload,
}
use solocoder_6069_go_drive.Uploads.Found.{
  get_upload-Found, decimal-ne-mark_name, map_get-map_set_same, map_get-map_delete_same,
  map_get-map_delete_other, files_at-map_set, unmarked-leave,
}
use solocoder_6069_go_drive.Uploads.Sending.{id_same}
use solocoder_6069_go_drive.Common.Text.Numbers.{decimal}
use solocoder_6069_go_drive.Uploads.Copying.{has_chunks-missing}
use solocoder_6069_go_drive.Uploads.Assembly.{complete-refused}

-- A request whose content cannot be read, or has not the size of the chunk.
abbrev pub IsBadChunk : ChunkUpload → ℕ → Reader → Type 0
IsBadChunk u k reader = (reader.fails ≡ true) ⊎ (length reader.content ≢ size_of_chunk u k)

write_chunk-bad :
    (u : ChunkUpload) (k : ℕ) (reader : Reader) (d : Dir)
    → k < u.chunks
    → IsBadChunk u k reader
    → (x : Error) × (write_chunk u reader (check_seq (some k) u.chunks) d
        ≡ (err x, map_delete (decimal k) d))
unfolding write_chunk check_seq
write_chunk-bad u k reader d l bad =
    let inside : ltb k u.chunks ≡ true = ground arith in
    elim (Bool-cases reader.fails) [
      | inl f ↦ (other, rw (inside, f) refl)
      | inr f ↦
          let differs : (length reader.content == size_of_chunk u k) ≡ false = elim bad [
            | inl g ↦ let no : ⊥ = cc in absurd no
            | inr h ↦ ground arith
          ] in
          (bad_request, rw (inside, f, differs) refl)
    ]

unmarked-map_delete :
    (k : ℕ) (d : Dir)
    → is_marked_delete d ≡ false
    → is_marked_delete (map_delete (decimal k) d) ≡ false
unfolding is_marked_delete
unmarked-map_delete k d m =
    ap is_file_there (map_get-map_delete_other (decimal k) mark_name d (decimal-ne-mark_name k)) ∙ m

module _ (remove_all : Dir → Option Dir) (dir : Str) (id : Str) (u : ChunkUpload) where
  bad-written :
      (k : ℕ) (reader : Reader) (fs : FileSystem) (x : Error) (d : Dir)
      → get_upload dir id fs ≡ ok u
      → write_chunk u reader (check_seq (some k) u.chunks) (files_at (get_dir dir id) fs)
        ≡ (err x, d)
      → is_marked_delete d ≡ false
      → chunk_upload remove_all dir id (some k) reader fs
        ≡ some (err x, map_set (get_dir dir id) d fs)
  unfolding chunk_upload upload_found leave_with
  bad-written k reader fs x d e w m =
      let same = id_same remove_all dir id u [] fs e in
      rw (e, same, w, unmarked-leave remove_all dir id d fs m) refl

  -- For an upload that getUpload finds and that is not marked as deleted: when a chunk is sent with
  -- content that cannot be read or has another size than the chunk, whether or not it was sent well
  -- before, ChunkUpload answers an error, and CompleteUpload after it answers that it is not allowed and
  -- changes nothing.
  pub complete_upload-bad_chunk :
      (canceled : ℕ → Bool) (k : ℕ) (reader : Reader) (fs : FileSystem) (ctx : Ctx)
      → get_upload dir id fs ≡ ok u
      → is_marked_delete (files_at (get_dir dir id) fs) ≡ false
      → k < u.chunks
      → IsBadChunk u k reader
      → (x : Error) × (after : FileSystem) × (chunk_upload remove_all dir id (some k) reader fs
          ≡ some (err x, after))
        × (complete_upload remove_all dir canceled id ctx after ≡ (err not_allowed, ctx, after))
  complete_upload-bad_chunk canceled k reader fs ctx e m l bad =
      let d = files_at (get_dir dir id) fs in
      let gone = map_delete (decimal k) d in
      let after = map_set (get_dir dir id) gone fs in
      let (x, w) = write_chunk-bad u k reader d l bad in
      let found : get_upload dir id after ≡ ok u =
        (get_upload-Found dir id fs u e).again after gone
          (map_get-map_set_same (get_dir dir id) gone fs) in
      let missing : has_chunks u.chunks 0 (files_at (get_dir dir id) after) ≡ false =
        rw (files_at-map_set (get_dir dir id) gone fs) (
          has_chunks-missing u.chunks 0 k gone (omega arith) (omega (arith, l))
            (map_get-map_delete_same (decimal k) d)) in
      (
        x,
        after,
        bad-written k reader fs x gone e w (unmarked-map_delete k d m),
        complete-refused remove_all dir id u [] canceled after ctx found missing,
      )
