-- ===== src/Uploads/Deletion.antt =====
-- server/chunk_uploader.go: DeleteUpload, and the mark where the directory could not be removed.
use solocoder_6069_go_drive.Common.{
  ℕ, zero, suc, ◌<◌, Bool, true, false, [], Str, Option, none, some, map_set, map_delete, ◌≡◌, refl,
  ap, ◌∙◌, inl, inr, Bool-cases, arith,
}
use solocoder_6069_go_drive.Errors.{Result, ok, err, not_found, not_allowed, other, Error}
use solocoder_6069_go_drive.Uploads.{
  Bytes, Dir, FileSystem, ChunkUpload, get_dir, get_upload, files_at, is_file_there, file_name,
  mark_name, is_marked_delete, mark_deleted, remove_dir, delete_found, delete_upload, Ctx,
  has_chunks, copy_chunk, copy_chunks, close_with, complete_found, complete_upload,
}
use solocoder_6069_go_drive.Uploads.Found.{
  get_upload-Found, map_get-map_set_same, map_get-map_delete_same, files_at-map_set,
}
use solocoder_6069_go_drive.Uploads.Sending.{chunks_def}
use solocoder_6069_go_drive.Common.Float.Positive.{ceil_float_positive}
use solocoder_6069_go_drive.Uploads.Assembly.{complete-copying, complete-refused, opened-mark}

mark_deleted-marked : (d : Dir) → is_marked_delete (mark_deleted d) ≡ true
unfolding mark_deleted
mark_deleted-marked d = elim (Bool-cases (is_marked_delete d)) [
  | inl m ↦ rw m m
  | inr m ↦ rw m (
      unfold is_marked_delete is_file_there in
      ap is_file_there (map_get-map_set_same mark_name [] d))
]

-- In a directory that is marked the loop stops at the first chunk.
copy_chunk-marked :
    (d : Dir) (o : Option Bytes) (rest : Bytes → Result Bytes × Ctx) (ctx : Ctx)
    → is_marked_delete d ≡ true
    → copy_chunk (λ _. false) d o rest ctx ≡ (err other, ctx)
unfolding copy_chunk
copy_chunk-marked d none rest ctx m = refl
copy_chunk-marked d (some chunk) rest ctx m = rw m refl

copy_chunks-marked :
    (canceled : ℕ → Bool) (d : Dir) (n seq : ℕ) (file : Bytes) (ctx : Ctx)
    → is_marked_delete d ≡ true
    → 0 < n
    → copy_chunks canceled d n seq file ctx ≡ (err other, ctx)
unfolding copy_chunks
copy_chunks-marked canceled d zero seq file ctx m l = let no : ⊥ = omega arith in absurd no
copy_chunks-marked canceled d (suc n) seq file ctx m l = elim (Bool-cases (canceled seq)) [
  | inl c ↦ rw c refl
  | inr c ↦ rw c (copy_chunk-marked d _ _ ctx m)
]

close_with-first :
    (remove_all : Dir → Option Dir) (dir id : Str) (d : Dir) (fs : FileSystem)
    (r : Result Bytes × Ctx)
    → (close_with remove_all dir id d fs r).0 ≡ r.0
unfolding close_with
close_with-first remove_all dir id d fs (r, ctx) = refl

module _ (remove_all : Dir → Option Dir) (dir : Str) (id : Str) (u : ChunkUpload) where
  chunks_positive : (fs : FileSystem) → get_upload dir id fs ≡ ok u → 0 < u.chunks
  chunks_positive fs e =
      let f = get_upload-Found dir id fs u e in
      rw (chunks_def remove_all dir id u [] fs e)
        (ceil_float_positive u.size u.chunk_size f.some_bytes f.positive)

  complete-marked :
      (canceled : ℕ → Bool) (fs : FileSystem) (ctx : Ctx)
      → get_upload dir id fs ≡ ok u
      → is_marked_delete (files_at (get_dir dir id) fs) ≡ true
      → (x : Error) × ((complete_upload remove_all dir canceled id ctx fs).0 ≡ err x)
  complete-marked canceled fs ctx e m =
      let d = files_at (get_dir dir id) fs in
      let opened = map_set file_name [] d in
      let ctx' : Ctx = record { total = u.size; loaded = ctx.loaded } in
      elim (Bool-cases (has_chunks u.chunks 0 d)) [
        | inl h ↦ (
          other,
          ap (λ r. r.0) (complete-copying remove_all dir id u [] canceled fs ctx e h)
              ∙ close_with-first remove_all dir id opened fs
                  (copy_chunks canceled opened u.chunks 0 [] ctx')
              ∙ ap (λ r. r.0)
                  (copy_chunks-marked canceled opened u.chunks 0 [] ctx' (opened-mark d [] ∙ m)
                    (chunks_positive fs e)),
        )
        | inr h ↦ (
          not_allowed,
          ap (λ r. r.0) (complete-refused remove_all dir id u [] canceled fs ctx e h),
        )
      ]

  complete-unfound :
      (canceled : ℕ → Bool) (fs : FileSystem) (ctx : Ctx) (x : Error)
      → get_upload dir id fs ≡ err x
      → (complete_upload remove_all dir canceled id ctx fs).0 ≡ err x
  unfolding complete_upload complete_found
  complete-unfound canceled fs ctx x e = rw e refl

  removed-incomplete :
      (canceled : ℕ → Bool) (left : Option Dir) (fs : FileSystem) (ctx : Ctx)
      → get_upload dir id fs ≡ ok u
      → (x : Error) × ((complete_upload remove_all dir canceled id ctx
            (remove_dir remove_all dir (get_dir dir id) left fs)).0
          ≡ err x)
  unfolding remove_dir
  removed-incomplete canceled none fs ctx e =
      let f = get_upload-Found dir id fs u e in
      let after = map_delete (get_dir dir id) fs in
      (
        not_found,
        complete-unfound canceled after ctx not_found
            (f.gone after (map_get-map_delete_same (get_dir dir id) fs)),
      )
  removed-incomplete canceled (some rest) fs ctx e =
      let f = get_upload-Found dir id fs u e in
      let d = mark_deleted rest in
      let after = map_set (get_dir dir id) d fs in
      complete-marked canceled after ctx
        (f.again after d (map_get-map_set_same (get_dir dir id) d fs))
        (rw (files_at-map_set (get_dir dir id) d fs) (mark_deleted-marked rest))

  -- After DeleteUpload of an upload that getUpload finds, whether os.RemoveAll removed its directory or
  -- failed and left whatever files in it, CompleteUpload of the upload answers an error.
  pub complete_upload-delete_upload :
      (canceled : ℕ → Bool) (fs : FileSystem) (ctx : Ctx)
      → get_upload dir id fs ≡ ok u
      → (x : Error) × ((complete_upload remove_all dir canceled id ctx
            (delete_upload remove_all dir id fs).1).0
          ≡ err x)
  unfolding delete_upload delete_found
  complete_upload-delete_upload canceled fs ctx e =
      let path = get_dir dir id in
      let left = remove_all (files_at path fs) in
      let deleted : (delete_upload remove_all dir id fs).1
          ≡ remove_dir remove_all dir path left fs =
        rw e refl in
      rw deleted (removed-incomplete canceled left fs ctx e)
