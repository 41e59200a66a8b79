-- ===== src/Uploads/Assembly.antt =====
-- server/chunk_uploader.go: CompleteUpload puts the chunks together.
use solocoder_6069_go_drive.Common.{
  ◌^◌, ℕ, ◌+◌, ◌*◌, ◌≤◌, ◌<◌, Bool, true, false, List, [], length, Str, Option, map_get, map_set,
  str_eq, str_eq_iff, ◌≡◌, ◌≢◌, refl, sym, ap, ◌∙◌, inr, arith, In,
}
use solocoder_6069_go_drive.Errors.{ok, err, not_allowed}
use solocoder_6069_go_drive.Uploads.{
  Bytes, Dir, FileSystem, ChunkUpload, get_dir, get_upload, files_at, is_file_there, file_name,
  mark_name, is_marked_delete, Ctx, has_chunks, copy_chunks, close_file, close_with, complete_found,
  complete_upload,
}
use solocoder_6069_go_drive.Common.Float.{ceil_div}
use solocoder_6069_go_drive.Uploads.Pieces.{ceil_div-covers}
use solocoder_6069_go_drive.Uploads.Found.{
  get_upload-Found, decimal-ne-file_name, map_get-map_set_same, map_get-map_set_other,
  unmarked-leave, mark-map_set,
}
use solocoder_6069_go_drive.Uploads.Sending.{
  IsOpen, Has, send_chunks, send_chunks-IsOpen, send_chunks-Has, chunks_exact, id_same,
}
use solocoder_6069_go_drive.Common.Text.Numbers.{decimal}
use solocoder_6069_go_drive.Uploads.Copying.{has_chunks-all, copy_chunks-whole}

-- The chunks' names are not those of the file and of the mark.
opened-chunk :
    (k : ℕ) (d : Dir) (file : Bytes)
    → map_get (decimal k) (map_set file_name file d) ≡ map_get (decimal k) d
opened-chunk k d file =
    map_get-map_set_other file_name (decimal k) file d (λ e. decimal-ne-file_name k (sym e))

file-ne-mark : file_name ≢ mark_name
unfolding str_eq
file-ne-mark e = let p : false ≡ true = (str_eq_iff file_name mark_name).1 e in cc

pub opened-mark :
    (d : Dir) (file : Bytes) → is_marked_delete (map_set file_name file d) ≡ is_marked_delete d
opened-mark d file = mark-map_set file_name file d file-ne-mark

module _ (remove_all : Dir → Option Dir) (dir : Str) (id : Str) (u : ChunkUpload)
    (content : Bytes) where
  -- CompleteUpload of an upload that has its chunks.
  pub complete-copying :
      (canceled : ℕ → Bool) (fs : FileSystem) (ctx : Ctx)
      → get_upload dir id fs ≡ ok u
      → has_chunks u.chunks 0 (files_at (get_dir dir id) fs) ≡ true
      → complete_upload remove_all dir canceled id ctx fs
        ≡ close_with remove_all dir id (map_set file_name [] (files_at (get_dir dir id) fs)) fs (
            copy_chunks canceled
              (map_set file_name [] (files_at (get_dir dir id) fs))
              u.chunks
              0
              []
              (record { total = u.size; loaded = ctx.loaded }))
  unfolding complete_upload complete_found
  complete-copying canceled fs ctx e h =
      let same = id_same remove_all dir id u content fs e in rw (e, same, h) refl

  pub complete-refused :
      (canceled : ℕ → Bool) (fs : FileSystem) (ctx : Ctx)
      → get_upload dir id fs ≡ ok u
      → has_chunks u.chunks 0 (files_at (get_dir dir id) fs) ≡ false
      → complete_upload remove_all dir canceled id ctx fs ≡ (err not_allowed, ctx, fs)
  unfolding complete_upload complete_found
  complete-refused canceled fs ctx e h =
      let same = id_same remove_all dir id u content fs e in rw (e, same, h) refl

  close-written :
      (file : Bytes) (ctx : Ctx) (d : Dir) (fs : FileSystem)
      → is_marked_delete d ≡ false
      → close_with remove_all dir id d fs (ok file, ctx)
        ≡ (ok file, ctx, map_set (get_dir dir id) (map_set file_name file d) fs)
  unfolding close_with close_file
  close-written file ctx d fs m =
      ap (λ f. (ok file, ctx, f))
        (unmarked-leave remove_all dir id (map_set file_name file d) fs (opened-mark d file ∙ m))

  complete-pieces :
      (fs : FileSystem) (ctx : Ctx)
      → IsOpen remove_all dir id u content fs
      → length content ≡ u.size
      → u.chunks ≡ ceil_div u.size u.chunk_size
      → ((k : ℕ) → k < u.chunks → Has remove_all dir id u content k fs)
      → complete_upload remove_all dir (λ _. false) id ctx fs ≡ (
        ok content,
        record { total = u.size; loaded = ctx.loaded + u.size },
        map_set
            (get_dir dir id)
            (map_set file_name content (map_set file_name [] (files_at (get_dir dir id) fs)))
            fs,
      )
  unfolding Has is_file_there
  complete-pieces fs ctx o fits exact h =
      let d = files_at (get_dir dir id) fs in
      let opened = map_set file_name [] d in
      let unmarked : is_marked_delete opened ≡ false = opened-mark d [] ∙ o.not_marked in
      let whole_file : length content ≤ u.chunks * u.chunk_size =
        rw (exact, fits)
          (ceil_div-covers u.size u.chunk_size (get_upload-Found dir id fs u o.found).positive) in
      complete-copying (λ _. false) fs ctx o.found
        (has_chunks-all u.chunks 0 d (λ k a b. ap is_file_there (h k (omega (arith, b)))))
      ∙ ap (close_with remove_all dir id opened fs) (
          copy_chunks-whole opened u.chunk_size content u.size ctx.loaded u.chunks unmarked
            (λ k l. opened-chunk k d [] ∙ h k l) whole_file)
      ∙ close-written content (record { total = u.size; loaded = ctx.loaded + length content })
          opened fs unmarked
      ∙ ap
          (λ n. (
            ok content,
            record { total = u.size; loaded = ctx.loaded + n },
            map_set (get_dir dir id) (map_set file_name content opened) fs,
          ))
          fits

  -- For an upload that getUpload finds and that is not marked as deleted, whose size and chunk size are
  -- below 2^53, and a file of its size: when
  -- the chunks of the file have been sent in any order, each at least once, others with them or not,
  -- CompleteUpload in a task that is not canceled answers the file, with its size as the total and added
  -- to what is loaded. Then getUpload still finds the upload.
  pub complete_upload-send_chunks :
      (ks : List ℕ) (fs : FileSystem) (ctx : Ctx)
      → get_upload dir id fs ≡ ok u
      → is_marked_delete (files_at (get_dir dir id) fs) ≡ false
      → u.size < 2 ^ 53
      → u.chunk_size < 2 ^ 53
      → length content ≡ u.size
      → ((k : ℕ) → k < u.chunks → In k ks)
      → (after : FileSystem) × (complete_upload remove_all dir
            (λ _. false)
            id
            ctx
            (send_chunks remove_all dir id u content ks fs)
          ≡ (ok content, record { total = u.size; loaded = ctx.loaded + u.size }, after))
        × (get_upload dir id after ≡ ok u)
  complete_upload-send_chunks ks fs ctx e m small small_chunk fits all =
      let exact = chunks_exact remove_all dir id u content fs e small small_chunk in
      let sent = send_chunks remove_all dir id u content ks fs in
      let begun : IsOpen remove_all dir id u content fs = record { found = e; not_marked = m } in
      let o = send_chunks-IsOpen remove_all dir id u content fits exact ks fs begun in
      let d = map_set file_name content (map_set file_name [] (files_at (get_dir dir id) sent)) in
      (
        map_set (get_dir dir id) d sent,
        complete-pieces sent ctx o fits exact (λ k l.
            send_chunks-Has remove_all dir id u content fits exact k ks fs begun l (inr (all k l))),
        (get_upload-Found dir id sent u o.found).again (map_set (get_dir dir id) d sent) d
            (map_get-map_set_same (get_dir dir id) d sent),
      )
