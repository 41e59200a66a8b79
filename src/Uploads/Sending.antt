-- ===== src/Uploads/Sending.antt =====
-- server/chunk_uploader.go: chunks that are sent in any order.
use solocoder_6069_go_drive.Common.{
  ◌^◌, ℕ, ◌≤◌, ◌<◌, false, ◌==◌, ltb, List, [], ◌∷◌, length, Str, Option, none, some, map_get,
  map_set, ◌≡◌, refl, sym, ap, ◌∙◌, inl, inr, ◌⊎◌, Bool-cases, arith, In, ==_iff,
}
use solocoder_6069_go_drive.Errors.{Result, ok, err, not_allowed}
use solocoder_6069_go_drive.Uploads.{
  Bytes, Dir, FileSystem, ChunkUpload, new_chunk_upload, get_dir, get_upload, files_at,
  is_marked_delete, check_seq, size_of_chunk, write_chunk, leave_with, upload_found, chunk_upload,
}
use solocoder_6069_go_drive.Uploads.Pieces.{piece, length-piece, exact_upload}
use solocoder_6069_go_drive.Common.Float.{ceil_div, ceil_float}
use solocoder_6069_go_drive.Common.Float.Exact.{ceil_float-exact}
use solocoder_6069_go_drive.Uploads.Found.{
  get_upload-Found, decimal-ne-mark_name, map_get-map_set_same, map_get-map_set_other, whole,
  files_at-map_set, unmarked-leave, mark-map_set, write_chunk-whole, write_chunk-outside,
}
use solocoder_6069_go_drive.Common.Text.Numbers.{decimal, decimal_injective}

unfoldable pub after_upload : {X : Type 0} → Option (X × FileSystem) → FileSystem → FileSystem
after_upload none fs = fs
after_upload (some (x, fs')) fs = fs'

module _ (remove_all : Dir → Option Dir) (dir : Str) (id : Str) (u : ChunkUpload)
    (content : Bytes) where
  -- The client sends the chunk with the number k.
  unfoldable pub send_chunk : ℕ → FileSystem → FileSystem
  send_chunk k fs =
      after_upload
        (chunk_upload remove_all dir id (some k) (whole (piece u.chunk_size content k)) fs) fs

  unfoldable pub send_chunks : List ℕ → FileSystem → FileSystem
  send_chunks [] fs = fs
  send_chunks (k ∷ ks) fs = send_chunks ks (send_chunk k fs)

  -- The upload can be found and is not marked as deleted.
  pub record IsOpen (fs : FileSystem) : Type 0 where
    pub found : get_upload dir id fs ≡ ok u
    pub not_marked : is_marked_delete (files_at (get_dir dir id) fs) ≡ false

  unfoldable pub Has : ℕ → FileSystem → Type 0
  Has k fs =
      map_get (decimal k) (files_at (get_dir dir id) fs) ≡ some (piece u.chunk_size content k)

  pub id_same : (fs : FileSystem) → get_upload dir id fs ≡ ok u → u.id ≡ id
  unfolding new_chunk_upload
  id_same fs e = ap (λ v. v.id) (get_upload-Found dir id fs u e).is_new

  sent-files :
      (fs : FileSystem) (r : Result {0} Unit) (k : ℕ) (d : Dir)
      → IsOpen fs
      → write_chunk u
          (whole (piece u.chunk_size content k))
          (check_seq (some k) u.chunks)
          (files_at (get_dir dir id) fs)
        ≡ (r, d)
      → is_marked_delete d ≡ false
      → chunk_upload remove_all dir id (some k) (whole (piece u.chunk_size content k)) fs
        ≡ some (r, map_set (get_dir dir id) d fs)
  unfolding chunk_upload upload_found leave_with
  sent-files fs r k d o w m =
      rw (o.found, id_same fs o.found, w, unmarked-leave remove_all dir id d fs m) refl

  pub chunks_def :
      (fs : FileSystem) → get_upload dir id fs ≡ ok u → u.chunks ≡ ceil_float u.size u.chunk_size
  unfolding new_chunk_upload
  chunks_def fs e = ap (λ v. v.chunks) (get_upload-Found dir id fs u e).is_new

  -- Below 2^53 the number of chunks is exact.
  pub chunks_exact :
      (fs : FileSystem)
      → get_upload dir id fs ≡ ok u
      → u.size < 2 ^ 53
      → u.chunk_size < 2 ^ 53
      → u.chunks ≡ ceil_div u.size u.chunk_size
  chunks_exact fs e l m =
      chunks_def fs e
      ∙ ceil_float-exact u.size u.chunk_size l m (get_upload-Found dir id fs u e).positive

  module _ (fits : length content ≡ u.size) (exact : u.chunks ≡ ceil_div u.size u.chunk_size) where
    piece-fits :
        (k : ℕ) (fs : FileSystem)
        → get_upload dir id fs ≡ ok u
        → k < u.chunks
        → length (piece u.chunk_size content k) ≡ size_of_chunk u k
    unfolding size_of_chunk
    piece-fits k fs e l =
        let f = get_upload-Found dir id fs u e in
        let below : k < ceil_div (length content) u.chunk_size = rw (fits, sym exact) l in
        length-piece id u.chunk_size k content f.positive below
        ∙ ap (λ n. size_of_chunk (exact_upload id n u.chunk_size) k) fits
        ∙ ap (λ n. size_of_chunk (record u { chunks = n }) k) (sym exact)

    marked-piece :
        (k : ℕ) (d : Dir)
        → is_marked_delete d ≡ false
        → is_marked_delete (map_set (decimal k) (piece u.chunk_size content k) d) ≡ false
    marked-piece k d m =
        mark-map_set (decimal k) (piece u.chunk_size content k) d (decimal-ne-mark_name k) ∙ m

    send_chunk-inside :
        (k : ℕ) (fs : FileSystem)
        → IsOpen fs
        → k < u.chunks
        → send_chunk k fs
          ≡ map_set
              (get_dir dir id)
              (map_set (decimal k) (piece u.chunk_size content k) (files_at (get_dir dir id) fs))
              fs
    unfolding send_chunk after_upload
    send_chunk-inside k fs o l =
        let d = files_at (get_dir dir id) fs in
        ap (λ r. after_upload r fs)
          (sent-files fs (ok tt) k (map_set (decimal k) (piece u.chunk_size content k) d) o
            (write_chunk-whole u (piece u.chunk_size content k) k d l (piece-fits k fs o.found l))
            (marked-piece k d o.not_marked))

    send_chunk-outside :
        (k : ℕ) (fs : FileSystem)
        → IsOpen fs
        → u.chunks ≤ k
        → send_chunk k fs ≡ map_set (get_dir dir id) (files_at (get_dir dir id) fs) fs
    unfolding send_chunk after_upload
    send_chunk-outside k fs o l =
        let d = files_at (get_dir dir id) fs in
        ap (λ r. after_upload r fs)
          (sent-files fs (err not_allowed) k d o
            (write_chunk-outside u (whole (piece u.chunk_size content k)) k d l) o.not_marked)

    pub IsOpen-map_set :
        (d : Dir) (fs : FileSystem)
        → IsOpen fs
        → is_marked_delete d ≡ false
        → IsOpen (map_set (get_dir dir id) d fs)
    IsOpen-map_set d fs o m = record {
      found =
          (get_upload-Found dir id fs u o.found).again (map_set (get_dir dir id) d fs) d
            (map_get-map_set_same (get_dir dir id) d fs);
      not_marked = rw (files_at-map_set (get_dir dir id) d fs) m;
    }

    send_chunk-IsOpen : (k : ℕ) (fs : FileSystem) → IsOpen fs → IsOpen (send_chunk k fs)
    send_chunk-IsOpen k fs o =
        let d = files_at (get_dir dir id) fs in
        elim (Bool-cases (ltb k u.chunks)) [
          | inl b ↦ rw (send_chunk-inside k fs o (ground arith)) (
              IsOpen-map_set (map_set (decimal k) (piece u.chunk_size content k) d) fs o
                (marked-piece k d o.not_marked))
          | inr b ↦
              rw (send_chunk-outside k fs o (ground arith)) (IsOpen-map_set d fs o o.not_marked)
        ]

    Has-map_set :
        (j : ℕ) (d : Dir) (fs : FileSystem)
        → map_get (decimal j) d ≡ some (piece u.chunk_size content j)
        → Has j (map_set (get_dir dir id) d fs)
    unfolding Has
    Has-map_set j d fs e = rw (files_at-map_set (get_dir dir id) d fs) e

    piece-kept :
        (j k : ℕ) (d : Dir)
        → (map_get (decimal j) d ≡ some (piece u.chunk_size content j)) ⊎ (j ≡ k)
        → map_get (decimal j) (map_set (decimal k) (piece u.chunk_size content k) d)
          ≡ some (piece u.chunk_size content j)
    piece-kept j k d h = elim (Bool-cases (k == j)) [
      | inl b ↦
          let same : k ≡ j = (==_iff k j).0 b in
          rw same (map_get-map_set_same (decimal j) (piece u.chunk_size content j) d)
      | inr b ↦
          map_get-map_set_other (decimal k) (decimal j) (piece u.chunk_size content k) d
            (λ e. let s = decimal_injective k j e in let no : ⊥ = ground arith in no)
          ∙ elim h [ inl m ↦ m | inr s ↦ let no : ⊥ = ground arith in absurd no ]
    ]

    send_chunk-Has :
        (j k : ℕ) (fs : FileSystem)
        → IsOpen fs
        → j < u.chunks
        → Has j fs ⊎ (j ≡ k)
        → Has j (send_chunk k fs)
    unfolding Has
    send_chunk-Has j k fs o l h =
        let d = files_at (get_dir dir id) fs in
        elim (Bool-cases (ltb k u.chunks)) [
          | inl b ↦ rw (send_chunk-inside k fs o (ground arith)) (
              Has-map_set j (map_set (decimal k) (piece u.chunk_size content k) d) fs
                (piece-kept j k d h))
          | inr b ↦ rw (send_chunk-outside k fs o (ground arith)) (
              Has-map_set j d fs
                (elim h [ inl m ↦ m | inr s ↦ let no : ⊥ = ground arith in absurd no ]))
        ]

    pub send_chunks-IsOpen :
        (ks : List ℕ) (fs : FileSystem) → IsOpen fs → IsOpen (send_chunks ks fs)
    unfolding send_chunks
    send_chunks-IsOpen [] fs o = o
    send_chunks-IsOpen (k ∷ ks) fs o =
        send_chunks-IsOpen ks (send_chunk k fs) (send_chunk-IsOpen k fs o)

    pub send_chunks-Has :
        (j : ℕ) (ks : List ℕ) (fs : FileSystem)
        → IsOpen fs
        → j < u.chunks
        → Has j fs ⊎ In j ks
        → Has j (send_chunks ks fs)
    unfolding send_chunks
    send_chunks-Has j [] fs o l h = elim h [ inl m ↦ m | inr m ↦ absurd m ]
    send_chunks-Has j (k ∷ ks) fs o l h =
        send_chunks-Has j ks (send_chunk k fs) (send_chunk-IsOpen k fs o) l (elim h [
          | inl m ↦ inl (send_chunk-Has j k fs o l (inl m))
          | inr m ↦ elim m [ inl e ↦ inl (send_chunk-Has j k fs o l (inr e)) | inr r ↦ inr r ]
        ])
