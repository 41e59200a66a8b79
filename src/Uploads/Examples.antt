-- ===== src/Uploads/Examples.antt =====
-- An upload of five bytes in chunks of two.
use solocoder_6069_go_drive.Common.Float.{ceil_float}
use solocoder_6069_go_drive.Common.{
  ◌+◌, ◌^◌, ℕ, ◌<◌, true, false, ◌==◌, List, [], ◌∷◌, Str, codes, split, Option, none, some,
  map_get, map_set, ◌≡◌, refl, inl, inr, Bool-cases, arith, In, ==_iff,
}
use solocoder_6069_go_drive.Errors.{ok, err, not_allowed, Error}
use solocoder_6069_go_drive.Uploads.{
  Bytes, Dir, FileSystem, ChunkUpload, new_chunk_upload, is_valid_upload_id_part, get_dir,
  generate_upload_id, id_parts, get_upload, files_at, is_marked_delete, size_of_chunk,
  delete_upload, upload_found, chunk_upload, Ctx, complete_upload,
}
use solocoder_6069_go_drive.Uploads.Ids.{get_upload-generate_upload_id, made-there}
use solocoder_6069_go_drive.Uploads.Found.{whole}
use solocoder_6069_go_drive.Uploads.Sending.{send_chunks}
use solocoder_6069_go_drive.Uploads.Assembly.{complete_upload-send_chunks}
use solocoder_6069_go_drive.Uploads.Refusals.{IsBadChunk, complete_upload-bad_chunk}
use solocoder_6069_go_drive.Uploads.Deletion.{complete_upload-delete_upload}

abbrev id : Str
id = generate_upload_id (codes "a1") 5 2

abbrev upload : ChunkUpload
upload = record { id = id; size = 5; chunk_size = 2; chunks = 3 }

abbrev storage : FileSystem
storage = map_set (get_dir (codes "/t") id) [] []

abbrev task : Ctx
task = record { total = 0; loaded = 0 }

abbrev removes : Dir → Option Dir
removes d = none

abbrev keeps : Dir → Option Dir
keeps d = some d

a1-valid : is_valid_upload_id_part (codes "a1") ≡ true
unfolding is_valid_upload_id_part
a1-valid = refl

found : get_upload (codes "/t") id storage ≡ ok upload
unfolding new_chunk_upload
found =
    get_upload-generate_upload_id (codes "/t") (codes "a1") 5 2 storage [] a1-valid (omega arith)
      (omega arith) (omega arith) (omega arith) (made-there (get_dir (codes "/t") id) [])

unmarked : is_marked_delete (files_at (get_dir (codes "/t") id) storage) ≡ false
unfolding files_at is_marked_delete
unmarked = rw (made-there (get_dir (codes "/t") id) []) (unfold map_get in refl)

abbrev order : List ℕ
order = 2 ∷ 7 ∷ 0 ∷ 1 ∷ 0 ∷ []

order-covers : (k : ℕ) → k < 3 → In k order
order-covers k l = elim (Bool-cases (k == 0)) [
  | inl a ↦ inr (inr (inl ((==_iff k 0).0 a)))
  | inr a ↦ elim (Bool-cases (k == 1)) [
    | inl b ↦ inr (inr (inr (inl ((==_iff k 1).0 b))))
    | inr b ↦ inl (ground arith)
  ]
]

abbrev five_bytes : Bytes
five_bytes = 1 ∷ 2 ∷ 3 ∷ 4 ∷ 5 ∷ []

complete_upload-send_chunks_example :
    (after : FileSystem) × (complete_upload removes
        (codes "/t")
        (λ _. false)
        id
        task
        (send_chunks removes (codes "/t") id upload five_bytes order storage)
      ≡ (ok five_bytes, record { total = 5; loaded = 5 }, after))
    × (get_upload (codes "/t") id after ≡ ok upload)
complete_upload-send_chunks_example =
    complete_upload-send_chunks removes (codes "/t") id upload five_bytes order storage task found
      unmarked (omega arith) (omega arith) refl order-covers

short : IsBadChunk upload 1 (whole (7 ∷ []))
unfolding size_of_chunk
short = inr (λ e. omega arith)

complete_upload-bad_chunk_example :
    (x : Error) × (after : FileSystem) × (chunk_upload removes
        (codes "/t")
        id
        (some 1)
        (whole (7 ∷ []))
        storage
      ≡ some (err x, after))
    × (complete_upload removes (codes "/t") (λ _. false) id task after
        ≡ (err not_allowed, task, after))
complete_upload-bad_chunk_example =
    complete_upload-bad_chunk removes (codes "/t") id upload (λ _. false) 1 (whole (7 ∷ [])) storage
      task found unmarked (omega arith) short

complete_upload-delete_upload_example :
    (x : Error) × ((complete_upload keeps
        (codes "/t")
        (λ _. false)
        id
        task
        (delete_upload keeps (codes "/t") id storage).1).0
      ≡ err x)
complete_upload-delete_upload_example =
    complete_upload-delete_upload keeps (codes "/t") id upload (λ _. false) storage task found

-- A chunk of an upload that is not there: the deferred function panics.
chunk_upload-panics : chunk_upload removes (codes "/t") (codes "a1_5") (some 0) (whole []) [] ≡ none
unfolding chunk_upload upload_found get_upload id_parts split
chunk_upload-panics = refl

-- One byte more than two chunks of 2^52 bytes makes two chunks.
counts_two : ceil_float (2 ^ 53 + 1) (2 ^ 52) ≡ 2
unfolding ceil_float
counts_two = refl
