-- ===== src/Uploads/Ids.antt =====
-- server/chunk_uploader.go: the id of an upload, which tells its sizes. CreateUpload and getUpload.
use solocoder_6069_go_drive.Common.{
  ℕ, ◌^◌, ◌<◌, true, false, ◌==◌, [], ◌∷◌, ◌++◌, if◌then◌else◌, Str, split, some, map_get, map_set,
  map_get-map_set, str_eq_refl, ◌≡◌, ◌≢◌, refl, ap, ◌∙◌, Lacks, arith,
}
use solocoder_6069_go_drive.Errors.{ok}
use solocoder_6069_go_drive.Uploads.{
  Dir, FileSystem, new_chunk_upload, is_id_char, all_id_chars, is_valid_upload_id_part, get_dir,
  generate_upload_id, id_parts, existing, with_sizes, get_upload,
}
use solocoder_6069_go_drive.Common.Text.Split.{split-append, split-single}
use solocoder_6069_go_drive.Common.Text.Numbers.{decimal, decimal-Lacks, to_int64-decimal}

is_id_char-Lacks : (c : ℕ) → is_id_char c ≡ true → c ≢ b'_'
unfolding is_id_char
is_id_char-Lacks c h e = let no : ⊥ = ground arith in no

all_id_chars-Lacks : (s : Str) → all_id_chars s ≡ true → Lacks b'_' s
unfolding all_id_chars
all_id_chars-Lacks [] h = tt
all_id_chars-Lacks (c ∷ s) h =
    (is_id_char-Lacks c (ground arith), all_id_chars-Lacks s (ground arith))

valid_part-Lacks : (s : Str) → is_valid_upload_id_part s ≡ true → Lacks b'_' s
unfolding is_valid_upload_id_part
valid_part-Lacks [] h = tt
valid_part-Lacks (c ∷ s) h = all_id_chars-Lacks (c ∷ s) h

split-generate_upload_id :
    (uuid : Str) (size chunk_size : ℕ)
    → Lacks b'_' uuid
    → split b'_' (generate_upload_id uuid size chunk_size)
      ≡ uuid ∷ decimal size ∷ decimal chunk_size ∷ []
unfolding generate_upload_id
split-generate_upload_id uuid size chunk_size l =
    split-append b'_' uuid (decimal size ++ (b'_' ∷ decimal chunk_size)) l
    ∙ ap (λ s. uuid ∷ s)
        (split-append b'_' (decimal size) (decimal chunk_size)
            (decimal-Lacks b'_' size (omega arith))
          ∙ ap (λ s. decimal size ∷ s)
              (split-single b'_' (decimal chunk_size)
                (decimal-Lacks b'_' chunk_size (omega arith))))

positive_test : (n : ℕ) → 0 < n → (n == 0) ≡ false
positive_test n p = ground arith

with_sizes-positive :
    (id : Str) (size chunk_size : ℕ)
    → 0 < size
    → 0 < chunk_size
    → with_sizes id size chunk_size ≡ ok (new_chunk_upload id size chunk_size)
unfolding with_sizes
with_sizes-positive id size chunk_size p q =
    rw (positive_test size p, positive_test chunk_size q) refl

-- The id of a new upload tells getUpload its sizes, where its directory is there.
pub get_upload-generate_upload_id :
    (dir uuid : Str) (size chunk_size : ℕ) (fs : FileSystem) (d : Dir)
    → is_valid_upload_id_part uuid ≡ true
    → 0 < size
    → size < 2 ^ 63
    → 0 < chunk_size
    → chunk_size < 2 ^ 63
    → map_get (get_dir dir (generate_upload_id uuid size chunk_size)) fs ≡ some d
    → get_upload dir (generate_upload_id uuid size chunk_size) fs
      ≡ ok (new_chunk_upload (generate_upload_id uuid size chunk_size) size chunk_size)
unfolding get_upload id_parts existing
get_upload-generate_upload_id dir uuid size chunk_size fs d v p l q m there =
    rw
      (
        split-generate_upload_id uuid size chunk_size (valid_part-Lacks uuid v),
        v,
        there,
        to_int64-decimal size l,
        to_int64-decimal chunk_size m,
      )
      (with_sizes-positive (generate_upload_id uuid size chunk_size) size chunk_size p q)

abbrev no_files : Dir
no_files = []

pub made-there : (path : Str) (fs : FileSystem) → map_get path (map_set path no_files fs) ≡ some []
made-there path fs =
    map_get-map_set path path no_files fs
    ∙ ap (λ b. if b then some no_files else map_get path fs) (str_eq_refl path)
