-- ===== src/Uploads/Found.antt =====
-- server/chunk_uploader.go: getUpload looks only at whether the directory is there. The names in its files.
use solocoder_6069_go_drive.Common.{
  ℕ, ◌≤◌, ◌<◌, true, false, ◌||◌, ◌==◌, ltb, List, length, Str, split, Option, none, some, map_get,
  map_set, map_delete, map_get-map_set, map_get-map_delete, str_eq, str_eq_iff, str_eq_refl, ◌≡◌,
  ◌≢◌, refl, sym, ap, ◌∙◌, subst, inl, inr, Bool-cases, arith, ==_iff,
}
use solocoder_6069_go_drive.Errors.{bad_request, Result, ok, err, not_found, not_allowed, ◌>>=◌}
use solocoder_6069_go_drive.Uploads.{
  Bytes, Dir, FileSystem, ChunkUpload, new_chunk_upload, get_dir, id_parts, existing, with_sizes,
  get_upload, files_or_none, files_at, is_file_there, file_name, mark_name, is_marked_delete,
  Reader, check_seq, size_of_chunk, write_chunk, leave,
}
use solocoder_6069_go_drive.Common.Text.Numbers.{
  decimal, to_int64, parse_digits, parse_digits-decimal,
}

-- A name that is no number is not the name of a chunk.
pub decimal-ne_name : (k : ℕ) (name : Str) → parse_digits 0 name ≡ none → decimal k ≢ name
decimal-ne_name k name h e =
    let p : some k ≡ none = sym (parse_digits-decimal k) ∙ ap (parse_digits 0) e ∙ h in cc

pub decimal-ne-file_name : (k : ℕ) → decimal k ≢ file_name
decimal-ne-file_name k = decimal-ne_name k file_name (unfold parse_digits in refl)

pub decimal-ne-mark_name : (k : ℕ) → decimal k ≢ mark_name
decimal-ne-mark_name k = decimal-ne_name k mark_name (unfold parse_digits in refl)

module _ {A : Type 0} where
  pub map_get-map_set_same :
      (k : Str) (v : A) (m : List (Str × A)) → map_get k (map_set k v m) ≡ some v
  map_get-map_set_same k v m = rw (map_get-map_set k k v m, str_eq_refl k) refl

  pub map_get-map_set_other :
      (k j : Str) (v : A) (m : List (Str × A)) → k ≢ j → map_get j (map_set k v m) ≡ map_get j m
  map_get-map_set_other k j v m h =
      let e : str_eq k j ≡ false = ground (arith, str_eq_iff k j) in
      rw (map_get-map_set k j v m, e) refl

  pub map_get-map_delete_other :
      (k j : Str) (m : List (Str × A)) → k ≢ j → map_get j (map_delete k m) ≡ map_get j m
  map_get-map_delete_other k j m h =
      let e : str_eq k j ≡ false = ground (arith, str_eq_iff k j) in
      rw (map_get-map_delete k j m, e) refl

  pub map_get-map_delete_same : (k : Str) (m : List (Str × A)) → map_get k (map_delete k m) ≡ none
  map_get-map_delete_same k m = rw (map_get-map_delete k k m, str_eq_refl k) refl

-- Where getUpload finds an upload, the directory is there.
existing-there :
    (o : Option Dir) (f : Dir → Result ChunkUpload) (u : ChunkUpload)
    → (existing o >>= f) ≡ ok u
    → (d : Dir) × (o ≡ some d)
unfolding existing
existing-there none f u e = let no : ⊥ = cc in absurd no
existing-there (some d) f u e = (d, refl)

existing-same :
    (o p : Option Dir) (d : Dir) (r : Result ChunkUpload) (u : ChunkUpload)
    → p ≡ some d
    → (existing o >>= (λ _. r)) ≡ ok u
    → (existing p >>= (λ _. r)) ≡ ok u
unfolding existing
existing-same none p d r u l e = let no : ⊥ = cc in absurd no
existing-same (some c) p d r u l e = rw l e

upload_same : (u v : ChunkUpload) → ok u ≡ ok v → v ≡ u
upload_same u v e = cc

both_positive : (a b : ℕ) → ((a == 0) || (b == 0)) ≡ false → (0 < a) × (0 < b)
both_positive a b e = (ground arith, ground arith)

ok_not_bad : (u : ChunkUpload) → err bad_request ≡ ok u → ⊥
ok_not_bad u e = cc

with_sizes_sound :
    (id : Str) (size chunk_size : ℕ) (u : ChunkUpload)
    → with_sizes id size chunk_size ≡ ok u
    → (u ≡ new_chunk_upload id size chunk_size) × (0 < size) × (0 < chunk_size)
unfolding with_sizes
with_sizes_sound id size chunk_size u e = elim (Bool-cases (size == 0 || chunk_size == 0)) [
  | inl b ↦ absurd (ok_not_bad u (rw b at e))
  | inr b ↦
      let (p, q) = both_positive size chunk_size b in
      (upload_same (new_chunk_upload id size chunk_size) u (rw b at e), p, q)
]

-- What getUpload tells of an upload.
pub record Found (dir : Str) (id : Str) (fs : FileSystem) (u : ChunkUpload) : Type 0 where
  pub is_new : u ≡ new_chunk_upload id u.size u.chunk_size
  pub positive : 0 < u.chunk_size
  pub some_bytes : 0 < u.size
  pub gone :
      (fs' : FileSystem)
      → map_get (get_dir dir id) fs' ≡ none
      → get_upload dir id fs' ≡ err not_found
  pub there : (d : Dir) × (map_get (get_dir dir id) fs ≡ some d)
  pub again :
      (fs' : FileSystem) (d : Dir)
      → map_get (get_dir dir id) fs' ≡ some d
      → get_upload dir id fs' ≡ ok u

new-sizes :
    (id : Str) (size chunk_size : ℕ) (u : ChunkUpload)
    → u ≡ new_chunk_upload id size chunk_size
    → u ≡ new_chunk_upload id u.size u.chunk_size
unfolding new_chunk_upload
new-sizes id size chunk_size u e =
    subst (λ v. v ≡ new_chunk_upload id v.size v.chunk_size) (sym e) refl

parts-Found :
    (dir id : Str) (fs : FileSystem) (u : ChunkUpload) (r : Result (Str × Str))
    → id_parts (split b'_' id) ≡ r
    → get_upload dir id fs ≡ ok u
    → Found dir id fs u
unfolding get_upload existing new_chunk_upload
parts-Found dir id fs u (err x) p e =
    let q : err x ≡ ok u = rw p at e in let no : ⊥ = cc in absurd no
parts-Found dir id fs u (ok (b, c)) p e =
    let body = with_sizes id (to_int64 b) (to_int64 c) in
    let q : (existing (map_get (get_dir dir id) fs) >>= (λ _. body)) ≡ ok u = rw p at e in
    let (d, there) = existing-there (map_get (get_dir dir id) fs) (λ _. body) u q in
    let sized : body ≡ ok u = rw there at q in
    let (new, some_bytes, positive) = with_sizes_sound id (to_int64 b) (to_int64 c) u sized in
    record {
      is_new = new-sizes id (to_int64 b) (to_int64 c) u new;
      positive = subst (λ n. 0 < n) (sym (ap (λ v. v.chunk_size) new)) positive;
      some_bytes = subst (λ n. 0 < n) (sym (ap (λ v. v.size) new)) some_bytes;
      gone = λ fs' none_there. rw (p, none_there) refl;
      there = (d, there);
      again =
          λ fs' d' there'. rw p (existing-same (map_get (get_dir dir id) fs) _ d' body u there' q);
    }

pub get_upload-Found :
    (dir id : Str) (fs : FileSystem) (u : ChunkUpload)
    → get_upload dir id fs ≡ ok u
    → Found dir id fs u
get_upload-Found dir id fs u e = parts-Found dir id fs u (id_parts (split b'_' id)) refl e

-- A request's content that is read to its end.
abbrev pub whole : Bytes → Reader
whole content = record { content = content; fails = false }

pub files_at-map_set :
    (path : Str) (d : Dir) (fs : FileSystem) → files_at path (map_set path d fs) ≡ d
unfolding files_at files_or_none
files_at-map_set path d fs = rw (map_get-map_set_same path d fs) refl

pub unmarked-leave :
    (remove_all : Dir → Option Dir) (dir id : Str) (d : Dir) (fs : FileSystem)
    → is_marked_delete d ≡ false
    → leave remove_all dir id d fs ≡ map_set (get_dir dir id) d fs
unfolding leave
unmarked-leave remove_all dir id d fs m = rw m refl

pub mark-map_set :
    (name : Str) (content : Bytes) (d : Dir)
    → name ≢ mark_name
    → is_marked_delete (map_set name content d) ≡ is_marked_delete d
unfolding is_marked_delete
mark-map_set name content d h = ap is_file_there (map_get-map_set_other name mark_name content d h)

-- A chunk of the right size is written under its number.
pub write_chunk-whole :
    (u : ChunkUpload) (content : Bytes) (k : ℕ) (d : Dir)
    → k < u.chunks
    → length content ≡ size_of_chunk u k
    → write_chunk u (whole content) (check_seq (some k) u.chunks) d
      ≡ (ok tt, map_set (decimal k) content d)
unfolding write_chunk check_seq
write_chunk-whole u content k d l e =
    let inside : ltb k u.chunks ≡ true = ground arith in
    let fits : (length content == size_of_chunk u k) ≡ true = (==_iff _ _).1 e in
    rw (inside, fits) refl

pub write_chunk-outside :
    (u : ChunkUpload) (reader : Reader) (k : ℕ) (d : Dir)
    → u.chunks ≤ k
    → write_chunk u reader (check_seq (some k) u.chunks) d ≡ (err not_allowed, d)
unfolding write_chunk check_seq
write_chunk-outside u reader k d l =
    let outside : ltb k u.chunks ≡ false = ground arith in rw outside refl
