-- ===== src/Uploads/Copying.antt =====
-- server/chunk_uploader.go: the loop of CompleteUpload over the chunks.
use solocoder_6069_go_drive.Common.{
  ℕ, zero, suc, ◌+◌, ◌*◌, ◌≤◌, ◌<◌, true, false, ◌==◌, [], ◌++◌, length, take, length-append, none,
  some, map_get, ◌≡◌, refl, ap, ◌∙◌, inl, inr, Bool-cases, arith, ==_iff,
}
use solocoder_6069_go_drive.Errors.{Result, ok}
use solocoder_6069_go_drive.Uploads.{
  Bytes, Dir, is_file_there, is_marked_delete, Ctx, has_chunks, copy_chunk, copy_chunks,
}
use native.Mathlib.Nat.{add-mul}
use solocoder_6069_go_drive.Uploads.Pieces.{piece, take-all, take-take-drop}
use solocoder_6069_go_drive.Common.Text.Numbers.{decimal}

pub has_chunks-all :
    (n seq : ℕ) (d : Dir)
    → ((k : ℕ) → seq ≤ k → k < seq + n → is_file_there (map_get (decimal k) d) ≡ true)
    → has_chunks n seq d ≡ true
unfolding has_chunks
has_chunks-all zero seq d h = refl
has_chunks-all (suc n) seq d h =
    rw (h seq (omega arith) (omega arith))
      (has_chunks-all n (seq + 1) d (λ k l m. h k (omega arith) (omega arith)))

pub has_chunks-missing :
    (n seq k : ℕ) (d : Dir)
    → seq ≤ k
    → k < seq + n
    → map_get (decimal k) d ≡ none
    → has_chunks n seq d ≡ false
unfolding has_chunks
has_chunks-missing zero seq k d l m h = let no : ⊥ = omega arith in absurd no
has_chunks-missing (suc n) seq k d l m h = elim (Bool-cases (seq == k)) [
  | inl b ↦
      let same : seq ≡ k = (==_iff seq k).0 b in
      let gone : is_file_there (map_get (decimal seq) d) ≡ false =
        ap (λ j. is_file_there (map_get (decimal j) d)) same ∙ ap is_file_there h in
      rw gone refl
  | inr b ↦
      let rest = has_chunks-missing n (seq + 1) k d (ground arith) (ground arith) h in ground arith
]

module _ (d : Dir) (chunk_size : ℕ) (content : Bytes) (total : ℕ) (before : ℕ) where
  -- What is reported when the first m bytes are in the file.
  abbrev ctx_at : ℕ → Ctx
  ctx_at m = record { total = total; loaded = before + length (take m content) }

  abbrev copied : ℕ → Result Bytes × Ctx
  copied m = (ok (take m content), ctx_at m)

  next-file :
      (seq : ℕ)
      → take (seq * chunk_size) content ++ piece chunk_size content seq
        ≡ take ((seq + 1) * chunk_size) content
  next-file seq =
      let e : seq * chunk_size + chunk_size ≡ (seq + 1) * chunk_size =
        omega (arith, add-mul seq 1 chunk_size) in
      take-take-drop (seq * chunk_size) chunk_size content ∙ ap (λ m. take m content) e

  next-loaded :
      (seq : ℕ)
      → before + length (take (seq * chunk_size) content) + length (piece chunk_size content seq)
        ≡ before + length (take ((seq + 1) * chunk_size) content)
  next-loaded seq = omega (
    arith,
    length-append (take (seq * chunk_size) content) (piece chunk_size content seq),
    ap length (next-file seq),
  )

  copy_chunks-copied :
      (n seq : ℕ)
      → is_marked_delete d ≡ false
      → ((k : ℕ)
          → seq ≤ k
          → k < seq + n
          → map_get (decimal k) d ≡ some (piece chunk_size content k))
      → copy_chunks
          (λ _. false)
          d
          n
          seq
          (take (seq * chunk_size) content)
          (ctx_at (seq * chunk_size))
        ≡ copied ((seq + n) * chunk_size)
  unfolding copy_chunks copy_chunk
  copy_chunks-copied zero seq m h =
      let e : seq ≡ seq + 0 = omega arith in ap (λ k. copied (k * chunk_size)) e
  copy_chunks-copied (suc n) seq m h =
      let e : seq + 1 + n ≡ seq + suc n = omega arith in
      rw (h seq (omega arith) (omega arith), m, next-file seq, next-loaded seq)
        (copy_chunks-copied n (seq + 1) m (λ k l b. h k (omega arith) (omega arith))
          ∙ ap (λ k. copied (k * chunk_size)) e)

  abbrev pub start : ℕ → Result Bytes × Ctx
  start n = copy_chunks (λ _. false) d n 0 [] (record { total = total; loaded = before })

  pub copy_chunks-whole :
      (n : ℕ)
      → is_marked_delete d ≡ false
      → ((k : ℕ) → k < n → map_get (decimal k) d ≡ some (piece chunk_size content k))
      → length content ≤ n * chunk_size
      → start n ≡ (ok content, record { total = total; loaded = before + length content })
  copy_chunks-whole n m h l =
      let from : 0 * chunk_size ≡ 0 = omega arith in
      let none_yet : before + 0 ≡ before = omega arith in
      let to : (0 + n) * chunk_size ≡ n * chunk_size = ap (λ k. k * chunk_size) (omega arith) in
      let run = copy_chunks-copied n 0 m (λ k a b. h k (omega arith)) in
      let begun : start n ≡ copied ((0 + n) * chunk_size) = rw (from, none_yet) at run in
      begun
      ∙ ap copied to
      ∙ ap (λ file. (ok file, record { total = total; loaded = before + length file }))
          (take-all (n * chunk_size) content l)
