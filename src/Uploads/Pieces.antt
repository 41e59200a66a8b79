-- ===== src/Uploads/Pieces.antt =====
-- server/chunk_uploader.go: the chunks that a file of an upload is cut into, and their sizes.
use solocoder_6069_go_drive.Common.{
  ℕ, zero, suc, ◌+◌, ◌-◌, ◌*◌, ◌/◌, ◌%◌, ◌≤◌, ◌<◌, ◌==◌, List, [], ◌∷◌, ◌++◌, length, take, drop,
  Str, ◌≡◌, refl, sym, ap, ◌∙◌, inl, inr, Bool-cases, arith,
}
use solocoder_6069_go_drive.Common.Float.{ceil_div}
use solocoder_6069_go_drive.Uploads.{Bytes, ChunkUpload, size_of_chunk}
use native.Mathlib.Nat.{div-add-mod, mod-lt, mul-le-mul_right, mul_comm, suc-mul, add-mul}

module _ {ℓ} {A : Type ℓ} where
  pub length-take_le : (n : ℕ) (xs : List A) → n ≤ length xs → length (take n xs) ≡ n
  length-take_le zero xs l = refl
  length-take_le (suc n) [] l = omega arith
  length-take_le (suc n) (x ∷ xs) l = omega (arith, length-take_le n xs (omega arith))

  pub take-all : (n : ℕ) (xs : List A) → length xs ≤ n → take n xs ≡ xs
  take-all zero [] l = refl
  take-all zero (x ∷ xs) l = let no : ⊥ = omega arith in absurd no
  take-all (suc n) [] l = refl
  take-all (suc n) (x ∷ xs) l = ap (λ ys. x ∷ ys) (take-all n xs (omega arith))

  pub length-drop : (n : ℕ) (xs : List A) → length (drop n xs) ≡ length xs - n
  length-drop zero xs = omega arith
  length-drop (suc n) [] = omega arith
  length-drop (suc n) (x ∷ xs) = omega (arith, length-drop n xs)

  pub take-take-drop : (m n : ℕ) (xs : List A) → take m xs ++ take n (drop m xs) ≡ take (m + n) xs
  take-take-drop zero n xs = let e : n ≡ 0 + n = omega arith in ap (λ k. take k xs) e
  take-take-drop (suc m) n [] =
      take-all n [] (omega arith) ∙ sym (take-all (suc m + n) [] (omega arith))
  take-take-drop (suc m) n (x ∷ xs) =
      let e : suc (m + n) ≡ suc m + n = omega arith in
      ap (λ ys. x ∷ ys) (take-take-drop m n xs) ∙ ap (λ k. take k (x ∷ xs)) e

-- The chunk with the number k.
abbrev pub piece : ℕ → Bytes → ℕ → Bytes
piece chunk_size content k = take chunk_size (drop (k * chunk_size) content)

division : (a b : ℕ) → 0 < b → (a ≡ a / b * b + a % b) × (a % b < b)
division a b p = (omega (arith, div-add-mod a b, mul_comm b (a / b)), mod-lt a p)

add_mul_one : (q b : ℕ) → (q + 1) * b ≡ q * b + b
add_mul_one q b = omega (arith, add-mul q 1 b)

-- The chunks reach to the end of the file.
pub ceil_div-covers : (a b : ℕ) → 0 < b → a ≤ ceil_div a b * b
unfolding ceil_div
ceil_div-covers a b p =
    let (e, l) = division a b p in
    elim (Bool-cases (a % b == 0)) [
      | inl z ↦ rw z (ground arith)
      | inr z ↦ rw z (omega (arith, add_mul_one (a / b) b))
    ]

-- A chunk before the last is full.
full-piece : (a b k : ℕ) → 0 < b → k < a / b → k * b + b ≤ a
full-piece a b k p l =
    let (e, m) = division a b p in
    let up : suc k ≤ a / b = omega arith in omega (arith, mul-le-mul_right b up, suc-mul k b)

length-piece_full :
    (b k : ℕ) (content : Bytes) → k * b + b ≤ length content → length (piece b content k) ≡ b
length-piece_full b k content l =
    length-take_le b (drop (k * b) content) (omega (arith, length-drop (k * b) content))

length-piece_last :
    (b k r : ℕ) (content : Bytes)
    → length content ≡ k * b + r
    → r ≤ b
    → length (piece b content k) ≡ r
length-piece_last b k r content e l =
    ap length (take-all b (drop (k * b) content) (omega (arith, length-drop (k * b) content)))
    ∙ omega (arith, length-drop (k * b) content)

-- An upload with the exact number of chunks.
abbrev pub exact_upload : Str → ℕ → ℕ → ChunkUpload
exact_upload id size chunk_size = record {
  id = id;
  size = size;
  chunk_size = chunk_size;
  chunks = ceil_div size chunk_size;
}

-- Each chunk of a file has the size that ChunkUpload wants it to have.
pub length-piece :
    (id : Str) (b k : ℕ) (content : Bytes)
    → 0 < b
    → k < ceil_div (length content) b
    → length (piece b content k) ≡ size_of_chunk (exact_upload id (length content) b) k
unfolding size_of_chunk ceil_div
length-piece id b k content p l =
    let (e, m) = division (length content) b p in
    elim (Bool-cases (length content % b == 0)) [
      | inl z ↦ rw z (
          length-piece_full b k content (full-piece (length content) b k p (ground arith))
          ∙ ground arith)
      | inr z ↦ elim (Bool-cases (k == length content / b)) [
        | inl y ↦
            let same : k ≡ length content / b = ground arith in
            rw z (
              length-piece_last b k (length content % b) content
                (e ∙ ap (λ q. q * b + length content % b) (sym same)) (omega arith)
              ∙ ground arith)
        | inr y ↦ rw z (
            length-piece_full b k content (full-piece (length content) b k p (ground arith))
            ∙ ground arith)
      ]
    ]
