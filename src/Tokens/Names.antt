-- ===== src/Tokens/Names.antt =====
-- server/file_token.go: the names of the session files.
use mathlib.Core.List.{append_cancel_left}
use solocoder_6069_go_drive.Common.{
  true, false, ◌++◌, Str, codes, has_prefix, has_prefix-append, ◌≡◌, ◌≢◌, refl, sym, ap, ◌∙◌, inl,
  inr, Bool-cases,
}
use solocoder_6069_go_drive.Tokens.{is_token_char, is_token, get_session_file, session_prefix}

-- The name that stands for all texts that are no tokens.
abbrev pub invalid_file : Str
invalid_file = session_prefix ++ codes "invalid"

invalid-no_token : is_token (codes "invalid") ≡ false
unfolding is_token is_token_char
invalid-no_token = refl

pub get_session_file-token :
    (t : Str) → is_token t ≡ true → get_session_file t ≡ session_prefix ++ t
unfolding get_session_file
get_session_file-token t h = rw h refl

pub get_session_file-no_token : (t : Str) → is_token t ≡ false → get_session_file t ≡ invalid_file
unfolding get_session_file
get_session_file-no_token t h = rw h refl

-- Tokens have different files, and none has that of the texts that are no tokens.
pub get_session_file_injective :
    (t u : Str)
    → is_token t ≡ true
    → is_token u ≡ true
    → get_session_file t ≡ get_session_file u
    → t ≡ u
get_session_file_injective t u h k e =
    append_cancel_left session_prefix t u
      (sym (get_session_file-token t h) ∙ e ∙ get_session_file-token u k)

pub get_session_file-ne-invalid : (t : Str) → is_token t ≡ true → get_session_file t ≢ invalid_file
get_session_file-ne-invalid t h e =
    let same : t ≡ codes "invalid" =
      append_cancel_left session_prefix t (codes "invalid")
        (sym (get_session_file-token t h) ∙ e) in
    let no : false ≡ true = sym invalid-no_token ∙ ap is_token (sym same) ∙ h in cc

pub get_session_file-prefix : (t : Str) → has_prefix (get_session_file t) session_prefix ≡ true
get_session_file-prefix t = elim (Bool-cases (is_token t)) [
  | inl h ↦ rw (get_session_file-token t h) (has_prefix-append session_prefix t)
  | inr h ↦ rw (get_session_file-no_token t h) (has_prefix-append session_prefix (codes "invalid"))
]

pub get_session_file_differs :
    (t u : Str) → is_token t ≡ true → t ≢ u → get_session_file t ≢ get_session_file u
get_session_file_differs t u h n e = elim (Bool-cases (is_token u)) [
  | inl k ↦ n (get_session_file_injective t u h k e)
  | inr k ↦ get_session_file-ne-invalid t h (e ∙ get_session_file-no_token u k)
]
