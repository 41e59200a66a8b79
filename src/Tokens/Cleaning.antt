-- ===== src/Tokens/Cleaning.antt =====
-- server/file_token.go: clean removes only the files of sessions that are expired.
use native.Mathlib.Omega.{arith}
use solocoder_6069_go_drive.Common.{
  ℕ, ◌≤◌, true, ◌&&◌, [], ◌∷◌, Str, str_eq, str_eq_iff, has_prefix, none, some, map_get, ◌≡◌, refl,
  sym, ap, ◌∙◌, inl, inr, Bool-cases,
}
use solocoder_6069_go_drive.Errors.{Result, ok, err, unauthorized}
use solocoder_6069_go_drive.Tokens.{
  Settings, Files, get_session_file, session_expired, read_found, read_file, validated, validate,
  clean_sessions, session_prefix,
}
use solocoder_6069_go_drive.Tokens.Sessions.{missing-clean}

expired_later :
    (settings : Settings) (now later m : ℕ)
    → now ≤ later
    → session_expired settings now m ≡ true
    → session_expired settings later m ≡ true
unfolding session_expired
expired_later settings now later m l e = ground arith

module _ {V : Type 0} where
  -- No name stands twice in the directory.
  abbrev pub IsDirectory : Files V → Type 0
  IsDirectory [] = Unit
  IsDirectory ((name, f) ∷ files) = (map_get name files ≡ none) × IsDirectory files

  module _ (settings : Settings) where
    read_found-removed :
        (now later m : ℕ) (v : V)
        → now ≤ later
        → session_expired settings now m ≡ true
        → read_found settings later (some (v, m)) ≡ err unauthorized
    unfolding read_found
    read_found-removed now later m v l e = rw (expired_later settings now later m l e) refl

    nothing_found : (later : ℕ) → read_found {V = V} settings later none ≡ err unauthorized
    unfolding read_found
    nothing_found later = refl

    read_found-clean :
        (now later : ℕ) (k : Str) (files : Files V)
        → now ≤ later
        → IsDirectory files
        → read_found settings later (map_get k (clean_sessions settings now files))
          ≡ read_found settings later (map_get k files)
    unfolding clean_sessions map_get
    read_found-clean now later k [] l d = refl
    read_found-clean now later k ((name, (v, m)) ∷ files) l (fresh, d) =
        let rest = read_found-clean now later k files l d in
        elim (Bool-cases (has_prefix name session_prefix && session_expired settings now m)) [
          | inl f ↦ elim (Bool-cases (str_eq name k)) [
            | inl e ↦
                let gone : map_get k (clean_sessions settings now files) ≡ none =
                  missing-clean settings now k files
                    (ap (λ j. map_get j files) (sym ((str_eq_iff name k).0 e)) ∙ fresh) in
                rw (f, e)
                  (ap (read_found settings later) gone
                    ∙ nothing_found later
                    ∙ sym (read_found-removed now later m v l (ground arith)))
            | inr e ↦ rw (f, e) rest
          ]
          | inr f ↦ elim (Bool-cases (str_eq name k)) [
            | inl e ↦ rw (f, e) refl
            | inr e ↦ rw (f, e) rest
          ]
        ]

    validated-answer :
        (now : ℕ) (u : Str) (r : Result (V × ℕ)) (files other : Files V)
        → (validated settings now u r files).0 ≡ (validated settings now u r other).0
    unfolding validated
    validated-answer now u (ok (v, m)) files other = refl
    validated-answer now u (err e) files other = refl

    -- In a directory in which no name stands twice: whatever text is given to Validate at the time of a
    -- clean or after it, it answers as it would without the clean.
    pub validate-clean :
        (now later : ℕ) (u : Str) (files : Files V)
        → now ≤ later
        → IsDirectory files
        → (validate settings later u (clean_sessions settings now files)).0
          ≡ (validate settings later u files).0
    unfolding validate read_file
    validate-clean now later u files l d =
        let same = read_found-clean now later (get_session_file u) files l d in
        validated-answer later u (read_file settings later u (clean_sessions settings now files))
          (clean_sessions settings now files) files
        ∙ ap (λ r. (validated settings later u r files).0) same
