-- ===== src/Tokens/Sessions.antt =====
-- server/file_token.go: which tokens Validate accepts after any calls of the store.
use native.Mathlib.Omega.{arith}
use solocoder_6069_go_drive.Common.{
  ◌⊎◌, ℕ, Bool, true, false, not, ◌&&◌, ◌||◌, [], ◌∷◌, Str, str_eq, str_eq_iff, str_eq_refl,
  has_prefix, Option, none, some, map_get, map_set, map_delete, map_get-map_set, map_get-map_delete,
  ◌≡◌, ◌≢◌, refl, sym, ap, ◌∙◌, inl, inr, Bool-cases,
}
use solocoder_6069_go_drive.Errors.{ok, err, unauthorized}
use solocoder_6069_go_drive.Tokens.{
  Token, Settings, Files, is_token, get_session_file, session_expired, read_found, read_file,
  write_file, create_session, write_read, update, validated, validate, revoke, clean_sessions,
  session_prefix,
}
use solocoder_6069_go_drive.Tokens.Names.{get_session_file_differs}

-- The tokens that were created and not revoked since.
abbrev pub Live : Type 0
Live = Str → Bool

abbrev pub with_token : Str → Live → Live
with_token t live u = str_eq u t || live u

abbrev pub without_token : Str → Live → Live
without_token t live u = not (str_eq u t) && live u

module _ {V : Type 0} (settings : Settings) where
  -- The files, and the tokens that are live, after calls of the store from an empty one on, at any times.
  pub data Calls : Live → Files V → Type 0 where
    nothing : Calls (λ _. false) []
    created :
        {live : Live} {files : Files V} (now : ℕ) (t : Str) (v : V)
        → is_token t ≡ true
        → Calls live files
        → Calls (with_token t live) (create_session settings now t v files).1
    updated :
        {live : Live} {files : Files V} (now : ℕ) (t : Str) (v : V)
        → Calls live files
        → Calls live (update settings now t v files).1
    asked :
        {live : Live} {files : Files V} (now : ℕ) (t : Str)
        → Calls live files
        → Calls live (validate settings now t files).1
    revoked :
        {live : Live} {files : Files V} (t : Str)
        → Calls live files
        → Calls (without_token t live) (revoke settings t files)
    cleaned :
        {live : Live} {files : Files V} (now : ℕ)
        → Calls live files
        → Calls live (clean_sessions settings now files)

  -- Only live tokens have a file.
  abbrev OnlyLive : Live → Files V → Type 0
  OnlyLive live files = (u : Str) → live u ≡ false → map_get (get_session_file u) files ≡ none

  missing-map_set :
      (j k : Str) (w : V × ℕ) (files : Files V)
      → k ≢ j
      → map_get j files ≡ none
      → map_get j (map_set k w files) ≡ none
  missing-map_set j k w files n h =
      let e : str_eq k j ≡ false = ground (arith, str_eq_iff k j) in
      rw (map_get-map_set k j w files, e) h

  missing-map_delete :
      (j k : Str) (files : Files V) → map_get j files ≡ none → map_get j (map_delete k files) ≡ none
  missing-map_delete j k files h = elim (Bool-cases (str_eq k j)) [
    | inl e ↦ rw (map_get-map_delete k j files, e) refl
    | inr e ↦ rw (map_get-map_delete k j files, e) h
  ]

  deleted-missing : (k : Str) (files : Files V) → map_get k (map_delete k files) ≡ none
  deleted-missing k files = rw (map_get-map_delete k k files, str_eq_refl k) refl

  pub missing-clean :
      (now : ℕ) (j : Str) (files : Files V)
      → map_get j files ≡ none
      → map_get j (clean_sessions settings now files) ≡ none
  unfolding clean_sessions map_get
  missing-clean now j [] h = h
  missing-clean now j ((name, (v, m)) ∷ files) h = elim (Bool-cases (str_eq name j)) [
    | inl e ↦ let both : some (v, m) ≡ none = rw e at h in let no : ⊥ = cc in absurd no
    | inr e ↦
        let rest = missing-clean now j files (rw e at h) in
        elim (Bool-cases (has_prefix name session_prefix && session_expired settings now m)) [
          | inl f ↦ rw f rest
          | inr f ↦ rw (f, e) rest
        ]
  ]

  -- Writing where a file is there already.
  rewritten :
      (live : Live) (k : Str) (w x : V × ℕ) (files : Files V)
      → OnlyLive live files
      → map_get k files ≡ some x
      → OnlyLive live (map_set k w files)
  rewritten live k w x files inv there u l =
      let gone = inv u l in
      missing-map_set (get_session_file u) k w files
        (λ e.
          let both : some x ≡ none = sym there ∙ ap (λ j. map_get j files) e ∙ gone in
          let no : ⊥ = cc in no)
        gone

  created-OnlyLive :
      (live : Live) (now : ℕ) (t : Str) (v : V) (files : Files V)
      → is_token t ≡ true
      → OnlyLive live files
      → OnlyLive (with_token t live) (create_session settings now t v files).1
  unfolding create_session write_file
  created-OnlyLive live now t v files h inv u l =
      missing-map_set (get_session_file u) (get_session_file t) (v, now) files
        (get_session_file_differs t u h (λ e. let no : ⊥ = ground (arith, str_eq_iff u t) in no))
        (inv u (ground arith))

  read_file-there :
      (now : ℕ) (o : Option (V × ℕ))
      → (read_found settings now o ≡ err unauthorized)
        ⊎ ((x : V × ℕ) × (o ≡ some x) × (read_found settings now o ≡ ok x))
  unfolding read_found
  read_file-there now none = inl refl
  read_file-there now (some (v, m)) = elim (Bool-cases (session_expired settings now m)) [
    | inl e ↦ inl (rw e refl)
    | inr e ↦ inr ((v, m), refl, rw e refl)
  ]

  updated-OnlyLive :
      (live : Live) (now : ℕ) (t : Str) (v : V) (files : Files V)
      → OnlyLive live files
      → OnlyLive live (update settings now t v files).1
  unfolding update write_read read_file write_file
  updated-OnlyLive live now t v files inv =
      elim (read_file-there now (map_get (get_session_file t) files)) [
        | inl e ↦ rw e inv
        | inr (x, there, e) ↦ rw e (rewritten live (get_session_file t) (v, now) x files inv there)
      ]

  asked-OnlyLive :
      (live : Live) (now : ℕ) (t : Str) (files : Files V)
      → OnlyLive live files
      → OnlyLive live (validate settings now t files).1
  unfolding validate validated read_file
  asked-OnlyLive live now t files inv =
      elim (read_file-there now (map_get (get_session_file t) files)) [
        | inl e ↦ rw e inv
        | inr ((v, m), there, e) ↦ elim (Bool-cases settings.auto_refresh) [
          | inl r ↦ rw (e, r) (rewritten live (get_session_file t) (v, now) (v, m) files inv there)
          | inr r ↦ rw (e, r) inv
        ]
      ]

  revoked-OnlyLive :
      (live : Live) (t : Str) (files : Files V)
      → OnlyLive live files
      → OnlyLive (without_token t live) (revoke settings t files)
  unfolding revoke
  revoked-OnlyLive live t files inv u l = elim (Bool-cases (str_eq u t)) [
    | inl e ↦ rw ((str_eq_iff u t).0 e) (deleted-missing (get_session_file t) files)
    | inr e ↦
        missing-map_delete (get_session_file u) (get_session_file t) files (inv u (ground arith))
  ]

  Calls-OnlyLive : (live : Live) (files : Files V) → Calls live files → OnlyLive live files
  Calls-OnlyLive _ _ nothing = λ u l. unfold map_get in refl
  Calls-OnlyLive _ _ (created now t v h c) = created-OnlyLive _ now t v _ h (Calls-OnlyLive _ _ c)
  Calls-OnlyLive _ _ (updated now t v c) = updated-OnlyLive _ now t v _ (Calls-OnlyLive _ _ c)
  Calls-OnlyLive _ _ (asked now t c) = asked-OnlyLive _ now t _ (Calls-OnlyLive _ _ c)
  Calls-OnlyLive _ _ (revoked t c) = revoked-OnlyLive _ t _ (Calls-OnlyLive _ _ c)
  Calls-OnlyLive _ _ (cleaned now c) =
      λ u l. missing-clean now (get_session_file u) _ (Calls-OnlyLive _ _ c u l)

  -- After any calls of Create, with texts of UUIDs, Update, Validate, Revoke and clean_sessions, with any texts as
  -- tokens, at any times, on an empty store: Validate accepts a text only if it is a token that was
  -- created and not revoked since.
  pub validate-live :
      (live : Live) (files : Files V) (now : ℕ) (u : Str) (answer : Token V)
      → Calls live files
      → (validate settings now u files).0 ≡ ok answer
      → live u ≡ true
  unfolding validate validated read_file read_found
  validate-live live files now u answer c e = elim (Bool-cases (live u)) [
    | inl l ↦ l
    | inr l ↦
        let gone = Calls-OnlyLive live files c u l in
        let no : err unauthorized ≡ ok answer = rw gone at e in absurd cc
  ]
