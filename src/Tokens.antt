-- ===== src/Tokens.antt =====
-- server/file_token.go: the sessions of the tokens, each in a file of the store's directory. A file is a
-- session, which gob encodes and decodes, and the time of its last change; its name is that in the
-- directory. The file system does not fail by itself. The text of a new UUID is a parameter.
pub mod Names
pub mod Sessions
pub mod Cleaning
mod Examples
use solocoder_6069_go_drive.Common.{
  ℕ, suc, ◌+◌, Bool, true, false, ◌&&◌, ◌||◌, ◌==◌, ltb, leb, List, [], ◌∷◌, ◌++◌, if◌then◌else◌,
  Str, codes, has_prefix, Option, none, some, map_get, map_set, map_delete,
}
use solocoder_6069_go_drive.Errors.{Result, ok, err, unauthorized, ◌>>=◌}

-- types.Token, with a session V
pub record Token (V : Type 0) : Type 0 where
  pub token : Str
  pub value : V
  pub expired_at : ℕ

-- The configuration of a FileTokenStore.
pub record Settings : Type 0 where
  pub validity : ℕ
  pub auto_refresh : Bool

abbrev pub Files : Type 0 → Type 0
Files V = List (Str × (V × ℕ))

-- sessionPrefix
abbrev pub session_prefix : Str
session_prefix = codes "s_"

-- getSessionFile: the name in the directory
unfoldable pub is_token_char : ℕ → Bool
is_token_char c = leb 97 c && leb c 102 || leb 48 c && leb c 57 || c == 45

unfoldable pub is_token : Str → Bool
unfolding is_token_char
is_token [] = true
is_token (c ∷ s) = is_token_char c && is_token s

unfoldable pub get_session_file : Str → Str
unfolding is_token
get_session_file token =
    if is_token token then session_prefix ++ token else session_prefix ++ codes "invalid"

-- isExpired: modTime.Before(time.Now().Add(-f.validity))
unfoldable pub session_expired : Settings → ℕ → ℕ → Bool
session_expired settings now mod_time = ltb (mod_time + settings.validity) now

module _ {V : Type 0} (settings : Settings) where
  -- readFile, with what os.Stat finds
  unfoldable pub read_found : ℕ → Option (V × ℕ) → Result (V × ℕ)
  unfolding session_expired
  read_found now none = err unauthorized
  read_found now (some (v, mod_time)) =
      if session_expired settings now mod_time then err unauthorized else ok (v, mod_time)

  unfoldable pub read_file : ℕ → Str → Files V → Result (V × ℕ)
  unfolding read_found get_session_file
  read_file now token files = read_found now (map_get (get_session_file token) files)

  -- writeFile
  unfoldable pub write_file : ℕ → Str → V → Files V → Token V × Files V
  unfolding get_session_file
  write_file now token v files = (
    record { token = token; value = v; expired_at = now + settings.validity },
    map_set (get_session_file token) (v, now) files,
  )

  -- Create
  unfoldable pub create_session : ℕ → Str → V → Files V → Token V × Files V
  unfolding write_file
  create_session now uuid v files = write_file now uuid v files

  -- Update
  unfoldable pub write_read :
      Result (V × ℕ) → Token V × Files V → Files V → Result (Token V) × Files V
  write_read (ok r) (t, written) files = (ok t, written)
  write_read (err e) (t, written) files = (err e, files)

  unfoldable pub update : ℕ → Str → V → Files V → Result (Token V) × Files V
  unfolding write_read read_file write_file
  update now token v files =
      write_read (read_file now token files) (write_file now token v files) files

  -- Validate
  unfoldable pub validated : ℕ → Str → Result (V × ℕ) → Files V → Result (Token V) × Files V
  unfolding get_session_file
  validated now token (err e) files = (err e, files)
  validated now token (ok (v, mod_time)) files = (
    ok (record { token = token; value = v; expired_at = mod_time + settings.validity }),
    if settings.auto_refresh then map_set (get_session_file token) (v, now) files else files,
  )

  unfoldable pub validate : ℕ → Str → Files V → Result (Token V) × Files V
  unfolding validated read_file
  validate now token files = validated now token (read_file now token files) files

  -- Revoke
  unfoldable pub revoke : Str → Files V → Files V
  unfolding get_session_file
  revoke token files = map_delete (get_session_file token) files

  -- forEachSession with the function of clean: os.Remove of the expired files
  unfoldable pub clean_sessions : ℕ → Files V → Files V
  unfolding session_expired
  clean_sessions now [] = []
  clean_sessions now ((name, (v, mod_time)) ∷ files) =
      let rest = clean_sessions now files in
      if has_prefix name session_prefix && session_expired settings now mod_time
      then rest
      else (name, (v, mod_time)) ∷ rest

  -- Status: the sessions, and those that are active
  unfoldable pub session_counts : ℕ → Files V → ℕ × ℕ
  unfolding session_expired
  session_counts now [] = (0, 0)
  session_counts now ((name, (v, mod_time)) ∷ files) =
      let (total, active) = session_counts now files in
      if has_prefix name session_prefix
      then (suc total, if session_expired settings now mod_time then active else suc active)
      else (total, active)
