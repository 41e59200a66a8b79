-- ===== src/Tokens/Examples.antt =====
-- A store with a session, which is a number.
use native.Mathlib.Omega.{arith}
use solocoder_6069_go_drive.Common.{ℕ, true, false, [], codes, ◌≡◌, refl, map_get, map_set, str_eq}
use solocoder_6069_go_drive.Errors.{ok}
use solocoder_6069_go_drive.Tokens.{
  Settings, Files, is_token, is_token_char, create_session, validate, clean_sessions,
}
use solocoder_6069_go_drive.Tokens.Sessions.{nothing, created, with_token, validate-live}
use solocoder_6069_go_drive.Tokens.Cleaning.{IsDirectory, validate-clean}

abbrev settings : Settings
settings = record { validity = 10; auto_refresh = true }

abbrev no_files : Files ℕ
no_files = []

abbrev stored : Files ℕ
stored = (create_session settings 5 (codes "a-1") 7 no_files).1

a1-token : is_token (codes "a-1") ≡ true
unfolding is_token is_token_char
a1-token = refl

accepted :
    (validate settings 15 (codes "a-1") stored).0
    ≡ ok (record { token = codes "a-1"; value = 7; expired_at = 15 })
unfolding validate create_session is_token_char map_get map_set str_eq
accepted = refl

validate-live_example : with_token (codes "a-1") (λ _. false) (codes "a-1") ≡ true
validate-live_example =
    validate-live settings (with_token (codes "a-1") (λ _. false)) stored 15 (codes "a-1")
      (record { token = codes "a-1"; value = 7; expired_at = 15 })
      (created 5 (codes "a-1") 7 a1-token nothing) accepted

stored-IsDirectory : IsDirectory stored
unfolding create_session map_set map_get
stored-IsDirectory = (refl, tt)

validate-clean_example :
    (validate settings 20 (codes "a-1") (clean_sessions settings 12 stored)).0
    ≡ (validate settings 20 (codes "a-1") stored).0
validate-clean_example =
    validate-clean settings 12 20 (codes "a-1") stored (omega arith) stored-IsDirectory
