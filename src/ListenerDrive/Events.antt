-- ===== src/ListenerDrive/Events.antt =====
-- What the listener publishes about changes.
use solocoder_6069_go_drive.Common.{Bool, true, false, List, ◌∷◌, ◌≡◌, refl, ◌⊎◌, inl, inr}
use solocoder_6069_go_drive.Errors.{Result, ok, err}
use solocoder_6069_go_drive.Drive.{Entry, Drive, path_of}
use solocoder_6069_go_drive.Drive.Change.{
  Change, save_file, new_dir, copy_entry, move_entry, delete_entry, start_upload, settle, change,
}
use solocoder_6069_go_drive.ListenerDrive.{
  Event, entry_accessed, entry_updated, entry_deleted, publish, save, make_dir, copy, move, delete,
  listener_drive,
}

-- The entry that the drive below answers.
abbrev pub Answers : {S : Type 0} → Result Entry × S → Entry → Type 0
Answers {S} r e = (s' : S) × (r ≡ (ok e, s'))

-- The events of a change that was made, on top of those of before. Copy and Move announce the path of
-- the entry that the drive below answers.
abbrev pub Announces :
    {S R C U : Type 0} → Drive S R C U → Change R C → S → List Event → List Event → Type 0
Announces drive (save_file path size override reader) s log log' =
    log' ≡ entry_updated path false ∷ log
Announces drive (new_dir path) s log log' = log' ≡ entry_updated path false ∷ log
Announces drive (copy_entry from to override) s log log' =
    (e : Entry) × Answers (drive.copy from to override s) e
    × (log' ≡ entry_updated (path_of e) true ∷ entry_accessed (path_of from) ∷ log)
Announces drive (move_entry from to override) s log log' =
    (e : Entry) × Answers (drive.move from to override s) e
    × (log' ≡ entry_updated (path_of e) true ∷ entry_deleted (path_of from) ∷ log)
Announces drive (delete_entry path) s log log' = log' ≡ entry_deleted path ∷ log
Announces drive (start_upload path size override config) s log log' = log' ≡ log

-- Made, with the events that the change announces; or failed, with none.
abbrev Published :
    {S : Type 0} → (List Event → Type 0) → List Event → Bool × S → Bool × (S × List Event) → Type 0
Published P log bare out =
    ((bare.0 ≡ true) × (out.0 ≡ true) × (out.1.0 ≡ bare.1) × P out.1.1)
    ⊎ ((bare.0 ≡ false) × (out ≡ (false, (bare.1, log))))

publish-Published :
    {A S : Type 0} (P : List Event → Type 0) (f : A → List Event → List Event) (r : Result A × S)
    (log : List Event)
    → ((a : A) (s' : S) → r ≡ (ok a, s') → P (f a log))
    → Published P log (settle r) (settle (publish f r log))
unfolding settle publish
publish-Published P f (ok a, s) log h = inl (refl, refl, refl, h a s refl)
publish-Published P f (err x, s) log h = inr (refl, refl)

-- A change through the listener is made or fails as on the drive below, and leaves its storage as
-- that does. Where it is made, exactly the events that it announces are published, in their order: for
-- Copy and Move those of the path of the source and of the path of the entry that the drive below
-- answers. Where it fails, none are.
pub change-published :
    {S R C U : Type 0} (drive : Drive S R C U) (ch : Change R C) (s : S) (log : List Event)
    → (((change drive ch s).0 ≡ true)
        × ((change (listener_drive drive) ch (s, log)).0 ≡ true)
        × ((change (listener_drive drive) ch (s, log)).1.0 ≡ (change drive ch s).1)
        × Announces drive ch s log (change (listener_drive drive) ch (s, log)).1.1)
      ⊎ (((change drive ch s).0 ≡ false)
          × (change (listener_drive drive) ch (s, log) ≡ (false, ((change drive ch s).1, log))))
unfolding change listener_drive save make_dir copy move delete
change-published drive (save_file path size override reader) s log =
    publish-Published (λ l. l ≡ entry_updated path false ∷ log) _
      (drive.save path size override reader s) log (λ a s' e. refl)
change-published drive (new_dir path) s log =
    publish-Published (λ l. l ≡ entry_updated path false ∷ log) _ (drive.make_dir path s) log
      (λ a s' e. refl)
change-published drive (copy_entry from to override) s log =
    publish-Published
      (λ l.
        (e : Entry) × Answers (drive.copy from to override s) e
        × (l ≡ entry_updated (path_of e) true ∷ entry_accessed (path_of from) ∷ log))
      _ (drive.copy from to override s) log (λ a s' e. (a, (s', e), refl))
change-published drive (move_entry from to override) s log =
    publish-Published
      (λ l.
        (e : Entry) × Answers (drive.move from to override s) e
        × (l ≡ entry_updated (path_of e) true ∷ entry_deleted (path_of from) ∷ log))
      _ (drive.move from to override s) log (λ a s' e. (a, (s', e), refl))
change-published drive (delete_entry path) s log =
    publish-Published (λ l. l ≡ entry_deleted path ∷ log) _ (drive.delete path s) log
      (λ a s' e. refl)
change-published drive (start_upload path size override config) s log =
    publish-Published (λ l. l ≡ log) _ (drive.upload path size override config s) log
      (λ a s' e. refl)
