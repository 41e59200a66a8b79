-- ===== src/ListenerDrive.antt =====
-- drive/listener_wrapper.go: the drive that publishes an event for what was done. The events are kept
-- in the order in which they are published, the last one first; the session in them is left out.
pub mod Events
use solocoder_6069_go_drive.Common.{ℕ, Bool, true, false, List, ◌∷◌, Str}
use solocoder_6069_go_drive.Errors.{Result, ok, err}
use solocoder_6069_go_drive.Drive.{Entry, Drive, path_of}

-- EntryAccessed, EntryUpdated (with includeDescendants) and EntryDeleted
pub data Event : Type 0 where
  entry_accessed : Str → Event
  entry_updated : Str → Bool → Event
  entry_deleted : Str → Event

-- if e == nil { d.bus.Publish(…) }
unfoldable pub publish {ℓ} :
    {A : Type ℓ} {S : Type 0}
    → (A → List Event → List Event)
    → Result A × S
    → List Event
    → Result A × (S × List Event)
publish f (ok a, s) log = (ok a, (s, f a log))
publish f (err x, s) log = (err x, (s, log))

module _ {S R C U : Type 0} (drive : Drive S R C U) where
  -- Get
  unfoldable pub get : Str → S × List Event → Result Entry × (S × List Event)
  unfolding publish
  get path (s, log) = publish (λ e l. entry_accessed path ∷ l) (drive.get path s) log

  -- Save
  unfoldable pub save : Str → ℕ → Bool → R → S × List Event → Result Entry × (S × List Event)
  unfolding publish
  save path size override reader (s, log) =
      publish (λ e l. entry_updated path false ∷ l) (drive.save path size override reader s) log

  -- MakeDir
  unfoldable pub make_dir : Str → S × List Event → Result Entry × (S × List Event)
  unfolding publish
  make_dir path (s, log) = publish (λ e l. entry_updated path false ∷ l) (drive.make_dir path s) log

  -- Copy
  unfoldable pub copy : Entry → Str → Bool → S × List Event → Result Entry × (S × List Event)
  unfolding publish path_of
  copy from to override (s, log) =
      publish (λ e l. entry_updated (path_of e) true ∷ entry_accessed (path_of from) ∷ l)
        (drive.copy from to override s) log

  -- Move
  unfoldable pub move : Entry → Str → Bool → S × List Event → Result Entry × (S × List Event)
  unfolding publish path_of
  move from to override (s, log) =
      publish (λ e l. entry_updated (path_of e) true ∷ entry_deleted (path_of from) ∷ l)
        (drive.move from to override s) log

  -- List
  unfoldable pub list : Str → S × List Event → Result (List Entry) × (S × List Event)
  unfolding publish
  list path (s, log) = publish (λ es l. entry_accessed path ∷ l) (drive.list path s) log

  -- Delete
  unfoldable pub delete : Str → S × List Event → Result {0} Unit × (S × List Event)
  unfolding publish
  delete path (s, log) = publish (λ u l. entry_deleted path ∷ l) (drive.delete path s) log

  -- NewListenerWrapper; Upload is that of the embedded drive, which publishes nothing.
  unfoldable pub listener_drive : Drive (S × List Event) R C U
  unfolding get save make_dir copy move list delete publish
  listener_drive = record {
    get = get;
    save = save;
    make_dir = make_dir;
    copy = copy;
    move = move;
    list = list;
    delete = delete;
    upload = λ path size override config st.
        publish (λ u l. l) (drive.upload path size override config st.0) st.1;
  }
