-- ===== src/Tasks.antt =====
-- common/task/task.go, tunny_runner.go, option.go: tasks, which a pool of goroutines runs. What a task
-- runs is a parameter, with results R; so is the pool. The store of the tasks is the concurrent map of
-- another package. Times are seconds, `none` for the zero time; an int64 is given by its remainder
-- modulo 2^64.
mod Examples
pub mod Context
pub mod Life
pub mod Cancel
pub mod Clean
use solocoder_6069_go_drive.Common.{
  not, leb, ◌==◌, split, ℕ, ◌+◌, ◌%◌, ◌^◌, Bool, true, false, ◌&&◌, ◌||◌, List, [], ◌∷◌, ◌++◌,
  foldl, if◌then◌else◌, ltb, Str, str_eq, has_prefix, Option, none, some,
}
use solocoder_6069_go_drive.Errors.{Result, ok, err, other, ◌>>=◌}
use solocoder_6069_go_drive.Paths.{slash}
use solocoder_6069_go_drive.KvCache.{ConcurrentMap, remove_keys}

-- The values of Status.
pub data Status : Type 0 where
  pending running done failed canceled : Status

-- Task, with the message of its error and the fields of Progress
pub record Task (R : Type 0) : Type 0 where
  pub id : Str
  pub status : Status
  pub loaded : ℕ
  pub total : ℕ
  pub result : Option R
  pub failure : Option Str
  pub created_at : ℕ
  pub updated_at : Option ℕ
  pub name : Str
  pub group : Str

-- Finished
unfoldable pub is_final : Status → Bool
is_final done = true
is_final failed = true
is_final canceled = true
is_final pending = false
is_final running = false

unfoldable pub finished : {R : Type 0} → Task R → Bool
unfolding is_final
finished t = is_final t.status

-- tunnyTaskCtx: the task, and is its context canceled?
pub record TaskCtx (R : Type 0) : Type 0 where
  pub is_canceled : Bool
  pub task : Task R

-- What a task's function returns: a result, an error, or an error that is context.Canceled.
pub data Outcome (R : Type 0) : Type 0 where
  success : R → Outcome R
  failure_of : Str → Outcome R
  cancellation : Outcome R

-- The value of a counter that is set or added to.
unfoldable pub counted : ℕ → ℕ → Bool → ℕ
counted old n absolute = if absolute then n else (old + n) % 2 ^ 64

-- A call of Progress or Total
pub data TaskReport : Type 0 where
  loaded_report total_report : ℕ → Bool → TaskReport

-- IsValidGroup: ^([A-z0-9-_]+)(/([A-z0-9-_]+))*$
unfoldable pub is_group_char : ℕ → Bool
is_group_char c = leb 65 c && leb c 122 || leb 48 c && leb c 57 || c == b'-'

unfoldable pub all_group_chars : Str → Bool
unfolding is_group_char
all_group_chars [] = true
all_group_chars (c ∷ s) = is_group_char c && all_group_chars s

unfoldable pub are_group_names : List Str → Bool
unfolding all_group_chars
are_group_names [] = true
are_group_names (s ∷ ss) = not (str_eq s []) && all_group_chars s && are_group_names ss

unfoldable pub is_valid_group : Str → Bool
unfolding are_group_names split
is_valid_group g = are_group_names (split slash g)

module _ {R : Type 0} where
  -- createTask, with a new id; the options are functions on the task.
  unfoldable pub new_task : ℕ → Str → List (Task R → Task R) → TaskCtx R
  new_task now id options = record {
    is_canceled = false;
    task =
        foldl (λ t o. o t)
          (record {
            id = id;
            status = pending;
            loaded = 0;
            total = 0;
            result = none;
            failure = none;
            created_at = now;
            updated_at = none;
            name = [];
            group = [];
          })
          options;
  }

  -- WithName
  unfoldable pub with_name : Str → Task R → Task R
  with_name n t = record t { name = n }

  -- WithGroup, WithNameGroup; `none` where they panic
  unfoldable pub with_group : Str → Option (Task R → Task R)
  unfolding is_valid_group
  with_group g = if is_valid_group g then some (λ t. record t { group = g }) else none

  unfoldable pub with_name_group : Str → Str → Option (Task R → Task R)
  unfolding is_valid_group
  with_name_group n g =
      if is_valid_group g then some (λ t. record t { name = n; group = g }) else none

  -- The part of Progress and of Total behind their check of the context, with the mutex.
  unfoldable pub write_report : ℕ → TaskReport → TaskCtx R → TaskCtx R
  unfolding counted
  write_report now (loaded_report n absolute) w = record w {
    task = record (w.task) { loaded = counted w.task.loaded n absolute; updated_at = some now };
  }
  write_report now (total_report n absolute) w = record w {
    task = record (w.task) { total = counted w.task.total n absolute; updated_at = some now };
  }

  -- Progress, where nothing comes between its check and its write
  unfoldable pub progress : ℕ → ℕ → Bool → TaskCtx R → TaskCtx R
  unfolding write_report
  progress now n absolute w =
      if w.is_canceled then w else write_report now (loaded_report n absolute) w

  -- Total, where nothing comes between its check and its write
  unfoldable pub report_total : ℕ → ℕ → Bool → TaskCtx R → TaskCtx R
  unfolding write_report
  report_total now n absolute w =
      if w.is_canceled then w else write_report now (total_report n absolute) w

  -- The two effects of cancel: cancelFn(), and the write of the status.
  unfoldable pub cancel_context : TaskCtx R → TaskCtx R
  cancel_context w = record w { is_canceled = true }

  unfoldable pub show_canceled : TaskCtx R → TaskCtx R
  show_canceled w = record w { task = record (w.task) { status = canceled } }

  -- cancel, where nothing comes between its effects
  unfoldable pub cancel : TaskCtx R → TaskCtx R
  unfolding cancel_context show_canceled
  cancel w = if w.is_canceled then w else show_canceled (cancel_context w)

  -- executor, from the check of the context to the call of the function
  unfoldable pub begin : ℕ → TaskCtx R → TaskCtx R
  begin now w = record w { task = record (w.task) { status = running; updated_at = some now } }

  -- The status, the error and the result after the function has returned.
  unfoldable pub settled : Outcome R → Task R → Task R
  settled (success r) t = record t { status = done; result = some r }
  settled (failure_of message) t = record t { status = failed; failure = some message }
  settled cancellation t = record t { status = canceled }

  -- The rest of executor.
  unfoldable pub finish : ℕ → Outcome R → TaskCtx R → TaskCtx R
  unfolding settled
  finish now o w = record w { task = record (settled o w.task) { updated_at = some now } }

  -- executor, where nothing else happens to the task but what its function does.
  unfoldable pub executor : ℕ → ℕ → (TaskCtx R → Outcome R × TaskCtx R) → TaskCtx R → TaskCtx R
  unfolding begin finish
  executor now later runnable w =
      if w.is_canceled then w else (let r = runnable (begin now w) in finish later r.0 r.1)

-- Is the group of the task asked for?
unfoldable pub in_group : Str → Str → Bool
unfolding has_prefix
in_group group of_task =
    str_eq group [] || str_eq of_task group || has_prefix of_task (group ++ (slash ∷ []))

-- time.Now().Unix() - UpdatedAt.Unix() > 600
unfoldable pub is_overdue : ℕ → Option ℕ → Bool
is_overdue now none = true
is_overdue now (some t) = ltb (t + 600) now

module _ {R M : Type 0} (store : ConcurrentMap (TaskCtx R) M) where
  -- Execute, up to the goroutine that it starts
  unfoldable pub create_task : ℕ → Str → List (Task R → Task R) → M → TaskCtx R × M
  unfolding new_task
  create_task now id options m = let w = new_task now id options in (w, store.set w.task.id w m)

  -- The error of a task that is not in the store.
  unfoldable pub find_task : Option (TaskCtx R) → Result (TaskCtx R)
  find_task none = err other
  find_task (some w) = ok w

  -- GetTask
  unfoldable pub get_task : Str → M → Result (Task R)
  unfolding find_task
  get_task id m = find_task (store.lookup id m) >>= (λ w. ok w.task)

  -- The part of StopTask after the lookup.
  unfoldable pub stop_found : Str → M → Option (TaskCtx R) → Result (Task R) × M
  unfolding finished cancel
  stop_found id m none = (err other, m)
  stop_found id m (some w) =
      if finished w.task then (ok w.task, m) else (ok (cancel w).task, store.set id (cancel w) m)

  -- StopTask
  unfoldable pub stop_task : Str → M → Result (Task R) × M
  unfolding stop_found
  stop_task id m = stop_found id m (store.lookup id m)

  unfoldable pub remove_found : M → Option (TaskCtx R) → Result {0} Unit × M
  remove_found m none = (err other, m)
  remove_found m (some w) = (ok tt, store.remove w.task.id m)

  -- RemoveTask; the task that it cancels is not in the store afterwards.
  unfoldable pub remove_task : Str → M → Result {0} Unit × M
  unfolding remove_found
  remove_task id m = remove_found m (store.lookup id m)

  unfoldable pub tasks_in : Str → List (Str × TaskCtx R) → List (Task R)
  unfolding in_group
  tasks_in group [] = []
  tasks_in group ((k, w) ∷ rest) =
      let others = tasks_in group rest in
      if in_group group w.task.group then w.task ∷ others else others

  -- GetTasks
  unfoldable pub get_tasks : Str → M → List (Task R)
  unfolding tasks_in
  get_tasks group m = tasks_in group (store.entries m)

  -- The ids that clean collects.
  unfoldable pub overdue_ids : ℕ → List (Str × TaskCtx R) → List Str
  unfolding finished is_overdue
  overdue_ids now [] = []
  overdue_ids now ((k, w) ∷ rest) =
      let ids = overdue_ids now rest in
      if finished w.task && is_overdue now w.task.updated_at then w.task.id ∷ ids else ids

  -- clean
  unfoldable pub clean : ℕ → M → M
  unfolding overdue_ids remove_keys
  clean now m = remove_keys store (overdue_ids now (store.entries m)) m
