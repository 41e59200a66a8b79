-- ===== src/Tasks/Examples.antt =====
-- Tasks that are run, stopped and cleaned.
use solocoder_6069_go_drive.Common.{
  str_eq_iff, str_eq, split, Bool-cases, ℕ, true, false, List, [], ◌∷◌, Str, codes, Option, none,
  some, ◌≡◌, refl, sym, ◌∙◌, ap, inl, inr,
}
use solocoder_6069_go_drive.KvCache.ListMap.{list_map}
use solocoder_6069_go_drive.Tasks.{
  TaskCtx, TaskReport, loaded_report, success, done, new_task, with_group, with_name_group,
  get_tasks, clean, finish, begin, cancel, progress, write_report, cancel_context, show_canceled,
}
use solocoder_6069_go_drive.Tasks.Life.{
  queued, executing, ended, TaskState, passes, begins, ends, reports_in, writes, cancels, shows,
  Steps, stop, step, IsLegal, Steps-IsLegal,
}
use solocoder_6069_go_drive.Tasks.Cancel.{IsQuiet, IsFrozen, Steps-IsFrozen}
use solocoder_6069_go_drive.Tasks.Clean.{IsKeyed, keep_new, lookup-clean}

abbrev fresh : TaskCtx ℕ
fresh = new_task 100 (codes "t1") ((λ t. record t { group = codes "drive/copy" }) ∷ [])

grouped :
    with_group {R = ℕ} (codes "drive/copy") ≡ some (λ t. record t { group = codes "drive/copy" })
unfolding with_group str_eq split
grouped = refl

panics : with_name_group {R = ℕ} (codes "copy") (codes "drive//copy") ≡ none
unfolding with_name_group str_eq split
panics = refl

abbrev stopped : TaskCtx ℕ
stopped = cancel (progress 102 5 false (begin 101 fresh))

not_canceled : fresh.is_canceled ≡ false
unfolding new_task
not_canceled = refl

abbrev waiting : TaskState ℕ
waiting = record { ctx = fresh; canceling = false; reports = [] }

abbrev five_more : TaskReport
five_more = loaded_report 5 false

-- The function reports, is canceled between the check and the write of another five_more, and goes on.
abbrev reported : TaskState ℕ
reported = record {
  ctx = cancel_context (write_report 102 five_more (begin 101 fresh));
  canceling = true;
  reports = five_more ∷ [];
}

abbrev late : TaskState ℕ
late = record {
  ctx = write_report 103 five_more (show_canceled reported.ctx);
  canceling = false;
  reports = [];
}

abbrev done_late : TaskState ℕ
done_late = record late { ctx = finish 104 (success 7) late.ctx }

still_on : (write_report 102 five_more (begin 101 fresh)).is_canceled ≡ false
unfolding write_report begin new_task
still_on = refl

begun_on : (begin 101 fresh).is_canceled ≡ false
unfolding begin new_task
begun_on = refl

to_late : Steps queued waiting executing late
to_late = step (passes not_canceled) (
    step (begins 101) (
      step (reports_in five_more begun_on) (
        step (writes 102 [] five_more [] refl refl) (
          step (reports_in five_more still_on) (
            step (cancels still_on refl)
              (step (shows refl) (step (writes 103 [] five_more [] refl refl) stop)))))))

to_end : Steps executing late ended done_late
to_end = step (ends 104 (success 7)) stop

-- The late five_more is in the progress of the canceled task.
counts_late : late.ctx.task.loaded ≡ 10
unfolding write_report show_canceled cancel_context begin new_task
counts_late = refl

-- A task that was canceled while it ran is done all the same, if its function returns without an error.
shows_done : done_late.ctx.task.status ≡ done
unfolding finish
shows_done = refl

Steps-IsLegal_example : IsLegal executing late
Steps-IsLegal_example =
    Steps-IsLegal queued executing waiting late to_late (unfold new_task in inl (refl, refl, refl))

late-IsQuiet : IsQuiet late
unfolding write_report show_canceled cancel_context
late-IsQuiet = record { is_canceled = refl; no_reports = refl }

Steps-IsFrozen_example : IsFrozen late done_late
Steps-IsFrozen_example = Steps-IsFrozen executing ended late done_late to_end late-IsQuiet

abbrev tasks : List (Str × TaskCtx ℕ)
tasks = (codes "t1", stopped) ∷ []

id_in : Str → Option (TaskCtx ℕ) → Str
id_in d none = d
id_in d (some w) = w.task.id

tasks-IsKeyed : IsKeyed list_map tasks
unfolding list_map cancel progress begin new_task id_in
tasks-IsKeyed k w e = elim (Bool-cases (str_eq (codes "t1") k)) [
  | inl h ↦
      let found : some stopped ≡ some w = sym (rw h refl) ∙ e in
      sym (ap (id_in (codes "t1")) found) ∙ (str_eq_iff (codes "t1") k).0 h
  | inr h ↦ let found : none ≡ some w = sym (rw h refl) ∙ e in absurd cc
]

lookup-clean_example :
    list_map.lookup (codes "t1") (clean list_map 800 tasks)
    ≡ keep_new 800 (list_map.lookup (codes "t1") tasks)
lookup-clean_example = lookup-clean list_map 800 (codes "t1") tasks tasks-IsKeyed

cleans : clean list_map 800 tasks ≡ []
unfolding clean list_map cancel progress begin new_task str_eq
cleans = refl

lists_group : get_tasks list_map (codes "drive") tasks ≡ stopped.task ∷ []
unfolding get_tasks list_map str_eq cancel progress begin new_task
lists_group = refl
