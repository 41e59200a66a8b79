-- ===== src/Tasks/Context.antt =====
-- common/task/context.go: the contexts that count progress, alone or on behalf of another.
use solocoder_6069_go_drive.Common.{ℕ, Bool, true, false, if◌then◌else◌}
use solocoder_6069_go_drive.Tasks.{counted}

-- TaskContextWrapper
pub record Counter : Type 0 where
  pub loaded : ℕ
  pub total : ℕ
  pub mutable : Bool

-- NewContextWrapper, NewTaskContext
unfoldable pub new_context_wrapper : Counter
new_context_wrapper = record { loaded = 0; total = 0; mutable = false }

unfoldable pub new_task_context : Counter
new_task_context = record { loaded = 0; total = 0; mutable = true }

-- A report of progress, or of a part of the total.
pub data Report : Type 0 where
  report_loaded report_sum : ℕ → Bool → Report

-- Progress and Total
unfoldable pub report : Report → Counter → Counter
unfolding counted
report (report_loaded n absolute) d =
    if d.mutable then record d { loaded = counted d.loaded n absolute } else d
report (report_sum n absolute) d =
    if d.mutable then record d { total = counted d.total n absolute } else d

-- GetProgress, GetTotal
unfoldable pub get_progress : Counter → ℕ
get_progress d = if d.mutable then d.loaded else 0

unfoldable pub get_total : Counter → ℕ
get_total d = if d.mutable then d.total else 0

-- Progress and Total of the context that NewCtxWrapper puts around another, in a state X
unfoldable pub wrapped : {X : Type 0} → Bool → Bool → (Report → X → X) → Report → X → X
wrapped mutable_loaded mutable_total below (report_loaded n absolute) x =
    if mutable_loaded then below (report_loaded n absolute) x else x
wrapped mutable_loaded mutable_total below (report_sum n absolute) x =
    if mutable_total then below (report_sum n absolute) x else x
