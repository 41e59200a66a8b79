-- ===== src/Tasks/Cancel.antt =====
-- common/task/tunny_runner.go: what can still happen to a task after its context was canceled.
use mathlib.Core.List.{cons-ne-nil}
use solocoder_6069_go_drive.Common.{ℕ, true, List, [], ◌∷◌, ◌++◌, ◌≡◌, ◌≢◌, refl, sym, ◌∙◌}
use solocoder_6069_go_drive.Tasks.{
  TaskReport, Outcome, success, failure_of, cancellation, show_canceled, begin, settled, finish,
}
use solocoder_6069_go_drive.Tasks.Life.{
  Phase, TaskState, Step, skips, passes, begins, ends, reports_in, writes, cancels, shows, Steps,
  stop, step,
}

-- The context is canceled, and no report is between its check of the context and its write.
pub record IsQuiet {R : Type 0} (s : TaskState R) : Type 0 where
  pub is_canceled : s.ctx.is_canceled ≡ true
  pub no_reports : s.reports ≡ []

-- Quiet still, with the counters of the task as they were.
abbrev pub IsFrozen : {R : Type 0} → TaskState R → TaskState R → Type 0
IsFrozen u v =
    IsQuiet v × (v.ctx.task.loaded ≡ u.ctx.task.loaded) × (v.ctx.task.total ≡ u.ctx.task.total)

append-ne-nil : (before rest : List TaskReport) (r : TaskReport) → before ++ (r ∷ rest) ≢ []
append-ne-nil [] rest r = cons-ne-nil _ _
append-ne-nil (b ∷ before) rest r = cons-ne-nil _ _

module _ {R : Type 0} where
  IsFrozen-trans : (u v w : TaskState R) → IsFrozen u v → IsFrozen v w → IsFrozen u w
  IsFrozen-trans u v w (a, b, c) (d, e, f) = (d, e ∙ b, f ∙ c)

  IsQuiet-same :
      (u v : TaskState R)
      → v.ctx.is_canceled ≡ u.ctx.is_canceled
      → v.reports ≡ u.reports
      → IsQuiet u
      → IsQuiet v
  IsQuiet-same u v e p q = record { is_canceled = e ∙ q.is_canceled; no_reports = p ∙ q.no_reports }

  ends-IsFrozen :
      (now : ℕ) (o : Outcome R) (s : TaskState R)
      → IsQuiet s
      → IsFrozen s (record s { ctx = finish now o s.ctx })
  unfolding finish settled
  ends-IsFrozen now (success r) s q = (IsQuiet-same s _ refl refl q, refl, refl)
  ends-IsFrozen now (failure_of m) s q = (IsQuiet-same s _ refl refl q, refl, refl)
  ends-IsFrozen now cancellation s q = (IsQuiet-same s _ refl refl q, refl, refl)

  Step-IsFrozen : (a b : Phase) (u v : TaskState R) → Step a u b v → IsQuiet u → IsFrozen u v
  Step-IsFrozen a b u v (skips _) q = (q, refl, refl)
  Step-IsFrozen a b u v (passes _) q = (q, refl, refl)
  Step-IsFrozen a b u v (begins now) q = unfold begin in (IsQuiet-same u v refl refl q, refl, refl)
  Step-IsFrozen a b u v (ends now o) q = ends-IsFrozen now o u q
  Step-IsFrozen a b u v (reports_in r e) q = let on = q.is_canceled in let no : ⊥ = cc in absurd no
  Step-IsFrozen a b u v (writes now before r rest c e) q =
      absurd (append-ne-nil before rest r (sym e ∙ q.no_reports))
  Step-IsFrozen a b u v (cancels e c) q = let on = q.is_canceled in let no : ⊥ = cc in absurd no
  Step-IsFrozen a b u v (shows c) q =
      unfold show_canceled in (IsQuiet-same u v refl refl q, refl, refl)

  -- From a time on at which a task's context is canceled and no call of Progress or Total is between
  -- its check of the context and its write: whatever happens to the task, in any order, its context
  -- stays canceled, no such call comes to its write, and the progress that the task shows stays as it
  -- is.
  pub Steps-IsFrozen : (a b : Phase) (u v : TaskState R) → Steps a u b v → IsQuiet u → IsFrozen u v
  Steps-IsFrozen a b u v stop q = (q, refl, refl)
  Steps-IsFrozen a b u v (step {b = c} {v = w} s rest) q =
      let (still, l, t) = Step-IsFrozen a c u w s q in
      IsFrozen-trans u w v (still, l, t) (Steps-IsFrozen c b w v rest still)
