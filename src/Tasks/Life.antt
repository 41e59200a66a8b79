-- ===== src/Tasks/Life.antt =====
-- common/task/tunny_runner.go: the life of one task, which its function, executor and StopTask change in
-- any order. executor does not hold the mutex, so others may come between its check and its writes;
-- Progress and Total take it behind their check of the context; cancel holds it for its two effects. The
-- writes of executor before the task's function are one step, and so are those after it.
use solocoder_6069_go_drive.Common.{
  ℕ, Bool, true, false, List, ◌∷◌, ◌++◌, ◌≡◌, refl, ◌∙◌, ap, ◌⊎◌, inl, inr,
}
use solocoder_6069_go_drive.Tasks.{
  pending, running, canceled, TaskCtx, TaskReport, loaded_report, total_report, Outcome, success,
  failure_of, cancellation, is_final, finished, write_report, cancel_context, show_canceled, begin,
  settled, finish,
}

-- Where executor is: before it, behind its check of the context, in the task's function, at its end.
pub data Phase : Type 0 where
  queued checked executing ended : Phase

-- A task, whether a cancel is between its two effects, and the calls of Progress and Total that are
-- between their check of the context and their write.
pub record TaskState (R : Type 0) : Type 0 where
  pub ctx : TaskCtx R
  pub canceling : Bool
  pub reports : List TaskReport

abbrev pub put : {R : Type 0} → TaskState R → TaskCtx R → TaskState R
put s w = record s { ctx = w }

-- What may happen to a task.
pub data Step {R : Type 0} : Phase → TaskState R → Phase → TaskState R → Type 0 where
  skips : {s : TaskState R} → s.ctx.is_canceled ≡ true → Step queued s ended s
  passes : {s : TaskState R} → s.ctx.is_canceled ≡ false → Step queued s checked s
  begins : (now : ℕ) {s : TaskState R} → Step checked s executing (put s (begin now s.ctx))
  ends :
      (now : ℕ) (o : Outcome R) {s : TaskState R}
      → Step executing s ended (put s (finish now o s.ctx))
  reports_in :
      (r : TaskReport) {phase : Phase} {s : TaskState R}
      → s.ctx.is_canceled ≡ false
      → Step phase s phase (record s { reports = r ∷ s.reports })
  writes :
      (now : ℕ) (before : List TaskReport) (r : TaskReport) (rest : List TaskReport) {phase : Phase}
      {s : TaskState R}
      → s.canceling ≡ false
      → s.reports ≡ before ++ (r ∷ rest)
      → Step phase s phase (record s { ctx = write_report now r s.ctx; reports = before ++ rest })
  cancels :
      {phase : Phase} {s : TaskState R}
      → s.ctx.is_canceled ≡ false
      → s.canceling ≡ false
      → Step phase s phase (record s { ctx = cancel_context s.ctx; canceling = true })
  shows :
      {phase : Phase} {s : TaskState R}
      → s.canceling ≡ true
      → Step phase s phase (record s { ctx = show_canceled s.ctx; canceling = false })

pub data Steps {R : Type 0} : Phase → TaskState R → Phase → TaskState R → Type 0 where
  stop : {a : Phase} {v : TaskState R} → Steps a v a v
  step : {a b c : Phase} {u v w : TaskState R} → Step a u b v → Steps b v c w → Steps a u c w

-- Pending and not canceled; or canceled, where the status is not written yet, or is.
abbrev pub IsUnstarted : {R : Type 0} → TaskState R → Type 0
IsUnstarted s =
    ((s.ctx.is_canceled ≡ false) × (s.canceling ≡ false) × (s.ctx.task.status ≡ pending))
    ⊎ (((s.ctx.is_canceled ≡ true) × (s.canceling ≡ true) × (s.ctx.task.status ≡ pending))
        ⊎ ((s.ctx.is_canceled ≡ true) × (s.ctx.task.status ≡ canceled)))

-- What holds of a task in each phase.
abbrev pub IsLegal : {R : Type 0} → Phase → TaskState R → Type 0
IsLegal queued s = IsUnstarted s
IsLegal checked s = IsUnstarted s
IsLegal executing s = (s.ctx.task.status ≡ running) ⊎ (s.ctx.task.status ≡ canceled)
IsLegal ended s = (finished s.ctx.task ≡ true) ⊎ (s.canceling ≡ true)

module _ {R : Type 0} where
  finished-finish :
      (now : ℕ) (o : Outcome R) (w : TaskCtx R) → finished (finish now o w).task ≡ true
  unfolding finish settled finished is_final
  finished-finish now (success r) w = refl
  finished-finish now (failure_of m) w = refl
  finished-finish now cancellation w = refl

  finished-canceled : (w : TaskCtx R) → w.task.status ≡ canceled → finished w.task ≡ true
  unfolding finished is_final
  finished-canceled w e = rw e refl

  status-write_report :
      (now : ℕ) (r : TaskReport) (w : TaskCtx R)
      → (write_report now r w).task.status ≡ w.task.status
  unfolding write_report
  status-write_report now (loaded_report n absolute) w = refl
  status-write_report now (total_report n absolute) w = refl

  is_canceled-write_report :
      (now : ℕ) (r : TaskReport) (w : TaskCtx R)
      → (write_report now r w).is_canceled ≡ w.is_canceled
  unfolding write_report
  is_canceled-write_report now (loaded_report n absolute) w = refl
  is_canceled-write_report now (total_report n absolute) w = refl

  IsLegal-skips : (s : TaskState R) → s.ctx.is_canceled ≡ true → IsUnstarted s → IsLegal ended s
  IsLegal-skips s e (inl (n, c, p)) = let no : ⊥ = cc in absurd no
  IsLegal-skips s e (inr (inl (n, c, p))) = inr c
  IsLegal-skips s e (inr (inr (n, p))) = inl (finished-canceled s.ctx p)

  -- A step that keeps the flags and the status.
  IsLegal-same :
      (a : Phase) (s t : TaskState R)
      → t.ctx.is_canceled ≡ s.ctx.is_canceled
      → t.canceling ≡ s.canceling
      → t.ctx.task.status ≡ s.ctx.task.status
      → IsLegal a s
      → IsLegal a t
  unfolding finished
  IsLegal-same queued s t e c p (inl (x, y, z)) = inl (e ∙ x, c ∙ y, p ∙ z)
  IsLegal-same queued s t e c p (inr (inl (x, y, z))) = inr (inl (e ∙ x, c ∙ y, p ∙ z))
  IsLegal-same queued s t e c p (inr (inr (x, z))) = inr (inr (e ∙ x, p ∙ z))
  IsLegal-same checked s t e c p (inl (x, y, z)) = inl (e ∙ x, c ∙ y, p ∙ z)
  IsLegal-same checked s t e c p (inr (inl (x, y, z))) = inr (inl (e ∙ x, c ∙ y, p ∙ z))
  IsLegal-same checked s t e c p (inr (inr (x, z))) = inr (inr (e ∙ x, p ∙ z))
  IsLegal-same executing s t e c p (inl x) = inl (p ∙ x)
  IsLegal-same executing s t e c p (inr x) = inr (p ∙ x)
  IsLegal-same ended s t e c p (inl x) = inl (ap is_final p ∙ x)
  IsLegal-same ended s t e c p (inr x) = inr (c ∙ x)

  IsUnstarted-cancels :
      (s : TaskState R)
      → s.ctx.is_canceled ≡ false
      → IsUnstarted s
      → IsUnstarted (record s { ctx = cancel_context s.ctx; canceling = true })
  unfolding cancel_context
  IsUnstarted-cancels s e (inl (n, c, p)) = inr (inl (refl, refl, p))
  IsUnstarted-cancels s e (inr (inl (n, c, p))) = let no : ⊥ = cc in absurd no
  IsUnstarted-cancels s e (inr (inr (n, p))) = let no : ⊥ = cc in absurd no

  IsLegal-cancels :
      (a : Phase) (s : TaskState R)
      → s.ctx.is_canceled ≡ false
      → IsLegal a s
      → IsLegal a (record s { ctx = cancel_context s.ctx; canceling = true })
  unfolding cancel_context
  IsLegal-cancels queued s e h = IsUnstarted-cancels s e h
  IsLegal-cancels checked s e h = IsUnstarted-cancels s e h
  IsLegal-cancels executing s e h = h
  IsLegal-cancels ended s e h = inr refl

  IsUnstarted-shows :
      (s : TaskState R)
      → s.canceling ≡ true
      → IsUnstarted s
      → IsUnstarted (record s { ctx = show_canceled s.ctx; canceling = false })
  unfolding show_canceled
  IsUnstarted-shows s e (inl (n, c, p)) = let no : ⊥ = cc in absurd no
  IsUnstarted-shows s e (inr (inl (n, c, p))) = inr (inr (n, refl))
  IsUnstarted-shows s e (inr (inr (n, p))) = inr (inr (n, refl))

  IsLegal-shows :
      (a : Phase) (s : TaskState R)
      → s.canceling ≡ true
      → IsLegal a s
      → IsLegal a (record s { ctx = show_canceled s.ctx; canceling = false })
  unfolding show_canceled
  IsLegal-shows queued s e h = IsUnstarted-shows s e h
  IsLegal-shows checked s e h = IsUnstarted-shows s e h
  IsLegal-shows executing s e h = inr refl
  IsLegal-shows ended s e h = inl (unfold finished is_final in refl)

  Step-IsLegal : (a b : Phase) (u v : TaskState R) → Step a u b v → IsLegal a u → IsLegal b v
  Step-IsLegal a b u v (skips e) h = IsLegal-skips u e h
  Step-IsLegal a b u v (passes e) h = h
  Step-IsLegal a b u v (begins now) h = inl (unfold begin in refl)
  Step-IsLegal a b u v (ends now o) h = inl (finished-finish now o u.ctx)
  Step-IsLegal a b u v (reports_in r e) h = IsLegal-same a u v refl refl refl h
  Step-IsLegal a b u v (writes now before r rest c e) h =
      IsLegal-same a u v (is_canceled-write_report now r u.ctx) refl
        (status-write_report now r u.ctx) h
  Step-IsLegal a b u v (cancels e c) h = IsLegal-cancels a u e h
  Step-IsLegal a b u v (shows c) h = IsLegal-shows a u c h

  -- From a task that is pending and not canceled on, whatever happens to it in any order, with cancel
  -- and the reports of progress in their single effects: before its function runs it is pending and not
  -- canceled, or its context is canceled and its status shows that or is about to; while the function
  -- runs it is running or canceled; and at the end of executor it is done, failed or canceled, or a
  -- cancel is between its two effects.
  pub Steps-IsLegal : (a b : Phase) (u v : TaskState R) → Steps a u b v → IsLegal a u → IsLegal b v
  Steps-IsLegal a b u v stop h = h
  Steps-IsLegal a b u v (step {b = c} {v = w} s rest) h =
      Steps-IsLegal c b w v rest (Step-IsLegal a c u w s h)
