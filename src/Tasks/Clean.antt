-- ===== src/Tasks/Clean.antt =====
-- common/task/tunny_runner.go: clean removes the old finished tasks and no others.
use solocoder_6069_go_drive.Common.{
  ℕ, Bool, true, false, ◌&&◌, List, [], ◌∷◌, ◌≡◌, refl, sym, ◌∙◌, ap, subst, inl, inr,
  if◌then◌else◌, Str, Option, none, some, In, Bool-cases, Option-cases,
}
use solocoder_6069_go_drive.KvCache.{ConcurrentMap}
use solocoder_6069_go_drive.KvCache.Removal.{remove_keys-absent, remove_keys-In, remove_keys-other}
use solocoder_6069_go_drive.Tasks.{TaskCtx, finished, is_overdue, overdue_ids, clean}

-- Finished, and last changed more than ten minutes ago or never.
unfoldable pub is_old : {R : Type 0} → ℕ → TaskCtx R → Bool
unfolding finished is_overdue
is_old now w = finished w.task && is_overdue now w.task.updated_at

unfoldable pub keep_new : {R : Type 0} → ℕ → Option (TaskCtx R) → Option (TaskCtx R)
unfolding is_old
keep_new now none = none
keep_new now (some w) = if is_old now w then none else some w

module _ {R M : Type 0} (store : ConcurrentMap (TaskCtx R) M) where
  -- Each task is in the store under its id, as createTask puts it there.
  abbrev pub IsKeyed : M → Type 0
  IsKeyed m = (k : Str) (w : TaskCtx R) → store.lookup k m ≡ some w → w.task.id ≡ k

  overdue_ids-take :
      (now : ℕ) (k : Str) (w : TaskCtx R) (es : List (Str × TaskCtx R))
      → is_old now w ≡ true
      → overdue_ids store now ((k, w) ∷ es) ≡ w.task.id ∷ overdue_ids store now es
  unfolding overdue_ids is_old
  overdue_ids-take now k w es e = rw e refl

  overdue_ids-skip :
      (now : ℕ) (k : Str) (w : TaskCtx R) (es : List (Str × TaskCtx R))
      → is_old now w ≡ false
      → overdue_ids store now ((k, w) ∷ es) ≡ overdue_ids store now es
  unfolding overdue_ids is_old
  overdue_ids-skip now k w es e = rw e refl

  -- Where an id of the list comes from.
  abbrev Source : ℕ → Str → List (Str × TaskCtx R) → Type 0
  Source now id es =
      (k : Str) × (w : TaskCtx R) × In (k, w) es × (w.task.id ≡ id) × (is_old now w ≡ true)

  Source-later :
      (now : ℕ) (id : Str) (e : Str × TaskCtx R) (es : List (Str × TaskCtx R))
      → Source now id es
      → Source now id (e ∷ es)
  Source-later now id e es (k, w, m, i, o) = (k, w, inr m, i, o)

  overdue_ids_sound :
      (now : ℕ) (id : Str) (es : List (Str × TaskCtx R))
      → In id (overdue_ids store now es)
      → Source now id es
  overdue_ids_sound now id [] h = absurd (unfold overdue_ids in h)
  overdue_ids_sound now id ((k, w) ∷ es) h = elim (Bool-cases (is_old now w)) [
    | inl e ↦ elim (subst (In id) (overdue_ids-take now k w es e) h) [
      | inl p ↦ (k, w, inl refl, sym p, e)
      | inr m ↦ Source-later now id (k, w) es (overdue_ids_sound now id es m)
    ]
    | inr e ↦
        Source-later now id (k, w) es
          (overdue_ids_sound now id es (subst (In id) (overdue_ids-skip now k w es e) h))
  ]

  overdue_ids_complete :
      (now : ℕ) (k : Str) (w : TaskCtx R) (es : List (Str × TaskCtx R))
      → In (k, w) es
      → is_old now w ≡ true
      → In w.task.id (overdue_ids store now es)
  overdue_ids_complete now k w [] m h = absurd m
  overdue_ids_complete now k w ((j, v) ∷ es) (inl p) h =
      subst (In w.task.id)
        (sym (overdue_ids-take now j v es (subst (λ x. is_old now x ≡ true) (ap (λ q. q.1) p) h)))
        (inl (ap (λ q. q.1.task.id) p))
  overdue_ids_complete now k w ((j, v) ∷ es) (inr m) h = elim (Bool-cases (is_old now v)) [
    | inl e ↦
        subst (In w.task.id) (sym (overdue_ids-take now j v es e))
          (inr (overdue_ids_complete now k w es m h))
    | inr e ↦
        subst (In w.task.id) (sym (overdue_ids-skip now j v es e))
          (overdue_ids_complete now k w es m h)
  ]

  ctx_of : TaskCtx R → Option (TaskCtx R) → TaskCtx R
  ctx_of d none = d
  ctx_of d (some w) = w

  -- A task that is not old is not among the ids, nor is one that is not there.
  not_among :
      (now : ℕ) (k : Str) (m : M)
      → IsKeyed m
      → ((w : TaskCtx R) → store.lookup k m ≡ some w → is_old now w ≡ false)
      → In k (overdue_ids store now (store.entries m))
      → ⊥
  not_among now k m keyed h p =
      let (j, w, i, e, o) = overdue_ids_sound now k (store.entries m) p in
      let at_j = store.entries-lookup j w m i in
      let same : k ≡ j = sym e ∙ keyed j w at_j in
      let no : is_old now w ≡ false = h w (ap (λ x. store.lookup x m) same ∙ at_j) in
      let no : ⊥ = cc in no

  -- Where each task is in the store under its id: after clean, a task is there as it was before, unless
  -- it is finished and was last changed more than ten minutes ago, or never; then it is not there.
  pub lookup-clean :
      (now : ℕ) (k : Str) (m : M)
      → IsKeyed m
      → store.lookup k (clean store now m) ≡ keep_new now (store.lookup k m)
  unfolding clean keep_new ctx_of
  lookup-clean now k m keyed = elim (Option-cases (store.lookup k m)) [
    | inl e ↦
        remove_keys-absent store k (overdue_ids store now (store.entries m)) m e
        ∙ sym (ap (keep_new now) e)
    | inr (w, e) ↦ elim (Bool-cases (is_old now w)) [
      | inl o ↦
          remove_keys-In store k (overdue_ids store now (store.entries m)) m (
            subst (λ x. In x (overdue_ids store now (store.entries m))) (keyed k w e)
              (overdue_ids_complete now k w (store.entries m) (store.lookup-entries k w m e) o))
          ∙ sym (ap (keep_new now) e ∙ (rw o refl))
      | inr o ↦
          remove_keys-other store k (overdue_ids store now (store.entries m)) m (
            not_among now k m keyed
              (λ v q. subst (λ x. is_old now x ≡ false) (ap (ctx_of w) (sym e ∙ q)) o))
          ∙ e
          ∙ sym (ap (keep_new now) e ∙ (rw o refl))
    ]
  ]
