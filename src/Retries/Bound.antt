-- ===== src/Retries/Bound.antt =====
-- server/job/executor.go: the counts of the retries that are planned, however the calls overlap.
use native.Mathlib.Omega.{arith}
use solocoder_6069_go_drive.Common.{
  subst, ℕ, ◌+◌, ◌≤◌, leb, List, [], ◌∷◌, ◌++◌, All, Option, none, some, ◌≡◌, refl, sym, inl, inr,
  Bool-cases,
}
use solocoder_6069_go_drive.Retries.{
  RetryConfig, RetryState, QueryFailures, Retrying, marking, counting, timing, Progressed, goes_on,
  answers, mark_as_dead_letter, decide_retry, read_retry, count_row, time_row, proceed,
}
use solocoder_6069_go_drive.Retries.Overlap.{
  RetryCalls, still_open, start_retry, continue_retry, RetryStep, starts, continues, RetrySteps,
  no_more, after_step,
}

-- The count of a retry that may be planned: above low, and at most high.
abbrev pub IsCount : ℕ → ℕ → ℕ → Type 0
IsCount low high n = (low + 1 ≤ n) × (n ≤ high)

-- The row, if there still is one, has the maximum high and a count between low and high.
abbrev pub IsRow : ℕ → ℕ → Option RetryConfig → Type 0
IsRow low high none = Unit
IsRow low high (some c) = (c.max_retries ≡ high) × (low ≤ c.retry_count) × (c.retry_count ≤ high)

abbrev IsOpen : ℕ → ℕ → Retrying → Type 0
IsOpen low high (marking id) = Unit
IsOpen low high (counting count at) = IsCount low high count
IsOpen low high (timing count at) = IsCount low high count

abbrev IsNext : ℕ → ℕ → Progressed → Type 0
IsNext low high (goes_on p) = IsOpen low high p
IsNext low high (answers b) = Unit

abbrev pub ArePlanned : ℕ → ℕ → List (ℕ × ℕ) → Type 0
ArePlanned low high plans = All (λ p. IsCount low high p.1) plans

abbrev AreRows : ℕ → ℕ → RetryState → Type 0
AreRows low high s = IsRow low high s.config × ArePlanned low high s.planned

abbrev IsBounded : ℕ → ℕ → RetryCalls → Type 0
IsBounded low high w = AreRows low high w.rows × All (IsOpen low high) w.calls

decide_retry-IsNext :
    (low high now id : ℕ) (c : RetryConfig)
    → IsRow low high (some c)
    → IsNext low high (decide_retry now id c)
unfolding decide_retry
decide_retry-IsNext low high now id c (m, l, h) = elim (Bool-cases c.retry_enabled) [
  | inr e ↦ rw e tt
  | inl e ↦ elim (Bool-cases (leb c.max_retries c.retry_count)) [
    | inl f ↦ rw (e, f) tt
    | inr f ↦
        let a : low + 1 ≤ c.retry_count + 1 = omega arith in
        let b : c.retry_count + 1 ≤ high = ground arith in rw (e, f) (a, b)
  ]
]

read_retry-IsNext :
    (low high : ℕ) (x : QueryFailures) (now id : ℕ) (o : Option RetryConfig)
    → IsRow low high o
    → IsNext low high (read_retry x now id o)
unfolding read_retry
read_retry-IsNext low high x now id none h = tt
read_retry-IsNext low high x now id (some c) h = elim (Bool-cases x.get_fails) [
  | inl e ↦ rw e tt
  | inr e ↦ rw e (decide_retry-IsNext low high now id c h)
]

count_row-IsRow :
    (low high n : ℕ) (o : Option RetryConfig)
    → IsCount low high n
    → IsRow low high o
    → IsRow low high (count_row n o)
unfolding count_row
count_row-IsRow low high n none q r = tt
count_row-IsRow low high n (some c) (l, h) (m, a, b) = (m, omega arith, h)

time_row-IsRow :
    (low high at : ℕ) (o : Option RetryConfig) → IsRow low high o → IsRow low high (time_row at o)
unfolding time_row
time_row-IsRow low high at none r = tt
time_row-IsRow low high at (some c) r = r

mark-AreRows :
    (low high : ℕ) (x : QueryFailures) (id : ℕ) (s : RetryState)
    → AreRows low high s
    → AreRows low high (mark_as_dead_letter x id s)
unfolding mark_as_dead_letter
mark-AreRows low high x id s h = elim (Bool-cases x.mark_fails) [ inl e ↦ rw e h | inr e ↦ rw e h ]

proceed-AreRows :
    (low high : ℕ) (x : QueryFailures) (p : Retrying) (s : RetryState)
    → IsOpen low high p
    → AreRows low high s
    → IsNext low high (proceed x p s).0 × AreRows low high (proceed x p s).1
unfolding proceed
proceed-AreRows low high x (marking id) s q h = (tt, mark-AreRows low high x id s h)
proceed-AreRows low high x (counting count at) s q (r, d) = elim (Bool-cases x.count_fails) [
  | inl e ↦ rw e (tt, (r, d))
  | inr e ↦ rw e (q, (count_row-IsRow low high count s.config q r, d))
]
proceed-AreRows low high x (timing count at) s q (r, d) = elim (Bool-cases x.next_fails) [
  | inl e ↦ rw e (tt, (r, d))
  | inr e ↦ rw e (tt, (time_row-IsRow low high at s.config r, (q, d)))
]

still_open-All :
    (low high : ℕ) (q : Progressed) (calls : List Retrying)
    → IsNext low high q
    → All (IsOpen low high) calls
    → All (IsOpen low high) (still_open q calls)
unfolding still_open
still_open-All low high (goes_on p) calls n h = (n, h)
still_open-All low high (answers b) calls n h = h

-- One call that is taken out of the open ones, and the others.
All-taken :
    (low high : ℕ) (before : List Retrying) (p : Retrying) (rest : List Retrying)
    → All (IsOpen low high) (before ++ (p ∷ rest))
    → IsOpen low high p × All (IsOpen low high) (before ++ rest)
All-taken low high [] p rest h = h
All-taken low high (b ∷ before) p rest (q, h) =
    let (one, others) = All-taken low high before p rest h in (one, (q, others))

RetryStep-IsBounded :
    (low high : ℕ) (v w : RetryCalls) → RetryStep v w → IsBounded low high v → IsBounded low high w
RetryStep-IsBounded low high v w (starts x now id) (h, o) =
    unfold start_retry in
    (
      h,
      still_open-All low high (read_retry x now id v.rows.config) v.calls
          (read_retry-IsNext low high x now id v.rows.config h.0) o,
    )
RetryStep-IsBounded low high v w (continues x before p rest e) (h, o) =
    let (one, others) = All-taken low high before p rest (subst (All (IsOpen low high)) e o) in
    let (next, rows) = proceed-AreRows low high x p v.rows one h in
    unfold continue_retry in
    (rows, still_open-All low high (proceed x p v.rows).0 (before ++ rest) next others)

RetrySteps-IsBounded :
    (low high : ℕ) (v w : RetryCalls) → RetrySteps v w → IsBounded low high v → IsBounded low high w
RetrySteps-IsBounded low high v w no_more b = b
RetrySteps-IsBounded low high v w (after_step {v = u} s rest) b =
    RetrySteps-IsBounded low high u w rest (RetryStep-IsBounded low high v u s b)

-- For a job with a row whose retry count is not above its maximum, when no call of scheduleRetry for it
-- is open and no retry planned: whatever calls of scheduleRetry for it come, overlapping or not, with
-- whatever failures of their queries, each retry that they plan has a count above the row's at the
-- start and at most its maximum, and the row keeps its maximum and a count between the two.
pub RetrySteps-bounded :
    (v w : RetryCalls) (c : RetryConfig)
    → RetrySteps v w
    → v.rows.config ≡ some c
    → v.rows.planned ≡ []
    → v.calls ≡ []
    → c.retry_count ≤ c.max_retries
    → ArePlanned c.retry_count c.max_retries w.rows.planned
      × IsRow c.retry_count c.max_retries w.rows.config
RetrySteps-bounded v w c steps row plans none_open l =
    let ((r, p), o) = RetrySteps-IsBounded c.retry_count c.max_retries v w steps (
      (
        subst (IsRow c.retry_count c.max_retries) (sym row) (refl, omega arith, l),
        subst (ArePlanned c.retry_count c.max_retries) (sym plans) tt,
      ),
      subst (All (IsOpen c.retry_count c.max_retries)) (sym none_open) tt,
    ) in
    (p, r)
