-- ===== src/Retries/Overlap.antt =====
-- server/job/executor.go: calls of scheduleRetry for one job that may overlap. Nothing else writes the
-- row here: the hourly pass of server/job/history_service.go and a change of the configuration, which
-- do, are not modelled.
use solocoder_6069_go_drive.Common.{ℕ, List, ◌∷◌, ◌++◌, ◌≡◌}
use solocoder_6069_go_drive.Retries.{
  RetryState, QueryFailures, Retrying, Progressed, goes_on, answers, read_retry, proceed,
}

-- The rows, and what is left of the calls that have read their row and not answered yet.
pub record RetryCalls : Type 0 where
  pub rows : RetryState
  pub calls : List Retrying

unfoldable pub still_open : Progressed → List Retrying → List Retrying
still_open (goes_on p) calls = p ∷ calls
still_open (answers b) calls = calls

-- A failed run calls scheduleRetry, which reads the row.
unfoldable pub start_retry : QueryFailures → ℕ → ℕ → RetryCalls → RetryCalls
unfolding still_open read_retry
start_retry x now id w = record w { calls = still_open (read_retry x now id w.rows.config) w.calls }

-- One of the open calls makes its next query.
unfoldable pub continue_retry :
    QueryFailures → List Retrying → Retrying → List Retrying → RetryCalls → RetryCalls
unfolding still_open proceed
continue_retry x before p rest w =
    let (q, rows) = proceed x p w.rows in
    record { rows = rows; calls = still_open q (before ++ rest) }

pub data RetryStep : RetryCalls → RetryCalls → Type 0 where
  starts : (x : QueryFailures) (now id : ℕ) {w : RetryCalls} → RetryStep w (start_retry x now id w)
  continues :
      (x : QueryFailures) (before : List Retrying) (p : Retrying) (rest : List Retrying)
      {w : RetryCalls}
      → w.calls ≡ before ++ (p ∷ rest)
      → RetryStep w (continue_retry x before p rest w)

pub data RetrySteps : RetryCalls → RetryCalls → Type 0 where
  no_more : {w : RetryCalls} → RetrySteps w w
  after_step : {u v w : RetryCalls} → RetryStep u v → RetrySteps v w → RetrySteps u w
