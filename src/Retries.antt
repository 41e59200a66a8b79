-- ===== src/Retries.antt =====
-- server/job/executor.go: scheduleRetry, which plans the next run of a job that failed. The rows of the
-- database that it reads and writes are the state; which of its queries fail is a parameter. It takes no
-- lock and no transaction, so each of its queries is a step of its own: between two of them, other calls
-- for the job may come. Times are milliseconds.
pub mod Overlap
pub mod Bound
mod Examples
use solocoder_6069_go_drive.Common.{
  map, ℕ, ◌+◌, ◌*◌, Bool, true, false, leb, List, [], ◌∷◌, if◌then◌else◌, Option, none, some, zero,
  suc,
}

-- types.JobRetryConfig, without its ids
pub record RetryConfig : Type 0 where
  pub retry_enabled : Bool
  pub retry_interval_minutes : ℕ
  pub max_retries : ℕ
  pub retry_count : ℕ
  pub next_retry_at : ℕ

-- The row of the job, the ids of the runs that are marked as dead letters, and the goroutines that were
-- started: each waits for a time and then runs the job with a retry count.
pub record RetryState : Type 0 where
  pub config : Option RetryConfig
  pub dead_letters : List ℕ
  pub planned : List (ℕ × ℕ)

-- Does GetByJobId, MarkAsDeadLetter, UpdateRetryCount, UpdateNextRetryAt fail?
pub record QueryFailures : Type 0 where
  pub get_fails : Bool
  pub mark_fails : Bool
  pub count_fails : Bool
  pub next_fails : Bool

-- What is left of a call once it has read the row: MarkAsDeadLetter with the id of the run; or
-- UpdateRetryCount with the next count and the time of the retry; or UpdateNextRetryAt with both.
pub data Retrying : Type 0 where
  marking : (id : ℕ) → Retrying
  counting timing : (count at : ℕ) → Retrying

-- A call goes on, or answers.
pub data Progressed : Type 0 where
  goes_on : Retrying → Progressed
  answers : Bool → Progressed

-- MarkAsDeadLetter
unfoldable pub mark_as_dead_letter : QueryFailures → ℕ → RetryState → RetryState
mark_as_dead_letter x id s =
    if x.mark_fails then s else record s { dead_letters = id ∷ s.dead_letters }

-- The part of scheduleRetry from GetByJobId to its first write.
unfoldable pub decide_retry : ℕ → ℕ → RetryConfig → Progressed
decide_retry now id c =
    if c.retry_enabled
    then if leb c.max_retries c.retry_count
      then goes_on (marking id)
      else goes_on (counting (c.retry_count + 1) (now + c.retry_interval_minutes * 60 * 1000))
    else answers false

unfoldable pub read_retry : QueryFailures → ℕ → ℕ → Option RetryConfig → Progressed
unfolding decide_retry
read_retry x now id none = answers false
read_retry x now id (some c) = if x.get_fails then answers false else decide_retry now id c

-- UpdateRetryCount and UpdateNextRetryAt, which write one column of the row that is there then.
unfoldable pub count_row : ℕ → Option RetryConfig → Option RetryConfig
count_row n none = none
count_row n (some c) = some (record c { retry_count = n })

unfoldable pub time_row : ℕ → Option RetryConfig → Option RetryConfig
time_row at none = none
time_row at (some c) = some (record c { next_retry_at = at })

-- The next query of a call, and behind the last one the goroutine.
unfoldable pub proceed : QueryFailures → Retrying → RetryState → Progressed × RetryState
unfolding mark_as_dead_letter count_row time_row
proceed x (marking id) s = (answers false, mark_as_dead_letter x id s)
proceed x (counting count at) s =
    if x.count_fails
    then (answers false, s)
    else (goes_on (timing count at), record s { config = count_row count s.config })
proceed x (timing count at) s = if x.next_fails then (answers false, s) else (
  answers true,
  record s { config = time_row at s.config; planned = (at, count) ∷ s.planned },
)

-- A call that no other one interrupts: behind the row, at most two queries.
unfoldable pub go_on : ℕ → QueryFailures → Progressed × RetryState → Progressed × RetryState
unfolding proceed
go_on zero x r = r
go_on (suc n) x (answers b, s) = (answers b, s)
go_on (suc n) x (goes_on p, s) = go_on n x (proceed x p s)

unfoldable pub schedule_retry : QueryFailures → ℕ → ℕ → RetryState → Progressed × RetryState
unfolding go_on read_retry
schedule_retry x now id s = go_on 2 x (read_retry x now id s.config, s)
