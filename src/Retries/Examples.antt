-- ===== src/Retries/Examples.antt =====
-- A job that may be run again twice, and two failed runs of it whose calls overlap.
use native.Mathlib.Omega.{arith}
use solocoder_6069_go_drive.Common.{true, false, [], ◌∷◌, some, ◌≡◌, refl}
use solocoder_6069_go_drive.Retries.{
  RetryConfig, QueryFailures, counting, timing, answers, schedule_retry,
}
use solocoder_6069_go_drive.Retries.Overlap.{
  RetryCalls, start_retry, continue_retry, starts, continues, RetrySteps, no_more, after_step,
}
use solocoder_6069_go_drive.Retries.Bound.{IsRow, ArePlanned, RetrySteps-bounded}

abbrev config : RetryConfig
config = record {
  retry_enabled = true;
  retry_interval_minutes = 5;
  max_retries = 2;
  retry_count = 0;
  next_retry_at = 0;
}

abbrev idle : RetryCalls
idle = record {
  rows = record { config = some config; dead_letters = []; planned = [] };
  calls = [];
}

abbrev works : QueryFailures
works = record { get_fails = false; mark_fails = false; count_fails = false; next_fails = false }

-- Both runs read the row, and then both write it.
abbrev first_read : RetryCalls
first_read = start_retry works 1000 1 idle

abbrev second_read : RetryCalls
second_read = start_retry works 2000 2 first_read

abbrev first_counted : RetryCalls
first_counted = continue_retry works [] (counting 1 302000) (counting 1 301000 ∷ []) second_read

abbrev first_timed : RetryCalls
first_timed = continue_retry works [] (timing 1 302000) (counting 1 301000 ∷ []) first_counted

abbrev second_counted : RetryCalls
second_counted = continue_retry works [] (counting 1 301000) [] first_timed

abbrev second_timed : RetryCalls
second_timed = continue_retry works [] (timing 1 301000) [] second_counted

overlaps : RetrySteps idle second_timed
unfolding start_retry continue_retry
overlaps = after_step (starts works 1000 1) (
    after_step (starts works 2000 2) (
      after_step (continues works [] (counting 1 302000) (counting 1 301000 ∷ []) refl) (
        after_step (continues works [] (timing 1 302000) (counting 1 301000 ∷ []) refl) (
          after_step (continues works [] (counting 1 301000) [] refl)
            (after_step (continues works [] (timing 1 301000) [] refl) no_more)))))

RetrySteps-bounded_example :
    ArePlanned 0 2 second_timed.rows.planned × IsRow 0 2 second_timed.rows.config
RetrySteps-bounded_example =
    RetrySteps-bounded idle second_timed config overlaps refl refl refl (omega arith)

-- Both plan the first retry.
plans_twice : second_timed.rows.planned ≡ (301000, 1) ∷ (302000, 1) ∷ []
unfolding start_retry continue_retry
plans_twice = refl

-- A call that nothing interrupts.
plans_once : (schedule_retry works 1000 1 idle.rows).0 ≡ answers true
unfolding schedule_retry
plans_once = refl
