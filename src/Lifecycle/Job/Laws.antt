-- ===== src/Lifecycle/Job/Laws.antt =====
-- The order of the stages of a job, and what ends one.
use chain_port.Prelude.{ℕ, ◌+◌, ◌*◌, ◌≤◌, ◌<◌, ◌≡◌, ◌⊎◌, ◌↔◌, true, false, ok, some, arith}
use chain_port.Lifecycle.Paths.{Trace, steps, retries, steps-le}
use chain_port.Lifecycle.Job.{
  JobStatus, queued, ingesting, analyzing, comparing, planning, patching, building, testing,
  deploying, verifying, completed, is_failed, stage_position, next_job_stage,
  executable_stage_index, can_retry_job, is_job_transition_allowed,
}

-- A rank that every transition raises, but the retry of a failed job.
abbrev job_rank : JobStatus → ℕ
job_rank queued = 0
job_rank ingesting = 1
job_rank analyzing = 2
job_rank comparing = 3
job_rank planning = 4
job_rank patching = 5
job_rank building = 6
job_rank testing = 7
job_rank deploying = 8
job_rank verifying = 9
job_rank _ = 10

job_rises :
    (s t : JobStatus)
    → is_job_transition_allowed s t ≡ true
    → is_failed s ≡ false
    → job_rank s < job_rank t
unfolding is_job_transition_allowed
job_rises s t h r = ground arith

job_bounded : (s : JobStatus) → job_rank s ≤ 10
job_bounded s = ground arith

-- A job makes at most ten transitions, and eleven more for each retry.
pub job_steps-le :
    (t : JobStatus) (p : Trace is_job_transition_allowed queued t)
    → steps is_job_transition_allowed p ≤ 10 + 11 * retries is_job_transition_allowed is_failed p
job_steps-le t p = omega (
  arith,
  steps-le is_job_transition_allowed is_failed job_rank 10 job_rises job_bounded p,
  job_bounded t,
)

-- From every stage the stage that follows is an allowed transition, and its index is one more,
-- except that the last stage is followed by COMPLETED.
pub next_job_stage_allowed :
    (s : JobStatus) (i : ℕ)
    → stage_position s ≡ some i
    → (is_job_transition_allowed s (next_job_stage s) ≡ true)
      × ((executable_stage_index (next_job_stage s) ≡ ok (i + 1))
          ⊎ ((s ≡ verifying) × (next_job_stage s ≡ completed)))
unfolding is_job_transition_allowed next_job_stage executable_stage_index
next_job_stage_allowed s i h = ground arith

-- Only a failed job with attempts left can be retried, and the one way on is back to the queue.
pub can_retry_job_queued :
    (s : JobStatus) (attempt max_attempts : ℕ)
    → can_retry_job s attempt max_attempts ≡ true
    → (attempt < max_attempts)
      × ((t : JobStatus) → (is_job_transition_allowed s t ≡ true) ↔ (t ≡ queued))
unfolding is_job_transition_allowed can_retry_job
can_retry_job_queued s attempt max_attempts h =
    (ground arith, λ t. (λ e. ground arith, λ e. ground arith))
