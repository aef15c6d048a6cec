-- ===== src/Lifecycle/Job.antt =====
-- packages/shared/src/job-transitions.ts
pub mod Laws
use chain_port.Prelude.{
  ℕ, ◌+◌, Bool, true, false, ◌&&◌, Option, none, some, or_else, get_elem?, ltb, List, [], ◌∷◌, any,
  if◌then◌else◌, ◌==◌, Result, ok, err,
}
use chain_port.Lifecycle.Paths.{TransitionError, invalid_transition}

pub data JobStatus : Type 0 where
  queued ingesting analyzing comparing planning patching building testing deploying verifying
        completed failed cancelled :
      JobStatus

-- The place of a status among all, by which two are compared.
abbrev pub job_index : JobStatus → ℕ
job_index queued = 0
job_index ingesting = 1
job_index analyzing = 2
job_index comparing = 3
job_index planning = 4
job_index patching = 5
job_index building = 6
job_index testing = 7
job_index deploying = 8
job_index verifying = 9
job_index completed = 10
job_index failed = 11
job_index cancelled = 12

abbrev pub allowed_job_transitions : JobStatus → List JobStatus
allowed_job_transitions queued = ingesting ∷ failed ∷ cancelled ∷ []
allowed_job_transitions ingesting = completed ∷ analyzing ∷ failed ∷ cancelled ∷ []
allowed_job_transitions analyzing = comparing ∷ failed ∷ cancelled ∷ []
allowed_job_transitions comparing = planning ∷ failed ∷ cancelled ∷ []
allowed_job_transitions planning = patching ∷ completed ∷ failed ∷ cancelled ∷ []
allowed_job_transitions patching = building ∷ failed ∷ cancelled ∷ []
allowed_job_transitions building = testing ∷ failed ∷ cancelled ∷ []
allowed_job_transitions testing = deploying ∷ completed ∷ failed ∷ cancelled ∷ []
allowed_job_transitions deploying = verifying ∷ failed ∷ cancelled ∷ []
allowed_job_transitions verifying = completed ∷ failed ∷ []
allowed_job_transitions completed = []
allowed_job_transitions failed = queued ∷ []
allowed_job_transitions cancelled = []

unfoldable pub is_job_transition_allowed : JobStatus → JobStatus → Bool
is_job_transition_allowed from to =
    any (λ s. job_index s == job_index to) (allowed_job_transitions from)

unfoldable pub assert_job_transition :
    JobStatus → JobStatus → Result (TransitionError JobStatus) (Unit {0})
unfolding is_job_transition_allowed
assert_job_transition from to =
    if is_job_transition_allowed from to then ok tt else err (invalid_transition from to)

-- `JOB_STAGE_SEQUENCE.indexOf(status)`, -1 as `none`.
abbrev pub stage_position : JobStatus → Option ℕ
stage_position ingesting = some 0
stage_position analyzing = some 1
stage_position comparing = some 2
stage_position planning = some 3
stage_position patching = some 4
stage_position building = some 5
stage_position testing = some 6
stage_position deploying = some 7
stage_position verifying = some 8
stage_position _ = none

abbrev pub job_stage_sequence : List JobStatus
job_stage_sequence =
    ingesting ∷ analyzing ∷ comparing ∷ planning ∷ patching ∷ building ∷ testing ∷ deploying
    ∷ verifying ∷ []

-- `JOB_STAGE_SEQUENCE[index + 1]`, with `indexOf` at -1 giving the first.
abbrev pub following : Option ℕ → ℕ
following none = 0
following (some index) = index + 1

unfoldable pub next_job_stage : JobStatus → JobStatus
next_job_stage status =
    or_else (get_elem? job_stage_sequence (following (stage_position status))) completed

pub data StageError : Type 0 where
  not_executable : JobStatus → StageError

abbrev stage_or_error : JobStatus → Option ℕ → Result StageError ℕ
stage_or_error status none = err (not_executable status)
stage_or_error status (some index) = ok index

unfoldable pub executable_stage_index : JobStatus → Result StageError ℕ
executable_stage_index queued = ok 0
executable_stage_index status = stage_or_error status (stage_position status)

abbrev pub is_failed : JobStatus → Bool
is_failed failed = true
is_failed _ = false

unfoldable pub can_retry_job : JobStatus → ℕ → ℕ → Bool
can_retry_job status attempt max_attempts = is_failed status && ltb attempt max_attempts
