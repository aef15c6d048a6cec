-- ===== src/Lifecycle/Validation/Laws.antt =====
-- How long a validation run can go on.
use chain_port.Prelude.{ℕ, ◌+◌, ◌*◌, ◌≤◌, ◌<◌, ◌≡◌, Bool, true, false, arith}
use chain_port.Lifecycle.Paths.{Trace, steps, retries, steps-le}
use chain_port.Lifecycle.Validation.{
  ValidationRunStatus, queued, preparing, installing, building, testing, failed,
  is_validation_transition_allowed,
}

abbrev validation_rank : ValidationRunStatus → ℕ
validation_rank queued = 0
validation_rank preparing = 1
validation_rank installing = 2
validation_rank building = 3
validation_rank testing = 4
validation_rank _ = 5

abbrev pub is_failed : ValidationRunStatus → Bool
is_failed failed = true
is_failed _ = false

validation_rises :
    (s t : ValidationRunStatus)
    → is_validation_transition_allowed s t ≡ true
    → is_failed s ≡ false
    → validation_rank s < validation_rank t
unfolding is_validation_transition_allowed
validation_rises s t h r = ground arith

validation_bounded : (s : ValidationRunStatus) → validation_rank s ≤ 5
validation_bounded s = ground arith

-- A queued validation run makes at most five transitions, and six more for each retry.
pub validation_steps-le :
    (t : ValidationRunStatus) (p : Trace is_validation_transition_allowed queued t)
    → steps is_validation_transition_allowed p
      ≤ 5 + 6 * retries is_validation_transition_allowed is_failed p
validation_steps-le t p = omega (
  arith,
  steps-le is_validation_transition_allowed is_failed validation_rank 5 validation_rises
      validation_bounded p,
  validation_bounded t,
)
