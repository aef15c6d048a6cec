-- ===== src/Lifecycle/Tests.antt =====
-- Paths through the state machines, and the theorems at them.
use chain_port.Prelude.{◌+◌, ◌*◌, ◌≤◌, ◌≡◌, ◌≢◌, ◌⊎◌, refl, true, ◌||◌, ◌==◌, ok}
use chain_port.Lifecycle.Paths.{Trace, start, move, Visits, steps, retries}
use chain_port.Lifecycle.Job
use chain_port.Lifecycle.Job.{
  JobStatus, is_job_transition_allowed, next_job_stage, executable_stage_index,
}
use chain_port.Lifecycle.Job.Laws.{job_steps-le, next_job_stage_allowed}
use chain_port.Lifecycle.Deployment.{
  DeploymentRunStatus, deployment_index, is_deployment_transition_allowed,
  has_broadcast_side_effect,
}
use chain_port.Lifecycle.Deployment.Laws.{
  in_boundary, broadcast_stays, boundary_not_cancelled, broadcast_after_funding,
}
use chain_port.Lifecycle.ChangeSet.{ChangeSetStatus, is_changeset_transition_allowed}
use chain_port.Lifecycle.ChangeSet.Laws as ChangeSetLaws
use chain_port.Lifecycle.Validation.{ValidationRunStatus, is_validation_transition_allowed}
use chain_port.Lifecycle.Validation.Laws as ValidationLaws

retried : Trace is_job_transition_allowed JobStatus.queued JobStatus.queued
unfolding is_job_transition_allowed
retried =
    move JobStatus.queued (move JobStatus.failed (move JobStatus.ingesting start refl) refl) refl

job_steps-le_example :
    steps is_job_transition_allowed retried
    ≤ 10 + 11 * retries is_job_transition_allowed Job.is_failed retried
job_steps-le_example = job_steps-le JobStatus.queued retried

next_job_stage_allowed_example :
    (is_job_transition_allowed JobStatus.building (next_job_stage JobStatus.building) ≡ true)
    × ((executable_stage_index (next_job_stage JobStatus.building) ≡ ok 6)
        ⊎ ((JobStatus.building ≡ JobStatus.verifying)
            × (next_job_stage JobStatus.building ≡ JobStatus.completed)))
next_job_stage_allowed_example = next_job_stage_allowed JobStatus.building 5 refl

confirmed :
    Trace is_deployment_transition_allowed DeploymentRunStatus.funding
      DeploymentRunStatus.confirming
unfolding is_deployment_transition_allowed
confirmed =
    move DeploymentRunStatus.confirming (move DeploymentRunStatus.broadcasting start refl) refl

sent :
    Trace is_deployment_transition_allowed DeploymentRunStatus.queued
      DeploymentRunStatus.broadcasting
unfolding is_deployment_transition_allowed
sent =
    move DeploymentRunStatus.broadcasting
      (move DeploymentRunStatus.funding
        (move DeploymentRunStatus.prepared
          (move DeploymentRunStatus.simulating
            (move DeploymentRunStatus.preparing
              (move DeploymentRunStatus.checking_eligibility start refl) refl)
            refl)
          refl)
        refl)
      refl

broadcast_stays_example :
    (has_broadcast_side_effect DeploymentRunStatus.failed ≡ true)
    ⊎ (DeploymentRunStatus.failed ≡ DeploymentRunStatus.failed)
unfolding is_deployment_transition_allowed has_broadcast_side_effect
broadcast_stays_example =
    broadcast_stays DeploymentRunStatus.verifying DeploymentRunStatus.failed
      (move DeploymentRunStatus.failed start refl) refl

boundary_not_cancelled_example :
    (DeploymentRunStatus.confirming ≢ DeploymentRunStatus.cancelled)
    × ((u : DeploymentRunStatus)
        → in_boundary u ≡ (
            has_broadcast_side_effect u
            || (deployment_index u == deployment_index DeploymentRunStatus.funding)))
boundary_not_cancelled_example =
    boundary_not_cancelled DeploymentRunStatus.funding DeploymentRunStatus.confirming confirmed refl

broadcast_after_funding_example :
    Visits is_deployment_transition_allowed DeploymentRunStatus.funding sent
unfolding has_broadcast_side_effect
broadcast_after_funding_example = broadcast_after_funding sent refl

undone : Trace is_changeset_transition_allowed ChangeSetStatus.finalized ChangeSetStatus.rolled_back
unfolding is_changeset_transition_allowed
undone = move ChangeSetStatus.rolled_back start refl

changeset_published_example :
    ((ChangeSetStatus.finalized ≡ ChangeSetStatus.finalized)
        ⊎ (ChangeSetStatus.finalized ≡ ChangeSetStatus.rolled_back)
      → (ChangeSetStatus.rolled_back ≡ ChangeSetStatus.finalized)
        ⊎ (ChangeSetStatus.rolled_back ≡ ChangeSetStatus.rolled_back))
    × (steps is_changeset_transition_allowed undone
        ≤ 6 + 7 * retries is_changeset_transition_allowed ChangeSetLaws.is_failed undone)
changeset_published_example =
    ChangeSetLaws.changeset_published ChangeSetStatus.finalized ChangeSetStatus.rolled_back undone

skipped :
    Trace is_validation_transition_allowed ValidationRunStatus.queued ValidationRunStatus.testing
unfolding is_validation_transition_allowed
skipped = move ValidationRunStatus.testing (move ValidationRunStatus.preparing start refl) refl

validation_steps-le_example :
    steps is_validation_transition_allowed skipped
    ≤ 5 + 6 * retries is_validation_transition_allowed ValidationLaws.is_failed skipped
validation_steps-le_example = ValidationLaws.validation_steps-le ValidationRunStatus.testing skipped
