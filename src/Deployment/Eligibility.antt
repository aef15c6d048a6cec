-- ===== src/Deployment/Eligibility.antt =====
-- packages/deployment/src/eligibility.ts
pub mod Laws
use chain_port.Prelude.{
  ℕ, String, Bool, true, false, not, ◌&&◌, ◌||◌, Option, none, some, if◌then◌else◌, ltb, ◌==◌,
  ◌===◌, Result, ok, err,
}
use chain_port.Shared.Enums.{MigrationPlanOutcome}
use chain_port.Lifecycle.ChangeSet.{ChangeSetStatus}
use chain_port.Lifecycle.Validation.{ValidationRunStatus}
use chain_port.Deployment.Models.{
  RevisionType, RevisionCompleteness, ValidationOutcome, RepositoryRevision, ValidationRunRecord,
  PlannedMigration, ChangeSetRecord,
}

-- The codes of a `DeploymentEngineError` that the check and the policy throw.
pub data DeploymentError : Type 0 where
  revision_partial validation_not_passed validation_revision_mismatch migration_plan_not_eligible
        revision_not_eligible unsupported_revision changeset_not_finalized policy_limit_exceeded :
      DeploymentError

pub record EligibilityInput : Type 0 where
  pub revision : RepositoryRevision
  pub validation : Option ValidationRunRecord
  pub plan : Option PlannedMigration
  pub change_set : Option ChangeSetRecord

pub record EligibilityResult : Type 0 where
  pub validation : ValidationRunRecord
  pub plan : PlannedMigration
  pub change_set : Option ChangeSetRecord

abbrev pub is_partial : Option RevisionCompleteness → Bool
is_partial (some RevisionCompleteness.partial) = true
is_partial _ = false

abbrev pub is_complete : Option RevisionCompleteness → Bool
is_complete (some RevisionCompleteness.complete) = true
is_complete _ = false

abbrev pub is_passed : Option ValidationOutcome → Bool
is_passed (some ValidationOutcome.passed) = true
is_passed _ = false

abbrev pub is_completed : ValidationRunStatus → Bool
is_completed ValidationRunStatus.completed = true
is_completed _ = false

abbrev pub is_finalized : ChangeSetStatus → Bool
is_finalized ChangeSetStatus.finalized = true
is_finalized _ = false

abbrev pub is_ready_to_apply : MigrationPlanOutcome → Bool
is_ready_to_apply MigrationPlanOutcome.ready_to_apply = true
is_ready_to_apply _ = false

-- `revision.changeSetId === changeSet.id`, with `null` as `none`.
abbrev pub is_id : Option String → String → Bool
is_id none id = false
is_id (some s) id = s === id

-- The validation's checks: the error that they throw first.
abbrev pub validation_error : RepositoryRevision → ValidationRunRecord → Option DeploymentError
validation_error revision validation =
    if not (validation.repository_revision_id === revision.id)
    then some DeploymentError.validation_revision_mismatch
    else if not (validation.revision_content_hash === revision.content_hash)
    then some DeploymentError.validation_revision_mismatch
    else if not (is_passed validation.outcome) || not (is_completed validation.status)
    then some DeploymentError.validation_not_passed
    else none

abbrev pub has_unsafe_actions : PlannedMigration → Bool
has_unsafe_actions plan =
    ltb 0 plan.blocked_action_count
    || ltb 0 plan.unknown_action_count
    || ltb 0 plan.manual_action_count
    || ltb 0 plan.review_action_count

-- The checks of the change set of a generated revision whose plan has safe actions.
abbrev pub change_set_error : RepositoryRevision → Option ChangeSetRecord → Option DeploymentError
change_set_error revision none = some DeploymentError.changeset_not_finalized
change_set_error revision (some change_set) =
    if not (is_finalized change_set.status) || not (is_complete change_set.completeness)
    then some DeploymentError.changeset_not_finalized
    else if not (is_id revision.change_set_id change_set.id)
    then some DeploymentError.revision_not_eligible
    else none

-- The checks of the plan, for a revision of either type.
abbrev pub plan_error :
    RepositoryRevision → PlannedMigration → Option ChangeSetRecord → Option DeploymentError
plan_error revision plan change_set =
    if has_unsafe_actions plan
    then some DeploymentError.migration_plan_not_eligible
    else elim revision.revision_type [
      | RevisionType.original ↦
          if not (plan.total_actions == 0) || not (is_ready_to_apply plan.outcome)
          then some DeploymentError.revision_not_eligible
          else none
      | RevisionType.generated ↦
          if ltb 0 plan.safe_action_count
          then change_set_error revision change_set
          else if not (plan.total_actions == 0)
          then some DeploymentError.migration_plan_not_eligible
          else none
    ]

-- `changeSet` of the result: `null` for an original revision.
abbrev pub kept_change_set : RevisionType → Option ChangeSetRecord → Option ChangeSetRecord
kept_change_set RevisionType.original change_set = none
kept_change_set RevisionType.generated change_set = change_set

abbrev pub throw_or {ℓ} : {A : Type ℓ} → Option DeploymentError → A → Result DeploymentError A
throw_or none a = ok a
throw_or (some e) a = err e

abbrev pub evaluate_plan :
    EligibilityInput
    → ValidationRunRecord
    → Option PlannedMigration
    → Result DeploymentError EligibilityResult
evaluate_plan input validation none = err DeploymentError.migration_plan_not_eligible
evaluate_plan input validation (some plan) =
    throw_or (plan_error input.revision plan input.change_set) (record {
      validation = validation;
      plan = plan;
      change_set = kept_change_set input.revision.revision_type input.change_set;
    })

abbrev pub evaluate_validation :
    EligibilityInput → Option ValidationRunRecord → Result DeploymentError EligibilityResult
evaluate_validation input none = err DeploymentError.validation_not_passed
evaluate_validation input (some validation) = elim (validation_error input.revision validation) [
  | some e ↦ err e
  | none ↦ evaluate_plan input validation input.plan
]

unfoldable pub evaluate_eligibility : EligibilityInput → Result DeploymentError EligibilityResult
evaluate_eligibility input =
    if is_partial input.revision.completeness
    then err DeploymentError.revision_partial
    else evaluate_validation input input.validation
