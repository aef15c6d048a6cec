-- ===== src/Deployment/Eligibility/Laws.antt =====
-- Which runs are eligible for a deployment.
use chain_port.Prelude.{
  ◌<◌, ◌≡◌, ◌↔◌, ◌⊎◌, refl, subst, String, true, false, Option, none, some, arith, eq_iff, ok,
  Option-cases, inl, inr,
}
use chain_port.Shared.Enums.{MigrationPlanOutcome}
use chain_port.Lifecycle.ChangeSet.{ChangeSetStatus}
use chain_port.Lifecycle.Validation.{ValidationRunStatus}
use chain_port.Deployment.Models.{
  RevisionType, RevisionCompleteness, ValidationOutcome, RepositoryRevision, ValidationRunRecord,
  PlannedMigration, ChangeSetRecord,
}
use chain_port.Deployment.Eligibility.{
  EligibilityInput, EligibilityResult, validation_error, change_set_error, plan_error,
  kept_change_set, evaluate_eligibility, is_passed, is_complete, is_id, is_partial,
}

-- A validation that passed, of just this content.
pub IsValidated : RepositoryRevision → ValidationRunRecord → Type 0
IsValidated revision validation =
    (validation.repository_revision_id ≡ revision.id)
    × (validation.revision_content_hash ≡ revision.content_hash)
    × (validation.outcome ≡ some ValidationOutcome.passed)
    × (validation.status ≡ ValidationRunStatus.completed)

-- A finalized change set with all its changes, which made the revision.
pub IsFinalizedFor : RepositoryRevision → ChangeSetRecord → Type 0
IsFinalizedFor revision change_set =
    (change_set.status ≡ ChangeSetStatus.finalized)
    × (change_set.completeness ≡ some RevisionCompleteness.complete)
    × (revision.change_set_id ≡ some change_set.id)

-- A plan whose actions are all safe and, by the type of the revision, none or applied.
pub IsApplied : RepositoryRevision → PlannedMigration → Option ChangeSetRecord → Type 0
IsApplied revision plan change_set =
    (plan.blocked_action_count ≡ 0)
    × (plan.unknown_action_count ≡ 0)
    × (plan.manual_action_count ≡ 0)
    × (plan.review_action_count ≡ 0)
    × (((revision.revision_type ≡ RevisionType.original)
          × (plan.total_actions ≡ 0)
          × (plan.outcome ≡ MigrationPlanOutcome.ready_to_apply))
        ⊎ ((revision.revision_type ≡ RevisionType.generated)
            × (plan.safe_action_count ≡ 0)
            × (plan.total_actions ≡ 0))
        ⊎ ((revision.revision_type ≡ RevisionType.generated)
            × (0 < plan.safe_action_count)
            × ((c : ChangeSetRecord) × (change_set ≡ some c) × IsFinalizedFor revision c)))

is_passed_iff :
    (o : Option ValidationOutcome) → (is_passed o ≡ true) ↔ (o ≡ some ValidationOutcome.passed)
is_passed_iff o = ground arith

is_complete_iff :
    (o : Option RevisionCompleteness)
    → (is_complete o ≡ true) ↔ (o ≡ some RevisionCompleteness.complete)
is_complete_iff o = ground arith

is_id_iff : (o : Option String) (id : String) → (is_id o id ≡ true) ↔ (o ≡ some id)
is_id_iff none id = ground arith
is_id_iff (some s) id = ground (arith, eq_iff s id)

validation_error_iff :
    (revision : RepositoryRevision) (validation : ValidationRunRecord)
    → (validation_error revision validation ≡ none) ↔ IsValidated revision validation
unfolding IsValidated
validation_error_iff revision validation = ground (
  arith,
  eq_iff validation.repository_revision_id revision.id,
  eq_iff validation.revision_content_hash revision.content_hash,
  is_passed_iff validation.outcome,
)

change_set_error_iff :
    (revision : RepositoryRevision) (c : ChangeSetRecord)
    → (change_set_error revision (some c) ≡ none) ↔ IsFinalizedFor revision c
unfolding IsFinalizedFor
change_set_error_iff revision c =
    ground (arith, is_complete_iff c.completeness, is_id_iff revision.change_set_id c.id)

change_set_error-some :
    (revision : RepositoryRevision) (o : Option ChangeSetRecord)
    → (change_set_error revision o ≡ none)
      ↔ ((c : ChangeSetRecord) × (o ≡ some c) × IsFinalizedFor revision c)
change_set_error-some revision none =
    (λ h. absurd (ground arith), λ (c, e, f). absurd (ground arith))
change_set_error-some revision (some c) = (
  λ h. (c, refl, (change_set_error_iff revision c).0 h),
  λ (d, e, f).
      let same : d ≡ c = cc e in
      (change_set_error_iff revision c).1 (subst (λ x. IsFinalizedFor revision x) same f),
)

plan_error_iff :
    (revision : RepositoryRevision) (plan : PlannedMigration) (change_set : Option ChangeSetRecord)
    → (plan_error revision plan change_set ≡ none) ↔ IsApplied revision plan change_set
unfolding IsApplied
plan_error_iff revision plan change_set = ground (arith, change_set_error-some revision change_set)

-- The run that a result describes: the input's validation, plan and change set, all of them in order.
pub IsEligible : EligibilityInput → EligibilityResult → Type 0
IsEligible input result =
    (is_partial input.revision.completeness ≡ false)
    × (input.validation ≡ some result.validation)
    × IsValidated input.revision result.validation
    × (input.plan ≡ some result.plan)
    × IsApplied input.revision result.plan input.change_set
    × (result.change_set ≡ kept_change_set input.revision.revision_type input.change_set)

evaluate_eligibility_sound :
    (input : EligibilityInput) (result : EligibilityResult)
    → evaluate_eligibility input ≡ ok result
    → IsEligible input result
unfolding evaluate_eligibility IsEligible
evaluate_eligibility_sound input result h = elim (Option-cases input.validation) [
  | inl e ↦ absurd (ground (arith, e))
  | inr (v, e) ↦ elim (Option-cases input.plan) [
    | inl f ↦ absurd (ground (arith, e, f))
    | inr (p, f) ↦ ground (
      arith,
      e,
      f,
      validation_error_iff input.revision v,
      plan_error_iff input.revision p input.change_set,
    )
  ]
]

evaluate_eligibility_complete :
    (input : EligibilityInput) (result : EligibilityResult)
    → IsEligible input result
    → evaluate_eligibility input ≡ ok result
unfolding evaluate_eligibility IsEligible
evaluate_eligibility_complete input result h = ground (
  arith,
  h,
  validation_error_iff input.revision result.validation,
  plan_error_iff input.revision result.plan input.change_set,
)

-- A result is returned exactly if it describes the input and the input is in order.
pub evaluate_eligibility_iff :
    (input : EligibilityInput) (result : EligibilityResult)
    → (evaluate_eligibility input ≡ ok result) ↔ IsEligible input result
evaluate_eligibility_iff input result =
    (evaluate_eligibility_sound input result, evaluate_eligibility_complete input result)
