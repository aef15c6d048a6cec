-- ===== src/Deployment/Messages.antt =====
-- The messages of the errors that packages/deployment/src/eligibility.ts and policy.ts throw.
use chain_port.Prelude.{
  ℕ, String, Option, none, some, [], ◌∷◌, if◌then◌else◌, ltb, template, decimal,
}
use chain_port.Deployment.Models.{RevisionType}
use chain_port.Deployment.Policy.{DeploymentPolicy}
use chain_port.Deployment.Eligibility.{DeploymentError, EligibilityInput}
use chain_port.Deployment.Errors.{message_of}

abbrev pub error_code : DeploymentError → String
error_code DeploymentError.revision_partial = "REVISION_PARTIAL"
error_code DeploymentError.validation_not_passed = "VALIDATION_NOT_PASSED"
error_code DeploymentError.validation_revision_mismatch = "VALIDATION_REVISION_MISMATCH"
error_code DeploymentError.migration_plan_not_eligible = "MIGRATION_PLAN_NOT_ELIGIBLE"
error_code DeploymentError.revision_not_eligible = "REVISION_NOT_ELIGIBLE"
error_code DeploymentError.unsupported_revision = "UNSUPPORTED_REVISION"
error_code DeploymentError.changeset_not_finalized = "CHANGESET_NOT_FINALIZED"
error_code DeploymentError.policy_limit_exceeded = "POLICY_LIMIT_EXCEEDED"

abbrev if_missing {ℓ} : {A : Type ℓ} → Option A → String → String → String
if_missing none missing other = missing
if_missing (some a) missing other = other

abbrev not_eligible : RevisionType → String
not_eligible RevisionType.original =
    "An original revision is eligible only when the plan has zero actions and is READY_TO_APPLY"
not_eligible RevisionType.generated =
    "Generated revision is not the finalized revision for this migration flow"

-- The message of an error that `evaluateEligibility` throws.
unfoldable pub eligibility_message : EligibilityInput → DeploymentError → String
eligibility_message input DeploymentError.validation_not_passed =
    if_missing input.validation "Revision has not been validated"
      (message_of "VALIDATION_NOT_PASSED")
eligibility_message input DeploymentError.migration_plan_not_eligible =
    if_missing input.plan "A completed migration plan is required"
      (message_of "MIGRATION_PLAN_NOT_ELIGIBLE")
eligibility_message input DeploymentError.revision_not_eligible =
    not_eligible input.revision.revision_type
eligibility_message input error = message_of (error_code error)

-- The message of the error that `assertPreflightPolicy` throws.
unfoldable pub policy_message : DeploymentPolicy → ℕ → ℕ → String
policy_message policy transaction_count estimated_gas =
    if ltb policy.max_tx_count transaction_count
    then template (
        "transaction count "
        ∷ decimal transaction_count
        ∷ " exceeds "
        ∷ decimal policy.max_tx_count
        ∷ [])
    else if ltb policy.max_gas estimated_gas
    then template
        ("estimated gas " ∷ decimal estimated_gas ∷ " exceeds " ∷ decimal policy.max_gas ∷ [])
    else "deployment transaction value exceeds the testnet policy"
