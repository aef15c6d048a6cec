-- ===== src/Deployment/Errors.antt =====
-- packages/shared/src/deployment-errors.ts and packages/deployment/src/errors.ts, and the error of
-- packages/shared/src/deployment-transitions.ts.
use chain_port.Prelude.{String, Option, none, some, or_else, List, [], ◌∷◌, lookup, template}
use chain_port.Lifecycle.Deployment.{
  DeploymentRunStatus, queued, checking_eligibility, preparing, simulating, prepared, funding,
  broadcasting, confirming, verifying, completed, failed, reconciliation_required, cancelled,
}

-- An `Error`, with the code that some have.
pub record Failure : Type 0 where
  pub code : Option String
  pub message : String

abbrev pub deployment_error_messages : List (String × String)
deployment_error_messages =
    ("INVALID_REQUEST", "Request is invalid")
    ∷ ("REVISION_NOT_FOUND", "Repository revision not found")
    ∷ ("REVISION_INTEGRITY_MISMATCH", "Revision content hash did not match the persisted hash")
    ∷ ("REVISION_NOT_ELIGIBLE", "This revision is not eligible for testnet deployment")
    ∷ ("VALIDATION_NOT_PASSED", "Latest applicable validation did not pass")
    ∷ (
      "VALIDATION_REVISION_MISMATCH",
      "Validation run does not belong to this revision content hash",
    )
    ∷ (
      "MIGRATION_PLAN_NOT_ELIGIBLE",
      "Migration plan still has blocked, unknown, manual, or unresolved review actions",
    )
    ∷ (
      "CHANGESET_NOT_FINALIZED",
      "Safe changes exist but the ChangeSet is not finalized and complete",
    )
    ∷ ("REVISION_PARTIAL", "Partial revisions cannot be deployed")
    ∷ ("UNSUPPORTED_REVISION", "Unsupported, failed, or unvalidated revisions cannot be deployed")
    ∷ ("MAINNET_DEPLOYMENT_FORBIDDEN", "Mainnet deployment is forbidden")
    ∷ ("CHAIN_ID_MISMATCH", "Target RPC chain ID does not match the registry")
    ∷ ("UNKNOWN_DEPLOYMENT_TARGET", "Deployment target is not in the ChainPort registry")
    ∷ ("DEPLOYMENT_TARGET_DISABLED", "Deployment is not enabled for this network")
    ∷ ("REGISTRY_TARGET_MISMATCH", "Requested target does not match the registry deployment target")
    ∷ ("TESTNET_FUNDING_UNAVAILABLE", "Testnet funding is unavailable")
    ∷ ("CANDIDATE_REQUIRED", "A deployment candidate must be selected")
    ∷ ("CANDIDATE_NOT_FOUND", "Deployment candidate was not found")
    ∷ ("UNSUPPORTED_FRAMEWORK", "This deployment framework is not supported by TESTNET_DEPLOY@1")
    ∷ ("ARBITRARY_COMMAND_REJECTED", "Arbitrary shell commands are not accepted")
    ∷ ("ARBITRARY_RPC_REJECTED", "Arbitrary RPC URLs are not accepted")
    ∷ ("PREFLIGHT_FAILED", "Deployment preflight/simulation failed")
    ∷ ("POLICY_LIMIT_EXCEEDED", "Deployment exceeded gas, value, or transaction policy limits")
    ∷ (
      "CREDENTIAL_LOST",
      "Disposable deployer credential is no longer available; prepare a new deployment",
    )
    ∷ ("BROADCAST_ALREADY_STARTED", "Broadcast already started; the script will not be rerun")
    ∷ ("RECONCILIATION_REQUIRED", "Deployment state is uncertain and requires reconciliation")
    ∷ ("SANDBOX_START_FAILED", "The isolated deployment sandbox could not be started")
    ∷ ("SANDBOX_POLICY_VIOLATION", "Sandbox policy would have been violated")
    ∷ ("EXECUTION_TIMEOUT", "Deployment exceeded the configured timeout")
    ∷ ("RPC_PROXY_FAILED", "The ChainPort RPC proxy could not be started or verified")
    ∷ ("CONFIRMATION_REQUIRED", "Explicit confirmation to deploy to the named testnet is required")
    ∷ ("CONFIRMATION_MISMATCH", "Confirmation target does not match the prepared testnet")
    ∷ ("DEPLOYMENT_NOT_FOUND", "Deployment run not found")
    ∷ ("DEPLOYMENT_NOT_ELIGIBLE", "Deployment run is not in a state that allows this operation")
    ∷ ("DEPLOYMENT_FAILED", "Deployment failed")
    ∷ []

unfoldable pub message_of : String → String
message_of code = or_else (lookup code deployment_error_messages) ""

-- `new DeploymentEngineError(code)`, and one with its own message.
abbrev pub engine_error : String → Failure
engine_error code = record { code = some code; message = message_of code }

abbrev pub engine_error_with : String → String → Failure
engine_error_with code message = record { code = some code; message = message }

abbrev pub deployment_status_name : DeploymentRunStatus → String
deployment_status_name queued = "QUEUED"
deployment_status_name checking_eligibility = "CHECKING_ELIGIBILITY"
deployment_status_name preparing = "PREPARING"
deployment_status_name simulating = "SIMULATING"
deployment_status_name prepared = "PREPARED"
deployment_status_name funding = "FUNDING"
deployment_status_name broadcasting = "BROADCASTING"
deployment_status_name confirming = "CONFIRMING"
deployment_status_name verifying = "VERIFYING"
deployment_status_name completed = "COMPLETED"
deployment_status_name failed = "FAILED"
deployment_status_name reconciliation_required = "RECONCILIATION_REQUIRED"
deployment_status_name cancelled = "CANCELLED"

-- `InvalidDeploymentTransitionError`
unfoldable pub transition_failure : DeploymentRunStatus → DeploymentRunStatus → Failure
transition_failure from to = record {
  code = none;
  message = template (
      "invalid deployment transition "
      ∷ deployment_status_name from
      ∷ " → "
      ∷ deployment_status_name to
      ∷ []);
}
