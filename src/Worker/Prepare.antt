-- ===== src/Worker/Prepare.antt =====
-- apps/worker/src/deployment-processor.ts: `processPrepareDeployment`.
use chain_port.Prelude.{
  String, Bool, true, false, not, ◌||◌, ◌&&◌, Option, none, some, or_else, List, [], ◌∷◌, find,
  length, if◌then◌else◌, ◌==◌, ◌===◌, Result, ok, err, pure, gets, lift, ◌>>=◌, ◌>>◌, when,
  try_catch,
}
use chain_port.Lifecycle.Deployment.{
  DeploymentRunStatus, queued, checking_eligibility, preparing, simulating, prepared, broadcasting,
  confirming, verifying, completed, cancelled, reconciliation_required,
}
use chain_port.Database.Models.{
  DeploymentRunRecord, DeploymentCandidateRecord, DeploymentCandidateConfidence,
  DeploymentFramework, DeploymentPreflightRecord,
}
use chain_port.Database.Deployments.{
  TransitionInput, from_to, same_status, CandidateInput, put_candidate, set_candidate,
  set_deployer_address, upsert_preflight, is_foundry,
}
use chain_port.Deployment.Models.{RepositoryRevision, RevisionType}
use chain_port.Deployment.Eligibility.{EligibilityInput, evaluate_eligibility}
use chain_port.Deployment.Target.{ChainDefinition, require_deployment_target, confirm_target_rpc}
use chain_port.Deployment.Errors.{Failure}
use chain_port.Deployment.Messages.{error_code, eligibility_message, policy_message}
use chain_port.Deployment.Policy.{policy_for, assert_preflight_policy}
use chain_port.Worker.Externals.{Externals, Action, ParsedPreflight}
use chain_port.Worker.Common.{
  transition_run, must_get, modify_rows, store_credential, run_command, fail, fail_now, code_of,
  materialize, upstream_of,
}
use chain_port.Worker.Confirm.{process_reconcile_deployment}

abbrev pub is_generated : RevisionType → Bool
is_generated RevisionType.generated = true
is_generated RevisionType.original = false

-- `actual`: the content hash of an original, the hash of the tree of a generated revision.
abbrev pub actual_hash : Externals → RepositoryRevision → Result Failure String
actual_hash x revision =
    if is_generated revision.revision_type then x.tree_hash else ok revision.content_hash

unfoldable pub persist_candidates :
    Externals → String → List CandidateInput → Action (List DeploymentCandidateRecord)
persist_candidates x revision_id [] = pure []
persist_candidates x revision_id (candidate ∷ candidates) = do
  rows ← gets (λ w. w.rows)
  let put =
      put_candidate (x.create_id (length rows.candidates))
        (record candidate { revision_id = revision_id }) rows.candidates
  modify_rows (λ r. record r { candidates = put.1 })
  rest ← persist_candidates x revision_id candidates
  pure (put.0 ∷ rest)

abbrev is_detected : DeploymentCandidateConfidence → Bool
is_detected DeploymentCandidateConfidence.detected = true
is_detected _ = false

abbrev has_id : Option String → DeploymentCandidateRecord → Bool
has_id none item = false
has_id (some id) item = item.id === id

abbrev or_first :
    Option DeploymentCandidateRecord
    → Option DeploymentCandidateRecord
    → Option DeploymentCandidateRecord
or_first none other = other
or_first (some item) other = some item

abbrev pub select_candidate :
    Option String → List DeploymentCandidateRecord → Option DeploymentCandidateRecord
select_candidate id persisted =
    or_first (find (has_id id) persisted)
      (find (λ item. is_foundry item.framework && is_detected item.confidence) persisted)

abbrev pub preflight_row : ParsedPreflight → DeploymentPreflightRecord
preflight_row parsed = record {
  transaction_count = parsed.transaction_count;
  estimated_gas = parsed.estimated_gas;
  estimated_cost = parsed.estimated_cost;
  warnings = parsed.warnings;
}

abbrev pub to_prepared : ParsedPreflight → TransitionInput
to_prepared parsed =
    record (from_to simulating prepared "preflight passed; waiting for explicit confirmation") {
      transaction_count = some parsed.transaction_count;
      estimated_gas = some parsed.estimated_gas;
      estimated_cost = some parsed.estimated_cost;
    }

-- The policy on the parsed output, and the transition to PREPARED.
unfoldable pub accept_preflight : Externals → ChainDefinition → ParsedPreflight → Action (Unit {0})
unfolding assert_preflight_policy policy_for policy_message
accept_preflight x target parsed =
    let policy = policy_for target x.overrides in
    let count = or_else parsed.transaction_count 1 in
    let gas = or_else parsed.estimated_gas 0 in
    elim (assert_preflight_policy policy count gas (0 ∷ [])) [
      | err e ↦ fail x simulating (error_code e) (some (policy_message policy count gas))
      | ok _ ↦
          modify_rows (upsert_preflight (preflight_row parsed))
          >> transition_run x (to_prepared parsed)
    ]

abbrev pub to_simulating : String → TransitionInput
to_simulating address = record (from_to preparing simulating "preflight started") {
  deployer_address = some (some address);
  framework = some (some DeploymentFramework.foundry);
}

-- The credential, the proxy, the sandbox and the simulation of the chosen script.
unfoldable pub simulate :
    Externals → ChainDefinition → String → DeploymentCandidateRecord → Action (Unit {0})
unfolding accept_preflight
simulate x target upstream selected = do
  modify_rows (set_candidate selected.id)
  store_credential x.issued
  modify_rows (set_deployer_address x.issued)
  _ ← lift x.proxy_started
  _ ← lift x.sandbox_prepared
  transition_run x (to_simulating x.issued)
  _ ← lift (x.safe_path selected.file_path)
  run_command (record {
    is_broadcast = false;
    script = selected.file_path;
    upstream = upstream;
    chain = target;
  })
  result ← lift x.execution
  if result.timed_out || not (result.exit_code == 0)
      then fail x simulating "PREFLIGHT_FAILED" (some (x.cut result.output))
      else accept_preflight x target (x.parse_preflight result.output)

unfoldable pub with_candidate :
    Externals → ChainDefinition → String → Option DeploymentCandidateRecord → Action (Unit {0})
unfolding simulate
with_candidate x target upstream none = fail x preparing "CANDIDATE_NOT_FOUND" none
with_candidate x target upstream (some selected) =
    if is_foundry selected.framework
    then simulate x target upstream selected
    else fail x preparing "UNSUPPORTED_FRAMEWORK" none

-- The body of the `try` block.
unfoldable pub prepare_workspace :
    Externals
    → DeploymentRunRecord
    → RepositoryRevision
    → ChainDefinition
    → String
    → Action (Unit {0})
unfolding with_candidate persist_candidates
prepare_workspace x run revision target upstream = do
  _ ← lift (materialize x revision.revision_type)
  actual ← lift (actual_hash x revision)
  if is_generated revision.revision_type && not (actual === revision.content_hash)
      then fail x preparing "REVISION_INTEGRITY_MISMATCH" none
      else do
        detected ← lift x.detected
        persisted ← persist_candidates x revision.id detected
        with_candidate x target upstream (select_candidate run.deployment_candidate_id persisted)

-- The part after the target is confirmed, or is not.
unfoldable pub prepare_reached :
    Externals
    → DeploymentRunRecord
    → RepositoryRevision
    → ChainDefinition
    → String
    → Result Failure (Unit {0})
    → Action (Unit {0})
unfolding prepare_workspace
prepare_reached x run revision target upstream (err e) =
    fail_now x (code_of e "CHAIN_ID_MISMATCH") (some e.message)
prepare_reached x run revision target upstream (ok _) = do
  latest ← must_get
  when (same_status latest.status checking_eligibility)
      (transition_run x (from_to checking_eligibility preparing "materialize started"))
  _ ← lift x.workspace
  try_catch (prepare_workspace x run revision target upstream)
      (λ e. fail_now x (code_of e "DEPLOYMENT_FAILED") (some e.message))

unfoldable pub prepare_target :
    Externals → DeploymentRunRecord → RepositoryRevision → Action (Unit {0})
unfolding prepare_reached
prepare_target x run revision = do
  target ← lift (require_deployment_target (x.chain run.target_testnet_key))
  upstream ← lift (upstream_of x target)
  prepare_reached x run revision target upstream (confirm_target_rpc target x.chain_id_reply)

abbrev pub lookup_id {ℓ} : {A : Type ℓ} → (String → Option A) → Option String → Option A
lookup_id f none = none
lookup_id f (some id) = f id

abbrev pub eligibility_input :
    Externals → DeploymentRunRecord → RepositoryRevision → EligibilityInput
eligibility_input x run revision = record {
  revision = revision;
  validation = x.validation run.validation_run_id;
  plan = lookup_id x.plan run.planned_migration_id;
  change_set = lookup_id x.change_set run.change_set_id;
}

unfoldable pub prepare_revision :
    Externals → DeploymentRunRecord → Option RepositoryRevision → Action (Unit {0})
unfolding prepare_target evaluate_eligibility eligibility_message
prepare_revision x run none = fail_now x "REVISION_NOT_FOUND" none
prepare_revision x run (some revision) =
    let input = eligibility_input x run revision in
    elim (evaluate_eligibility input) [
      | err e ↦ fail_now x (error_code e) (some (eligibility_message input e))
      | ok _ ↦ prepare_target x run revision
    ]

abbrev pub is_done : DeploymentRunStatus → Bool
is_done status =
    same_status status prepared || same_status status completed || same_status status cancelled

abbrev pub is_sent : DeploymentRunStatus → Bool
is_sent status =
    same_status status broadcasting
    || same_status status confirming
    || same_status status verifying
    || same_status status reconciliation_required

unfoldable pub process_prepare_deployment : Externals → Action (Unit {0})
unfolding prepare_revision process_reconcile_deployment
process_prepare_deployment x = do
  run ← must_get
  if is_done run.status
      then pure tt
      else if is_sent run.status
      then process_reconcile_deployment x
      else do
        when (same_status run.status queued)
            (transition_run x (from_to queued checking_eligibility "eligibility started"))
        prepare_revision x run (x.revision run.repository_revision_id)
