-- ===== src/Worker/Broadcast.antt =====
-- apps/worker/src/deployment-processor.ts: `processBroadcastDeployment`, and the funding of
-- packages/deployment/src/funder.ts.
use chain_port.Prelude.{
  template, ℕ, ◌+◌, String, Bool, true, false, not, ◌||◌, ◌&&◌, Option, none, some, List, [], ◌∷◌,
  find, length, if◌then◌else◌, ◌==◌, ◌===◌, Result, ok, err, pure, throw, gets, lift, ◌>>=◌, ◌>>◌,
  when, try_catch, try_finally,
}
use chain_port.Lifecycle.Deployment.{
  prepared, funding, broadcasting, confirming, completed, cancelled,
}
use chain_port.Database.Models.{
  Rows, DeploymentRunRecord, DeploymentCandidateRecord, DeploymentTransactionRecord,
  DeploymentTransactionStatus,
}
use chain_port.Database.Deployments.{TransitionInput, from_to, same_status, is_foundry}
use chain_port.Database.Transactions.{record_transaction}
use chain_port.Deployment.Models.{RepositoryRevision}
use chain_port.Deployment.Target.{ChainDefinition, require_deployment_target, confirm_target_rpc}
use chain_port.Deployment.Errors.{Failure, engine_error, engine_error_with}
use chain_port.Deployment.Policy.{policy_for}
use chain_port.Worker.Externals.{Externals, World, Action, SandboxResult, BroadcastTransaction}
use chain_port.Worker.Common.{
  transition_run, must_get, modify_rows, run_command, fail, code_of, plain_error, materialize,
  upstream_of,
}
use chain_port.Worker.Confirm.{process_reconcile_deployment, confirm_and_verify, to_reconcile}
use chain_port.Worker.Prepare.{is_sent}

-- `fundDeployer`: `fund_reply` is what becomes of the call of anvil or of the transfer.
abbrev has_key : (String → Bool) → Option String → Bool
has_key is_blank none = false
has_key is_blank (some key) = not (is_blank key)

abbrev pub fund_deployer : Externals → ChainDefinition → ℕ → Result Failure (Unit {0})
fund_deployer x chain amount_wei =
    if amount_wei == 0
    then err (engine_error_with "TESTNET_FUNDING_UNAVAILABLE" "funding amount must be positive")
    else if chain.key === "anvil"
    then x.fund_reply
    else if has_key x.is_blank x.funder_private_key
    then x.fund_reply
    else err (engine_error "TESTNET_FUNDING_UNAVAILABLE")

-- A row of a hash that the proxy's journal names.
abbrev pub journaled_row : String → ℕ → String → DeploymentTransactionRecord
journaled_row deployer sequence hash = record {
  sequence = sequence;
  hash = hash;
  nonce = none;
  from_address = some deployer;
  to_address = none;
  value = "0";
  gas_limit = none;
  status = DeploymentTransactionStatus.submitted;
  block_number = none;
  contract_address = none;
  confirmed_at = none;
}

unfoldable pub record_hashes : String → ℕ → List String → Action (Unit {0})
record_hashes deployer sequence [] = pure tt
record_hashes deployer sequence (hash ∷ hashes) =
    modify_rows (record_transaction (journaled_row deployer (sequence + 1) hash))
    >> record_hashes deployer (sequence + 1) hashes

abbrev pub artifact_row : ℕ → BroadcastTransaction → String → DeploymentTransactionRecord
artifact_row index tx value = record {
  sequence = index + 1;
  hash = tx.hash;
  nonce = tx.nonce;
  from_address = tx.from_address;
  to_address = tx.to_address;
  value = value;
  gas_limit = tx.gas_limit;
  status = DeploymentTransactionStatus.submitted;
  block_number = none;
  contract_address = tx.contract_address;
  confirmed_at = none;
}

unfoldable pub record_artifacts : Externals → ℕ → List BroadcastTransaction → Action (Unit {0})
record_artifacts x index [] = pure tt
record_artifacts x index (tx ∷ txs) = do
  value ← lift (x.whole_number tx.value)
  modify_rows (record_transaction (artifact_row index tx value))
  record_artifacts x (index + 1) txs

abbrev pub to_confirming : Externals → TransitionInput
to_confirming x = record (from_to broadcasting confirming "waiting for receipts") {
  rpc_audit_json = some x.journal_audit;
}

-- What follows the recording of the transactions.
unfoldable pub after_recording :
    Externals
    → ChainDefinition
    → String
    → SandboxResult
    → List BroadcastTransaction
    → Action (Unit {0})
after_recording x target deployer result artifacts =
    if result.timed_out
    then transition_run x
        (to_reconcile broadcasting "broadcast timed out after possible side effects")
    else if not (result.exit_code == 0) && (length x.journal_hashes == 0) && (length artifacts == 0)
    then fail x broadcasting "DEPLOYMENT_FAILED" (some (x.cut result.output))
    else do transition_run x (to_confirming x); confirm_and_verify x target deployer none

-- The `try` block from `broadcastBegan = true` on.
unfoldable pub broadcast_script :
    Externals → ChainDefinition → String → String → DeploymentCandidateRecord → Action (Unit {0})
unfolding record_hashes record_artifacts after_recording
broadcast_script x target upstream deployer candidate = do
  _ ← lift (x.safe_path candidate.file_path)
  run_command (record {
    is_broadcast = true;
    script = candidate.file_path;
    upstream = upstream;
    chain = target;
  })
  result ← lift x.execution
  record_hashes deployer 0 x.journal_hashes
  artifacts ← lift x.artifacts
  record_artifacts x 0 artifacts
  after_recording x target deployer result artifacts

-- The `try` block before it.
unfoldable pub start_broadcast : Externals → RepositoryRevision → Action (Unit {0})
start_broadcast x revision = do
  _ ← lift (materialize x revision.revision_type)
  _ ← lift x.proxy_started
  _ ← lift x.sandbox_prepared
  transition_run x (from_to funding broadcasting "broadcast started")

-- The `catch` block: before the broadcast began, and after.
unfoldable pub not_begun : Externals → Failure → Action (Unit {0})
not_begun x error = do
  run ← must_get
  fail x run.status (code_of error "DEPLOYMENT_FAILED") (some error.message)

unfoldable pub begun : Externals → Failure → Action (Unit {0})
begun x error = do run ← must_get; transition_run x (to_reconcile run.status error.message)

abbrev pub catch_unless : Externals → Action Bool → Action Bool
catch_unless x m = try_catch m (λ e. not_begun x e >> pure false)

abbrev pub destroy_credential : World → World
destroy_credential w = record w { credential = none }

-- `true` when the broadcast has begun, and the second part is left to do.
unfoldable pub broadcast_workspace :
    Externals
    → ChainDefinition
    → String
    → String
    → DeploymentCandidateRecord
    → RepositoryRevision
    → Action (Unit {0})
unfolding start_broadcast broadcast_script not_begun begun
broadcast_workspace x target upstream deployer candidate revision =
    try_finally
      (do
        is_begun ← catch_unless x (start_broadcast x revision >> pure true)
        when is_begun (try_catch (broadcast_script x target upstream deployer candidate) (begun x)))
      destroy_credential

unfoldable pub with_revision :
    Externals
    → ChainDefinition
    → String
    → String
    → DeploymentCandidateRecord
    → Option RepositoryRevision
    → Action (Unit {0})
unfolding broadcast_workspace
with_revision x target upstream deployer candidate none = fail x funding "REVISION_NOT_FOUND" none
with_revision x target upstream deployer candidate (some revision) = do
  _ ← lift x.workspace
  broadcast_workspace x target upstream deployer candidate revision

abbrev pub candidate_of : DeploymentRunRecord → Rows → Option DeploymentCandidateRecord
candidate_of run rows = elim run.deployment_candidate_id [
  | none ↦ none
  | some id ↦ find (λ c. c.id === id) rows.candidates
]

unfoldable pub with_row :
    Externals
    → DeploymentRunRecord
    → ChainDefinition
    → String
    → String
    → Option DeploymentCandidateRecord
    → Action (Unit {0})
unfolding with_revision
with_row x run target upstream deployer none = fail x funding "CANDIDATE_NOT_FOUND" none
with_row x run target upstream deployer (some candidate) =
    if is_foundry candidate.framework
    then with_revision x target upstream deployer candidate (x.revision run.repository_revision_id)
    else fail x funding "CANDIDATE_NOT_FOUND" none

-- The part after the funding succeeded, or did not.
unfoldable pub funded :
    Externals
    → DeploymentRunRecord
    → ChainDefinition
    → String
    → String
    → Result Failure (Unit {0})
    → Action (Unit {0})
unfolding with_row
funded x run target upstream deployer (err e) =
    fail x funding (code_of e "TESTNET_FUNDING_UNAVAILABLE") (some e.message)
funded x run target upstream deployer (ok _) = do
  rows ← gets (λ w. w.rows)
  with_row x run target upstream deployer (candidate_of run rows)

unfoldable pub with_credential : Externals → DeploymentRunRecord → Option String → Action (Unit {0})
unfolding funded
with_credential x run none = fail x run.status "CREDENTIAL_LOST" none
with_credential x run (some deployer) = do
  target ← lift (require_deployment_target (x.chain run.target_testnet_key))
  upstream ← lift (upstream_of x target)
  _ ← lift (confirm_target_rpc target x.chain_id_reply)
  when (same_status run.status prepared)
      (transition_run x (from_to prepared funding "funding disposable deployer"))
  funded x run target upstream deployer
      (fund_deployer x target (policy_for target x.overrides).max_funding_wei)

unfoldable pub process_broadcast_deployment : Externals → Action (Unit {0})
unfolding with_credential process_reconcile_deployment policy_for template
process_broadcast_deployment x = do
  run ← must_get
  if same_status run.status completed || same_status run.status cancelled
      then pure tt
      else if is_sent run.status
      then process_reconcile_deployment x
      else if not (same_status run.status prepared) && not (same_status run.status funding)
      then throw
          (plain_error (template ("deployment " ∷ x.deployment_id ∷ " is not prepared" ∷ [])))
      else do credential ← gets (λ w. w.credential); with_credential x run credential
