-- ===== src/Worker/Confirm.antt =====
-- apps/worker/src/deployment-processor.ts: `confirmAndVerify` and `processReconcileDeployment`.
use chain_port.Prelude.{
  ℕ, String, Bool, true, false, not, ◌||◌, ◌&&◌, Option, none, some, or_else, List, [], ◌∷◌, any,
  find, length, if◌then◌else◌, ◌==◌, ◌===◌, Result, ok, err, pure, gets, lift, ◌>>=◌, ◌>>◌, when,
  for_each, try_catch,
}
use chain_port.Lifecycle.Deployment.{
  DeploymentRunStatus, broadcasting, confirming, verifying, completed, reconciliation_required,
}
use chain_port.Database.Models.{
  DeploymentRunRecord, DeploymentTransactionRecord, DeploymentTransactionStatus,
  DeploymentContractRecord, DeploymentCheckRecord, DeploymentCheckStatus,
  DeploymentSourceVerificationStatus,
}
use chain_port.Database.Deployments.{TransitionInput, from_to, same_status, replace_checks}
use chain_port.Database.Transactions.{
  record_transaction, upsert_contract, list_transactions, or_existing,
}
use chain_port.Deployment.Target.{ChainDefinition, require_deployment_target, confirm_target_rpc}
use chain_port.Deployment.Errors.{Failure}
use chain_port.Deployment.Checks.{
  is_confirmed, has_code, run_post_deploy_checks, verify_contract_source,
}
use chain_port.Worker.Externals.{Externals, Action, ReceiptSnapshot, NamedContract}
use chain_port.Worker.Common.{transition_run, must_get, modify_rows, upstream_of}

-- A transition to RECONCILIATION_REQUIRED, with its error code.
abbrev pub to_reconcile : DeploymentRunStatus → String → TransitionInput
to_reconcile from reason = record (from_to from reconciliation_required reason) {
  error_code = some (some "RECONCILIATION_REQUIRED");
}

abbrev pub is_unconfirmed : DeploymentTransactionStatus → Bool
is_unconfirmed DeploymentTransactionStatus.unknown = true
is_unconfirmed DeploymentTransactionStatus.pending = true
is_unconfirmed _ = false

abbrev pub confirmed_row :
    Externals → DeploymentTransactionRecord → ReceiptSnapshot → DeploymentTransactionRecord
confirmed_row x tx receipt = record tx {
  from_address = or_existing receipt.from_address tx.from_address;
  to_address = or_existing receipt.to_address tx.to_address;
  status = receipt.status;
  block_number = receipt.block_number;
  contract_address = receipt.contract_address;
  confirmed_at = if is_confirmed receipt.status then some x.now else none;
}

-- The contract that a receipt names, unless it is `0x`.
abbrev pub contract_of : Option String → Option String
contract_of none = none
contract_of (some address) = if address === "0x" then none else some address

abbrev pub contract_row :
    String
    → DeploymentTransactionRecord
    → ReceiptSnapshot
    → String
    → String
    → DeploymentContractRecord
contract_row deployer tx receipt address code = record {
  address = address;
  transaction_hash = tx.hash;
  block_number = receipt.block_number;
  deployer = some deployer;
  contract_name = none;
  source_path = none;
  bytecode_present = has_code code;
  receipt_status = some receipt.status;
  verification_status = DeploymentSourceVerificationStatus.skipped;
  verification_message = none;
}

unfoldable pub record_contract :
    Externals
    → String
    → DeploymentTransactionRecord
    → ReceiptSnapshot
    → Option String
    → Action (Unit {0})
record_contract x deployer tx receipt none = pure tt
record_contract x deployer tx receipt (some address) = do
  code ← lift (x.code_at address)
  modify_rows (upsert_contract x.to_lower_case (contract_row deployer tx receipt address code))

-- The loop over the transactions; the result is `unknown`.
unfoldable pub confirm_all : Externals → String → List DeploymentTransactionRecord → Action Bool
unfolding record_contract
confirm_all x deployer [] = pure false
confirm_all x deployer (tx ∷ txs) = do
  receipt ← lift (x.receipt tx.hash)
  modify_rows (record_transaction (confirmed_row x tx receipt))
  record_contract x deployer tx receipt (contract_of receipt.contract_address)
  rest ← confirm_all x deployer txs
  pure (is_unconfirmed receipt.status || rest)

abbrev is_named : Externals → DeploymentContractRecord → NamedContract → Bool
is_named x contract item = x.to_lower_case item.address === x.to_lower_case contract.address

abbrev named_field {ℓ} :
    {A : Type ℓ} → Option NamedContract → (NamedContract → Option A) → Option A → Option A
named_field none field existing = existing
named_field (some item) field existing = or_existing (field item) existing

abbrev pub verified_row :
    Externals → ChainDefinition → DeploymentContractRecord → DeploymentContractRecord
verified_row x chain contract =
    let named = find (is_named x contract) x.named_contracts in
    let source = verify_contract_source chain x.explorer_api_key x.is_blank in
    record contract {
      contract_name = named_field named (λ item. item.contract_name) contract.contract_name;
      source_path = named_field named (λ item. item.source_path) contract.source_path;
      verification_status = source.status;
      verification_message = some source.message;
    }

abbrev pub verify_contracts : Externals → ChainDefinition → Action (Unit {0})
verify_contracts x chain = do
  contracts ← gets (λ w. w.rows.contracts)
  for_each contracts (λ c. modify_rows (upsert_contract x.to_lower_case (verified_row x chain c)))

abbrev pub is_failed_check : DeploymentCheckRecord → Bool
is_failed_check check = elim check.status [ DeploymentCheckStatus.failed ↦ true | _ ↦ false ]

abbrev pub final_transition : List DeploymentCheckRecord → TransitionInput
final_transition checks =
    if any is_failed_check checks
    then record (from_to verifying DeploymentRunStatus.failed "post-deploy checks failed") {
      error_code = some (some "DEPLOYMENT_FAILED");
    }
    else record (from_to verifying completed "deployment verified") { error_code = some none }

-- The transitions after the receipts, up to VERIFYING.
unfoldable pub advance : Externals → Action (Unit {0})
advance x = do
  current ← must_get
  when (same_status current.status broadcasting)
      (transition_run x (from_to broadcasting confirming "receipts fetched during reconciliation"))
  after_confirm ← must_get
  if same_status after_confirm.status confirming
      then transition_run x (from_to confirming verifying "receipts confirmed")
      else when (same_status after_confirm.status reconciliation_required) (
          transition_run x
            (from_to reconciliation_required verifying "reconciliation reconstructed receipts"))

-- The checks, and the last transition.
unfoldable pub finish_checks : Externals → ChainDefinition → String → Option ℕ → Action (Unit {0})
finish_checks x chain deployer expected = do
  rows ← gets (λ w. w.rows)
  checks ← lift (
      run_post_deploy_checks x.chain_id x.code_at x.nonce chain.chain_id rows.contracts expected
        (list_transactions rows.transactions))
  modify_rows (replace_checks checks)
  transition_run x (final_transition checks)

-- The branch of receipts that could not be reconstructed.
unfoldable pub give_up : Externals → Option DeploymentRunStatus → Action (Unit {0})
give_up x from = do
  run ← must_get
  when (not (same_status run.status reconciliation_required)) (
      transition_run x
        (to_reconcile (or_else from run.status) "one or more receipts could not be reconstructed"))

unfoldable pub confirm_and_verify :
    Externals → ChainDefinition → String → Option DeploymentRunStatus → Action (Unit {0})
unfolding confirm_all advance finish_checks give_up
confirm_and_verify x chain deployer from = do
  rows ← gets (λ w. w.rows)
  unknown ← confirm_all x deployer (list_transactions rows.transactions)
  if unknown then give_up x from else do
    current ← must_get
    advance x
    verify_contracts x chain
    finish_checks x chain deployer current.transaction_count

abbrev pub no_address : String
no_address = "0x0000000000000000000000000000000000000000"

-- The handler of an error of `confirmAndVerify`.
unfoldable pub reconcile_error : Externals → Failure → Action (Unit {0})
reconcile_error x error = do
  current ← must_get
  when
      (not (same_status current.status reconciliation_required)
        && not (same_status current.status completed))
      (transition_run x (to_reconcile current.status error.message))

-- The part after the target is reached, or is not.
unfoldable pub reconcile_reached :
    Externals
    → DeploymentRunRecord
    → ChainDefinition
    → Result Failure (Unit {0})
    → Action (Unit {0})
unfolding reconcile_error
reconcile_reached x run target (err _) =
    when (not (same_status run.status reconciliation_required)) (
      transition_run x (to_reconcile run.status "unable to reach target RPC during reconciliation"))
reconcile_reached x run target (ok _) =
    try_catch
      (confirm_and_verify x target (or_else run.deployer_address no_address) (some run.status))
      (reconcile_error x)

unfoldable pub reconcile_transactions : Externals → DeploymentRunRecord → Action (Unit {0})
unfolding reconcile_reached
reconcile_transactions x run = do
  target ← lift (require_deployment_target (x.chain run.target_testnet_key))
  upstream ← lift (upstream_of x target)
  reconcile_reached x run target (confirm_target_rpc target x.chain_id_reply)

unfoldable pub process_reconcile_deployment : Externals → Action (Unit {0})
unfolding reconcile_transactions
process_reconcile_deployment x = do
  run ← must_get
  rows ← gets (λ w. w.rows)
  if length rows.transactions == 0
      then when
          (same_status run.status broadcasting || same_status run.status reconciliation_required)
          (transition_run x (
            to_reconcile run.status
              "no journaled hashes after broadcast; script will not be rerun"))
      else reconcile_transactions x run
