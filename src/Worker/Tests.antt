-- ===== src/Worker/Tests.antt =====
-- Runs of the deployment jobs.
use chain_port.Prelude.{
  ◌≡◌, ◌⊎◌, refl, true, false, none, some, List, [], ◌∷◌, Post, ok, ◌>>=◌, try_catch, try_finally,
  for_each,
}
use chain_port.Shared.Enums.{MigrationPlanOutcome}
use chain_port.Lifecycle.ChangeSet.{ChangeSetStatus}
use chain_port.Lifecycle.Validation.{ValidationRunStatus}
use chain_port.Lifecycle.Deployment.{
  DeploymentRunStatus, queued, checking_eligibility, preparing, simulating, prepared, funding,
  broadcasting, is_deployment_transition_allowed, assert_deployment_transition,
}
use chain_port.Deployment.Models.{
  RevisionType, RevisionCompleteness, ValidationOutcome, RepositoryRevision,
}
use chain_port.Deployment.Target.{ChainDefinition, DeploymentEnvironment, VerificationProvider}
use chain_port.Deployment.Checks.{run_post_deploy_checks}
use chain_port.Database.Models.{
  DeploymentRunRecord, DeploymentStatusEvent, DeploymentTransactionRecord,
  DeploymentTransactionStatus, DeploymentFramework, DeploymentCandidateConfidence,
}
use chain_port.Database.Deployments.{CandidateInput, create_queued, transition}
use chain_port.Worker.Externals.{Externals, World, ReceiptSnapshot}
use chain_port.Worker.Common.{transition_run}
use chain_port.Worker.Prepare.{process_prepare_deployment}
use chain_port.Worker.Confirm.{confirm_and_verify, process_reconcile_deployment}
use chain_port.Worker.Broadcast.{process_broadcast_deployment}
use chain_port.Worker.Audit.{IsTrail, is_in, count_broadcasts, Kept}
use chain_port.Worker.Audit.Confirm.{open_statuses, settled_statuses}
use chain_port.Worker.Audit.Jobs.{sent_statuses, process_reconcile_deployment_settles}
use chain_port.Worker.Audit.Broadcast.{IsSettledBroadcast, IsStoppedBroadcast}
use chain_port.Worker.Audit.Funding.{ready_statuses, process_broadcast_deployment_settles}
use chain_port.Worker.Audit.Prepare.{fresh_statuses, answered_statuses}
use chain_port.Worker.Audit.Fresh.{process_prepare_deployment_answers}
use chain_port.Worker.Audit.Events.{prepare, broadcast, after_event}
use chain_port.Worker.Audit.Sequence.{started, handled, created, Reaches-sent_once, Reaches-IsTrail}

abbrev target : ChainDefinition
target = record {
  key = "sepolia";
  chain_id = 11155111;
  network_kind = "TESTNET";
  rpc_urls = "https://rpc" ∷ [];
  deployment = some (record {
    enabled = true;
    environment = DeploymentEnvironment.testnet;
    confirmation_count = 1;
    verification_provider = VerificationProvider.no_provider;
    verification_api_url = none;
    max_funding_wei = 100;
    max_gas_budget = 30000;
    max_transaction_count = 4;
    max_transaction_value_wei = 0;
  });
}

abbrev revision : RepositoryRevision
revision = record {
  id = "r";
  revision_type = RevisionType.generated;
  change_set_id = some "c";
  content_hash = "h";
  completeness = some RevisionCompleteness.complete;
}

abbrev candidate : CandidateInput
candidate = record {
  revision_id = "r";
  framework = DeploymentFramework.foundry;
  file_path = "script/Deploy.s.sol";
  entrypoint = "run";
  confidence = DeploymentCandidateConfidence.detected;
}

abbrev receipt : ReceiptSnapshot
receipt = record {
  status = DeploymentTransactionStatus.confirmed;
  block_number = some 7;
  contract_address = some "0xc";
  from_address = some "0xd";
  to_address = none;
}

-- A chain that answers, and a script that sends one transaction.
abbrev x : Externals
x = record {
  deployment_id = "d";
  now = 5;
  create_id = λ n. "candidate";
  to_lower_case = λ s. s;
  is_blank = λ s. false;
  cut = λ s. s;
  revision = λ id. some revision;
  validation = λ id. some (record {
    repository_revision_id = "r";
    revision_content_hash = "h";
    status = ValidationRunStatus.completed;
    outcome = some ValidationOutcome.passed;
  });
  plan = λ id. some (record {
    outcome = MigrationPlanOutcome.ready_to_apply;
    total_actions = 2;
    safe_action_count = 2;
    review_action_count = 0;
    manual_action_count = 0;
    blocked_action_count = 0;
    unknown_action_count = 0;
  });
  change_set = λ id. some (record {
    id = "c";
    status = ChangeSetStatus.finalized;
    completeness = some RevisionCompleteness.complete;
  });
  chain = λ key. some target;
  anvil_rpc_url = none;
  overrides = record {
    max_tx_count = none;
    max_gas = none;
    max_funding_wei = none;
    max_transaction_value_wei = none;
  };
  funder_private_key = some "0xf";
  explorer_api_key = none;
  chain_id_reply = ok (some 11155111);
  fund_reply = ok tt;
  receipt = λ hash. ok receipt;
  code_at = λ address. ok "0x60";
  chain_id = ok 11155111;
  nonce = ok 1;
  workspace = ok tt;
  artifact_exists = true;
  artifact_copied = ok tt;
  repository_exists = true;
  repository_cloned = ok tt;
  tree_hash = ok "h";
  detected = ok (candidate ∷ []);
  journal_hashes = "0xa" ∷ [];
  journal_audit = ("eth_sendRawTransaction", 1) ∷ [];
  artifacts = ok [];
  named_contracts = [];
  whole_number = λ s. ok s;
  issued = "0xd";
  proxy_started = ok tt;
  sandbox_prepared = ok tt;
  safe_path = λ path. ok tt;
  execution = ok (record { timed_out = false; exit_code = 0; output = "done" });
  parse_preflight = λ output. record {
    transaction_count = some 1;
    estimated_gas = some 21000;
    estimated_cost = none;
    warnings = [];
  };
}

abbrev run : DeploymentRunRecord
run = record {
  repository_revision_id = "r";
  planned_migration_id = some "p";
  change_set_id = some "c";
  validation_run_id = "v";
  deployment_candidate_id = none;
  target_testnet_key = "sepolia";
  framework = none;
  status = queued;
  deployer_address = none;
  transaction_count = none;
  estimated_gas = none;
  estimated_cost = none;
  error_code = none;
  error_message = none;
  rpc_audit_json = [];
  broadcast_started_at = none;
  started_at = none;
  completed_at = none;
}

abbrev sent_world : World
sent_world = after_event x broadcast (after_event x prepare (created run))

-- A job that prepares and one that broadcasts lead a new run to COMPLETED, with one script sent.
sent_world_status : sent_world.rows.run.status ≡ DeploymentRunStatus.completed
unfolding process_prepare_deployment process_broadcast_deployment create_queued ◌>>=◌ try_catch
    try_finally for_each transition_run transition assert_deployment_transition confirm_and_verify
    run_post_deploy_checks
sent_world_status = refl

Reaches-sent_once_example :
    (count_broadcasts sent_world.executed ≡ 0)
    ⊎ ((count_broadcasts sent_world.executed ≡ 1)
        × (is_in sent_statuses sent_world.rows.run.status ≡ true))
unfolding create_queued
Reaches-sent_once_example =
    Reaches-sent_once run sent_world (handled (handled started x prepare refl) x broadcast refl)

Reaches-IsTrail_example : IsTrail sent_world.rows.events sent_world.rows.run.status
unfolding create_queued
Reaches-IsTrail_example =
    Reaches-IsTrail run sent_world (handled (handled started x prepare refl) x broadcast refl)

abbrev event : DeploymentRunStatus → DeploymentRunStatus → DeploymentStatusEvent
event from to = record { from_status = some from; to_status = to; reason = "" }

abbrev first_event : DeploymentStatusEvent
first_event = record { from_status = none; to_status = queued; reason = "" }

abbrev prepared_events : List DeploymentStatusEvent
prepared_events =
    event simulating prepared
    ∷ event preparing simulating
    ∷ event checking_eligibility preparing
    ∷ event queued checking_eligibility
    ∷ first_event
    ∷ []

abbrev world_at : DeploymentRunStatus → List DeploymentStatusEvent → World
world_at status events = record {
  rows = record {
    run = record run { status = status; deployment_candidate_id = some "candidate" };
    events = events;
    candidates =
        record {
          id = "candidate";
          revision_id = "r";
          framework = DeploymentFramework.foundry;
          file_path = "script/Deploy.s.sol";
          entrypoint = "run";
          confidence = DeploymentCandidateConfidence.detected;
        }
        ∷ [];
    preflight = none;
    transactions = [];
    contracts = [];
    checks = [];
  };
  credential = some "0xd";
  executed = [];
}

new_world-Kept : Kept fresh_statuses 0 (world_at queued (first_event ∷ []))
unfolding IsTrail
new_world-Kept = record { trail = (refl, refl, refl); status = refl; count = refl }

process_prepare_deployment_answers_example :
    Post
      (λ _. Kept answered_statuses 0)
      (Kept fresh_statuses 0)
      (process_prepare_deployment x (world_at queued (first_event ∷ [])))
process_prepare_deployment_answers_example =
    process_prepare_deployment_answers x 0 (world_at queued (first_event ∷ [])) new_world-Kept

prepared_world-Kept : Kept ready_statuses 0 (world_at prepared prepared_events)
unfolding IsTrail is_deployment_transition_allowed
prepared_world-Kept = record {
  trail = (refl, refl, (refl, refl, (refl, refl, (refl, refl, (refl, refl, refl)))));
  status = refl;
  count = refl;
}

process_broadcast_deployment_settles_example :
    Post
      (λ _. IsSettledBroadcast 0)
      (IsStoppedBroadcast 0)
      (process_broadcast_deployment x (world_at prepared prepared_events))
process_broadcast_deployment_settles_example =
    process_broadcast_deployment_settles x 0 (world_at prepared prepared_events) prepared_world-Kept

abbrev transaction : DeploymentTransactionRecord
transaction = record {
  sequence = 1;
  hash = "0xa";
  nonce = none;
  from_address = some "0xd";
  to_address = none;
  value = "0";
  gas_limit = none;
  status = DeploymentTransactionStatus.submitted;
  block_number = none;
  contract_address = none;
  confirmed_at = none;
}

-- A worker that stopped after the broadcast.
abbrev interrupted : World
interrupted =
    let w =
      world_at broadcasting
        (event funding broadcasting ∷ event prepared funding ∷ prepared_events) in
    record w { rows = record w.rows { transactions = transaction ∷ [] }; credential = none }

interrupted-Kept : Kept open_statuses 0 interrupted
unfolding IsTrail is_deployment_transition_allowed
interrupted-Kept = record {
  trail = (
    refl,
    refl,
    (refl, refl, (refl, refl, (refl, refl, (refl, refl, (refl, refl, (refl, refl, refl)))))),
  );
  status = refl;
  count = refl;
}

process_reconcile_deployment_settles_example :
    Post (λ _. Kept settled_statuses 0) (λ _. ⊥) (process_reconcile_deployment x interrupted)
process_reconcile_deployment_settles_example =
    process_reconcile_deployment_settles x target "https://rpc" 0 interrupted interrupted-Kept refl
      refl refl
