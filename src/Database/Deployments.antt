-- ===== src/Database/Deployments.antt =====
-- packages/db/src/deployment-repository.ts, on the rows of one deployment that is there. The
-- database calls succeed; an update writes the row of its key.
use chain_port.Prelude.{
  ℕ, String, Bool, true, false, not, ◌||◌, ◌&&◌, Option, none, some, or_else, List, [], ◌∷◌,
  if◌then◌else◌, ◌==◌, ◌===◌, Result, ok, err,
}
use chain_port.Lifecycle.Paths.{TransitionError}
use chain_port.Lifecycle.Deployment.{
  DeploymentRunStatus, deployment_index, assert_deployment_transition,
}
use chain_port.Database.Models.{
  DeploymentFramework, DeploymentCandidateConfidence, DeploymentRunRecord, DeploymentStatusEvent,
  DeploymentCandidateRecord, DeploymentPreflightRecord, DeploymentCheckRecord, Rows,
}

abbrev pub is_foundry : DeploymentFramework → Bool
is_foundry DeploymentFramework.foundry = true
is_foundry DeploymentFramework.hardhat = false

abbrev pub same_framework : DeploymentFramework → DeploymentFramework → Bool
same_framework a b = if is_foundry a then is_foundry b else not (is_foundry b)

abbrev pub same_status : DeploymentRunStatus → DeploymentRunStatus → Bool
same_status s t = deployment_index s == deployment_index t

-- The input of `upsertCandidate`, which finds a row by all of it but the confidence.
pub record CandidateInput : Type 0 where
  pub revision_id : String
  pub framework : DeploymentFramework
  pub file_path : String
  pub entrypoint : String
  pub confidence : DeploymentCandidateConfidence

abbrev pub is_candidate : CandidateInput → DeploymentCandidateRecord → Bool
is_candidate input row =
    (row.revision_id === input.revision_id)
    && same_framework row.framework input.framework
    && (row.file_path === input.file_path)
    && (row.entrypoint === input.entrypoint)

abbrev pub new_candidate : String → CandidateInput → DeploymentCandidateRecord
new_candidate id input = record {
  id = id;
  revision_id = input.revision_id;
  framework = input.framework;
  file_path = input.file_path;
  entrypoint = input.entrypoint;
  confidence = input.confidence;
}

-- The row after the call, and all rows.
abbrev pub put_candidate :
    String
    → CandidateInput
    → List DeploymentCandidateRecord
    → DeploymentCandidateRecord × List DeploymentCandidateRecord
put_candidate id input [] = (new_candidate id input, new_candidate id input ∷ [])
put_candidate id input (row ∷ rows) =
    let rest = put_candidate id input rows in
    let updated = record row { confidence = input.confidence } in
    if is_candidate input row then (updated, updated ∷ rows) else (rest.0, row ∷ rest.1)

-- The input of `transition`; `none` is a field that is not given.
pub record TransitionInput : Type 0 where
  pub from_status : DeploymentRunStatus
  pub to_status : DeploymentRunStatus
  pub reason : String
  pub error_code : Option (Option String)
  pub error_message : Option (Option String)
  pub deployer_address : Option (Option String)
  pub framework : Option (Option DeploymentFramework)
  pub transaction_count : Option (Option ℕ)
  pub estimated_gas : Option (Option ℕ)
  pub estimated_cost : Option (Option String)
  pub rpc_audit_json : Option (List (String × ℕ))

abbrev pub from_to : DeploymentRunStatus → DeploymentRunStatus → String → TransitionInput
from_to from to reason = record {
  from_status = from;
  to_status = to;
  reason = reason;
  error_code = none;
  error_message = none;
  deployer_address = none;
  framework = none;
  transaction_count = none;
  estimated_gas = none;
  estimated_cost = none;
  rpc_audit_json = none;
}

abbrev pub is_terminal : DeploymentRunStatus → Bool
is_terminal to =
    same_status to DeploymentRunStatus.completed
    || same_status to DeploymentRunStatus.failed
    || same_status to DeploymentRunStatus.cancelled
    || same_status to DeploymentRunStatus.reconciliation_required

abbrev pub updated_run : ℕ → TransitionInput → DeploymentRunRecord → DeploymentRunRecord
updated_run now input run = record run {
  status = input.to_status;
  error_code = or_else input.error_code run.error_code;
  error_message = or_else input.error_message run.error_message;
  deployer_address = or_else input.deployer_address run.deployer_address;
  framework = or_else input.framework run.framework;
  transaction_count = or_else input.transaction_count run.transaction_count;
  estimated_gas = or_else input.estimated_gas run.estimated_gas;
  estimated_cost = or_else input.estimated_cost run.estimated_cost;
  rpc_audit_json = or_else input.rpc_audit_json run.rpc_audit_json;
  started_at =
      if same_status input.to_status DeploymentRunStatus.checking_eligibility
        && same_status input.from_status DeploymentRunStatus.queued
      then some now
      else run.started_at;
  broadcast_started_at =
      if same_status input.to_status DeploymentRunStatus.broadcasting
      then some now
      else run.broadcast_started_at;
  completed_at = if is_terminal input.to_status then some now else run.completed_at;
}

abbrev pub event_of : TransitionInput → DeploymentStatusEvent
event_of input = record {
  from_status = some input.from_status;
  to_status = input.to_status;
  reason = input.reason;
}

abbrev pub write_transition :
    ℕ
    → TransitionInput
    → Rows
    → Result (TransitionError DeploymentRunStatus) (Unit {0})
    → Result (TransitionError DeploymentRunStatus) Rows
write_transition now input rows (err e) = err e
write_transition now input rows (ok _) =
    ok (record rows { run = updated_run now input rows.run; events = event_of input ∷ rows.events })

-- The row's own status is not compared with `from_status`.
unfoldable pub transition :
    ℕ → TransitionInput → Rows → Result (TransitionError DeploymentRunStatus) Rows
transition now input rows =
    write_transition now input rows (assert_deployment_transition input.from_status input.to_status)

-- `createQueued`: the first row and the first event of a run.
unfoldable pub create_queued : DeploymentRunRecord → Rows
create_queued run = record {
  run = record run { status = DeploymentRunStatus.queued };
  events =
      record {
        from_status = none;
        to_status = DeploymentRunStatus.queued;
        reason = "deployment requested";
      }
      ∷ [];
  candidates = [];
  preflight = none;
  transactions = [];
  contracts = [];
  checks = [];
}

abbrev pub set_deployer_address : String → Rows → Rows
set_deployer_address address rows = record rows {
  run = record rows.run { deployer_address = some address };
}

abbrev pub set_candidate : String → Rows → Rows
set_candidate id rows = record rows { run = record rows.run { deployment_candidate_id = some id } }

abbrev pub upsert_preflight : DeploymentPreflightRecord → Rows → Rows
upsert_preflight preflight rows = record rows { preflight = some preflight }

abbrev pub replace_checks : List DeploymentCheckRecord → Rows → Rows
replace_checks checks rows = record rows { checks = checks }
