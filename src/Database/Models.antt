-- ===== src/Database/Models.antt =====
-- packages/shared/src/models.ts: the records of a deployment run. Of the run itself the columns that
-- a run changes or that its processing reads.
use chain_port.Prelude.{ℕ, String, Bool, Option, List}
use chain_port.Lifecycle.Deployment.{DeploymentRunStatus}

pub data DeploymentFramework : Type 0 where
  foundry hardhat : DeploymentFramework

pub data DeploymentCandidateConfidence : Type 0 where
  detected likely unknown : DeploymentCandidateConfidence

pub data DeploymentTransactionStatus : Type 0 where
  submitted pending confirmed reverted unknown : DeploymentTransactionStatus

pub data DeploymentSourceVerificationStatus : Type 0 where
  verified failed not_supported not_configured skipped : DeploymentSourceVerificationStatus

pub data DeploymentCheckStatus : Type 0 where
  passed failed skipped : DeploymentCheckStatus

pub record DeploymentRunRecord : Type 0 where
  pub repository_revision_id : String
  pub planned_migration_id : Option String
  pub change_set_id : Option String
  pub validation_run_id : String
  pub deployment_candidate_id : Option String
  pub target_testnet_key : String
  pub framework : Option DeploymentFramework
  pub status : DeploymentRunStatus
  pub deployer_address : Option String
  pub transaction_count : Option ℕ
  pub estimated_gas : Option ℕ
  pub estimated_cost : Option String
  pub error_code : Option String
  pub error_message : Option String
  pub rpc_audit_json : List (String × ℕ)
  pub broadcast_started_at : Option ℕ
  pub started_at : Option ℕ
  pub completed_at : Option ℕ

-- A row of `deploymentStatusEvent`.
pub record DeploymentStatusEvent : Type 0 where
  pub from_status : Option DeploymentRunStatus
  pub to_status : DeploymentRunStatus
  pub reason : String

pub record DeploymentCandidateRecord : Type 0 where
  pub id : String
  pub revision_id : String
  pub framework : DeploymentFramework
  pub file_path : String
  pub entrypoint : String
  pub confidence : DeploymentCandidateConfidence

pub record DeploymentPreflightRecord : Type 0 where
  pub transaction_count : Option ℕ
  pub estimated_gas : Option ℕ
  pub estimated_cost : Option String
  pub warnings : List String

pub record DeploymentTransactionRecord : Type 0 where
  pub sequence : ℕ
  pub hash : String
  pub nonce : Option ℕ
  pub from_address : Option String
  pub to_address : Option String
  pub value : String
  pub gas_limit : Option String
  pub status : DeploymentTransactionStatus
  pub block_number : Option ℕ
  pub contract_address : Option String
  pub confirmed_at : Option ℕ

pub record DeploymentContractRecord : Type 0 where
  pub address : String
  pub transaction_hash : String
  pub block_number : Option ℕ
  pub deployer : Option String
  pub contract_name : Option String
  pub source_path : Option String
  pub bytecode_present : Bool
  pub receipt_status : Option DeploymentTransactionStatus
  pub verification_status : DeploymentSourceVerificationStatus
  pub verification_message : Option String

pub record DeploymentCheckRecord : Type 0 where
  pub name : String
  pub status : DeploymentCheckStatus
  pub detail : String

-- The rows that belong to one deployment. The newest status event stands first.
pub record Rows : Type 0 where
  pub run : DeploymentRunRecord
  pub events : List DeploymentStatusEvent
  pub candidates : List DeploymentCandidateRecord
  pub preflight : Option DeploymentPreflightRecord
  pub transactions : List DeploymentTransactionRecord
  pub contracts : List DeploymentContractRecord
  pub checks : List DeploymentCheckRecord
