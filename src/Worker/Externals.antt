-- ===== src/Worker/Externals.antt =====
-- What a deployment job of the worker meets outside: other tables, the chain, the sandbox, the files.
-- A job sees one answer to each question; two jobs may see different ones.
use chain_port.Prelude.{ℕ, String, Bool, Option, List, Result, Exec}
use chain_port.Database.Models.{Rows, DeploymentTransactionStatus}
use chain_port.Database.Deployments.{CandidateInput}
use chain_port.Deployment.Models.{
  RepositoryRevision, ValidationRunRecord, PlannedMigration, ChangeSetRecord,
}
use chain_port.Deployment.Target.{ChainDefinition}
use chain_port.Deployment.Errors.{Failure}
use chain_port.Deployment.Policy.{PolicyOverrides}

-- The result of `sandbox.execute`, with both streams joined and the key taken out.
pub record SandboxResult : Type 0 where
  pub timed_out : Bool
  pub exit_code : ℕ
  pub output : String

pub record ParsedPreflight : Type 0 where
  pub transaction_count : Option ℕ
  pub estimated_gas : Option ℕ
  pub estimated_cost : Option String
  pub warnings : List String

pub record BroadcastTransaction : Type 0 where
  pub hash : String
  pub nonce : Option ℕ
  pub from_address : Option String
  pub to_address : Option String
  pub value : String
  pub gas_limit : Option String
  pub contract_address : Option String

pub record ReceiptSnapshot : Type 0 where
  pub status : DeploymentTransactionStatus
  pub block_number : Option ℕ
  pub contract_address : Option String
  pub from_address : Option String
  pub to_address : Option String

pub record NamedContract : Type 0 where
  pub address : String
  pub contract_name : Option String
  pub source_path : Option String

pub record Externals : Type 0 where
  pub deployment_id : String
  pub now : ℕ
  -- `createId`, by the number of rows that the table has.
  pub create_id : ℕ → String
  pub to_lower_case : String → String
  pub is_blank : String → Bool
  -- `slice(0, 2000)`
  pub cut : String → String
  pub revision : String → Option RepositoryRevision
  pub validation : String → Option ValidationRunRecord
  pub plan : String → Option PlannedMigration
  pub change_set : String → Option ChangeSetRecord
  pub chain : String → Option ChainDefinition
  pub anvil_rpc_url : Option String
  pub overrides : PolicyOverrides
  pub funder_private_key : Option String
  pub explorer_api_key : Option String
  -- Replies of the target chain.
  pub chain_id_reply : Result Failure (Option ℕ)
  pub fund_reply : Result Failure (Unit {0})
  pub receipt : String → Result Failure ReceiptSnapshot
  pub code_at : String → Result Failure String
  pub chain_id : Result Failure ℕ
  pub nonce : Result Failure ℕ
  -- The workspace and its files.
  pub workspace : Result Failure (Unit {0})
  pub artifact_exists : Bool
  pub artifact_copied : Result Failure (Unit {0})
  pub repository_exists : Bool
  pub repository_cloned : Result Failure (Unit {0})
  pub tree_hash : Result Failure String
  pub detected : Result Failure (List CandidateInput)
  pub journal_hashes : List String
  pub journal_audit : List (String × ℕ)
  pub artifacts : Result Failure (List BroadcastTransaction)
  pub named_contracts : List NamedContract
  -- `BigInt(value || "0").toString()`
  pub whole_number : String → Result Failure String
  -- The credential, the proxy and the sandbox.
  pub issued : String
  pub proxy_started : Result Failure (Unit {0})
  pub sandbox_prepared : Result Failure (Unit {0})
  -- `assertSafeCandidatePath`
  pub safe_path : String → Result Failure (Unit {0})
  pub execution : Result Failure SandboxResult
  pub parse_preflight : String → ParsedPreflight

-- A command that the sandbox was given, and the chain behind its proxy.
pub record Command : Type 0 where
  pub is_broadcast : Bool
  pub script : String
  pub upstream : String
  pub chain : ChainDefinition

-- The rows of the deployment, its live credential, and the commands so far, the newest first.
pub record World : Type 0 where
  pub rows : Rows
  pub credential : Option String
  pub executed : List Command

abbrev pub Action : Type 0 → Type 0
Action A = Exec World Failure A
