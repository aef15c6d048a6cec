-- ===== src/Migration/Types.antt =====
-- packages/migration/src/types.ts
use chain_port.Prelude.{ℕ, String, Bool, Option, List}
use chain_port.Shared.Enums.{
  CompatibilityStatus, CompatibilityCategory, RemediationType, CoverageConfidence,
  MigrationPlanOutcome, MigrationAutomationLevel, MigrationRiskLevel, MigrationActionStatus,
  MigrationStage, MigrationActionCategory,
}
use chain_port.Shared.Json.{JsonObject}
use chain_port.Migration.Dependencies.{Dependency}

pub record PlannedEvidence : Type 0 where
  pub finding_id : String
  pub evidence_id : Option String
  pub file_path : String
  pub start_line : ℕ
  pub excerpt : String

pub record PlannedFinding : Type 0 where
  pub id : String
  pub requirement_id : Option String
  pub requirement_key : Option String
  pub rule_id : String
  pub rule_version : String
  pub category : CompatibilityCategory
  pub status : CompatibilityStatus
  pub title : String
  pub summary : String
  pub technical_reason : String
  pub remediation_type : RemediationType
  pub source_value : Option String
  pub target_value : Option String
  pub confidence : CoverageConfidence
  pub registry_evidence : JsonObject
  pub evidence : List PlannedEvidence

pub record PlanContext : Type 0 where
  pub source_chain_key : String
  pub source_chain_name : String
  pub source_chain_id : ℕ
  pub target_chain_key : String
  pub target_chain_name : String
  pub target_chain_id : ℕ
  pub target_rpc_urls : List String
  pub target_explorer_url : Option String
  pub registry_snapshot_hash : String
  -- The language's `new RegExp(pattern, "i")`, as a test of strings; `none` for a pattern that it
  -- throws a SyntaxError on. One of the rules calls it.
  pub reg_exp : String → Option (String → Bool)

pub record MigrationActionDraft : Type 0 where
  pub key : String
  pub rule_id : String
  pub rule_version : String
  pub title : String
  pub description : String
  pub technical_reason : String
  pub category : MigrationActionCategory
  pub stage : MigrationStage
  pub automation_level : MigrationAutomationLevel
  pub risk_level : MigrationRiskLevel
  pub action_status : MigrationActionStatus
  pub source_value : Option String
  pub target_value : Option String
  pub finding_ids : List String
  pub evidence : List PlannedEvidence
  pub depends_on_keys : List String
  pub registry_refs : JsonObject

pub record MigrationRule : Type 0 where
  pub id : String
  pub version : String
  pub supports : PlannedFinding → Bool
  -- Whether `createActions` throws in a context. Its value then is not used.
  pub throws : PlanContext → Bool
  pub create_actions : PlannedFinding → PlanContext → List MigrationActionDraft

-- An `OrderedMigrationAction`: the draft that it extends, and its two places.
pub record OrderedMigrationAction : Type 0 where
  pub action : MigrationActionDraft
  pub display_order : ℕ
  pub dependency_order : ℕ

pub record ActionCounts : Type 0 where
  pub total : ℕ
  pub safe_automatic : ℕ
  pub review_required : ℕ
  pub manual : ℕ
  pub blocked : ℕ
  pub unknown : ℕ

pub record MigrationPlanResult : Type 0 where
  pub ruleset_version : String
  pub outcome : MigrationPlanOutcome
  pub migration_ready : Bool
  pub verification_required : Bool
  pub auto_fixable_percent : ℕ
  pub counts : ActionCounts
  pub actions : List OrderedMigrationAction
  pub dependencies : List Dependency
