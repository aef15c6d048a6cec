-- ===== src/Compatibility/Types.antt =====
-- packages/compatibility/src/types.ts
use chain_port.Prelude.{ℕ, String, Bool, Option, List}
use chain_port.Shared.Enums.{
  CompatibilityStatus, CompatibilityCategory, CompatibilityReadiness, CoverageConfidence,
  RemediationType,
}
use chain_port.Shared.Json.{JsonObject}

pub record CompatibilityEvaluation : Type 0 where
  pub status : CompatibilityStatus
  pub category : CompatibilityCategory
  pub rule_id : String
  pub rule_version : String
  pub requirement_id : Option String
  pub title : String
  pub summary : String
  pub technical_reason : String
  pub source_value : Option String
  pub target_value : Option String
  pub confidence : CoverageConfidence
  pub remediation_type : RemediationType
  pub registry_evidence : JsonObject

-- The weight in hundredths, the score in thousandths: the numbers are rounded to these.
pub record CategoryScore : Type 0 where
  pub category : CompatibilityCategory
  pub applicable : Bool
  pub weight : ℕ
  pub score : Option ℕ
  pub pass_count : ℕ
  pub warning_count : ℕ
  pub blocker_count : ℕ
  pub unknown_count : ℕ

pub record StatusCounts : Type 0 where
  pub pass : ℕ
  pub warning : ℕ
  pub blocker : ℕ
  pub unknown : ℕ

pub record FindingScores : Type 0 where
  pub score : ℕ
  pub coverage : ℕ
  pub coverage_confidence : CoverageConfidence
  pub categories : List CategoryScore
  pub counts : StatusCounts

pub record CompatibilityReport : Type 0 where
  pub ruleset_version : String
  pub registry_version : String
  pub registry_snapshot_hash : String
  pub source_chain_key : String
  pub target_chain_key : String
  pub score : ℕ
  pub coverage : ℕ
  pub coverage_confidence : CoverageConfidence
  pub readiness : CompatibilityReadiness
  pub findings : List CompatibilityEvaluation
  pub categories : List CategoryScore
  pub counts : StatusCounts
