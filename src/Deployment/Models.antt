-- ===== src/Deployment/Models.antt =====
-- packages/shared/src/models.ts: of the records of a run, the fields that decide on a deployment.
use chain_port.Prelude.{ℕ, String, Option}
use chain_port.Shared.Enums.{MigrationPlanOutcome}
use chain_port.Lifecycle.ChangeSet.{ChangeSetStatus}
use chain_port.Lifecycle.Validation.{ValidationRunStatus}

pub data RevisionType : Type 0 where
  original generated : RevisionType

pub data RevisionCompleteness : Type 0 where
  complete partial : RevisionCompleteness

pub data ValidationOutcome : Type 0 where
  passed failed partial unsupported infra_failure : ValidationOutcome

pub record RepositoryRevision : Type 0 where
  pub id : String
  pub revision_type : RevisionType
  pub change_set_id : Option String
  pub content_hash : String
  pub completeness : Option RevisionCompleteness

pub record ValidationRunRecord : Type 0 where
  pub repository_revision_id : String
  pub revision_content_hash : String
  pub status : ValidationRunStatus
  pub outcome : Option ValidationOutcome

pub record PlannedMigration : Type 0 where
  pub outcome : MigrationPlanOutcome
  pub total_actions : ℕ
  pub safe_action_count : ℕ
  pub review_action_count : ℕ
  pub manual_action_count : ℕ
  pub blocked_action_count : ℕ
  pub unknown_action_count : ℕ

pub record ChangeSetRecord : Type 0 where
  pub id : String
  pub status : ChangeSetStatus
  pub completeness : Option RevisionCompleteness
