-- ===== src/Migration/Rules/Fallback.antt =====
-- packages/migration/src/rules/fallback.ts
use chain_port.Prelude.{false, String, not, none, List, [], ◌∷◌, template}
use chain_port.Shared.Enums.{
  CompatibilityStatus, MigrationAutomationLevel, MigrationRiskLevel, MigrationActionStatus,
  MigrationStage, MigrationActionCategory, is_pass,
}
use chain_port.Migration.Types.{PlannedFinding, PlanContext, MigrationActionDraft, MigrationRule}
use chain_port.Migration.Action.{draft}

abbrev ident : String
ident = "fallback"

fallback_by_status : CompatibilityStatus → PlannedFinding → PlanContext → List MigrationActionDraft
fallback_by_status CompatibilityStatus.blocker finding context =
    draft (record {
      finding = finding;
      key = template ("blocked:" ∷ finding.id ∷ []);
      rule_id = ident;
      rule_version = "1";
      title = finding.title;
      description = template (
          "Required capability is unavailable on " ∷ context.target_chain_name
          ∷ ". Migration cannot proceed unchanged." ∷ []);
      technical_reason = finding.technical_reason;
      category = MigrationActionCategory.blocked_infrastructure;
      stage = MigrationStage.manual_review;
      automation_level = MigrationAutomationLevel.blocked;
      risk_level = MigrationRiskLevel.critical;
      action_status = MigrationActionStatus.blocked;
      source_value = finding.source_value;
      target_value = finding.target_value;
      depends_on_keys = none;
      registry_refs = none;
    })
    ∷ []
fallback_by_status CompatibilityStatus.unknown finding context =
    draft (record {
      finding = finding;
      key = template ("unknown:" ∷ finding.rule_id ∷ []);
      rule_id = ident;
      rule_version = "1";
      title = finding.title;
      description =
          "ChainPort cannot produce a migration action because target data for this requirement is unverified.";
      technical_reason = finding.technical_reason;
      category = MigrationActionCategory.unknown_address;
      stage = MigrationStage.manual_review;
      automation_level = MigrationAutomationLevel.unknown;
      risk_level = MigrationRiskLevel.high;
      action_status = MigrationActionStatus.unknown;
      source_value = finding.source_value;
      target_value = finding.target_value;
      depends_on_keys = none;
      registry_refs = none;
    })
    ∷ []
fallback_by_status _ finding context =
    draft (record {
      finding = finding;
      key = template ("review:" ∷ finding.id ∷ []);
      rule_id = ident;
      rule_version = "1";
      title = finding.title;
      description = finding.summary;
      technical_reason = finding.technical_reason;
      category = MigrationActionCategory.env_config;
      stage = MigrationStage.manual_review;
      automation_level = MigrationAutomationLevel.review_required;
      risk_level = MigrationRiskLevel.medium;
      action_status = MigrationActionStatus.planned;
      source_value = finding.source_value;
      target_value = finding.target_value;
      depends_on_keys = none;
      registry_refs = none;
    })
    ∷ []

fallback_actions : PlannedFinding → PlanContext → List MigrationActionDraft
unfolding fallback_by_status
fallback_actions finding context = fallback_by_status finding.status finding context

unfoldable pub fallback_rule : MigrationRule
unfolding fallback_actions
fallback_rule = record {
  id = ident;
  version = "1";
  supports = λ finding. not (is_pass finding.status);
  throws = λ _. false;
  create_actions = fallback_actions;
}
