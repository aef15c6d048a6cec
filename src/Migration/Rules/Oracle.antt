-- ===== src/Migration/Rules/Oracle.antt =====
-- packages/migration/src/rules/oracle.ts
use chain_port.Prelude.{
  false, String, not, ◌&&◌, Option, none, some, List, [], ◌∷◌, if◌then◌else◌, ◌===◌, or_else,
  template,
}
use chain_port.Shared.Enums.{
  CompatibilityStatus, MigrationAutomationLevel, MigrationRiskLevel, MigrationActionStatus,
  MigrationStage, MigrationActionCategory, is_pass,
}
use chain_port.Shared.Json.{get_string}
use chain_port.Migration.Types.{PlannedFinding, PlanContext, MigrationActionDraft, MigrationRule}
use chain_port.Migration.Action.{draft, looks_like_address}

abbrev ident : String
ident = "oracle"

abbrev oracle_label : Option String → String
oracle_label none = "Chainlink"
oracle_label (some pair) = template ("Chainlink " ∷ pair ∷ [])

oracle_by_status :
    CompatibilityStatus → String → PlannedFinding → PlanContext → List MigrationActionDraft
oracle_by_status CompatibilityStatus.blocker label finding context =
    draft (record {
      finding = finding;
      key = template ("oracle-blocked:" ∷ label ∷ []);
      rule_id = ident;
      rule_version = "1";
      title = template (
          "Required " ∷ label ∷ " infrastructure is unavailable on " ∷ context.target_chain_name
          ∷ []);
      description = template (
          "Migration cannot proceed unchanged. The target registry marks " ∷ label
          ∷ " unavailable. No alternate oracle is recommended." ∷ []);
      technical_reason = finding.technical_reason;
      category = MigrationActionCategory.blocked_infrastructure;
      stage = MigrationStage.oracles;
      automation_level = MigrationAutomationLevel.blocked;
      risk_level = MigrationRiskLevel.critical;
      action_status = MigrationActionStatus.blocked;
      source_value = finding.source_value;
      target_value = finding.target_value;
      depends_on_keys = none;
      registry_refs = none;
    })
    ∷ []
oracle_by_status CompatibilityStatus.unknown label finding context =
    draft (record {
      finding = finding;
      key = template ("oracle-unknown:" ∷ label ∷ []);
      rule_id = ident;
      rule_version = "1";
      title = template ("Verify " ∷ label ∷ " on " ∷ context.target_chain_name ∷ []);
      description = template (
          "ChainPort cannot produce a migration action because " ∷ label ∷ " availability on "
          ∷ context.target_chain_name
          ∷ " is not verified. This does not mean the oracle is unavailable." ∷ []);
      technical_reason = finding.technical_reason;
      category = MigrationActionCategory.oracle_feed;
      stage = MigrationStage.oracles;
      automation_level = MigrationAutomationLevel.unknown;
      risk_level = MigrationRiskLevel.high;
      action_status = MigrationActionStatus.unknown;
      source_value = finding.source_value;
      target_value = finding.target_value;
      depends_on_keys = none;
      registry_refs = none;
    })
    ∷ []
oracle_by_status _ label finding context =
    draft (record {
      finding = finding;
      key = template ("oracle:" ∷ label ∷ []);
      rule_id = ident;
      rule_version = "1";
      title = template ("Review " ∷ label ∷ " remap for " ∷ context.target_chain_name ∷ []);
      description =
          if looks_like_address finding.target_value
          then template (
              "Remap "
              ∷ label
              ∷ " to the catalogued target feed "
              ∷ (or_else finding.target_value "null")
              ∷ ". Oracle decimals, heartbeat, and stale-price handling still need developer review."
              ∷ [])
          else template (
              label ∷ " is available on " ∷ context.target_chain_name
              ∷ ", but no verified feed address is catalogued." ∷ []);
      technical_reason = finding.technical_reason;
      category = MigrationActionCategory.oracle_feed;
      stage = MigrationStage.oracles;
      automation_level = MigrationAutomationLevel.review_required;
      risk_level = MigrationRiskLevel.medium;
      action_status = MigrationActionStatus.planned;
      source_value = finding.source_value;
      target_value = finding.target_value;
      depends_on_keys = none;
      registry_refs = none;
    })
    ∷ []

oracle_actions : PlannedFinding → PlanContext → List MigrationActionDraft
unfolding oracle_by_status
oracle_actions finding context =
    oracle_by_status finding.status (oracle_label (get_string "pair" finding.registry_evidence))
      finding context

unfoldable pub oracle_rule : MigrationRule
unfolding oracle_actions
oracle_rule = record {
  id = ident;
  version = "1";
  supports = λ finding. (finding.rule_id === "oracle-availability") && not (is_pass finding.status);
  throws = λ _. false;
  create_actions = oracle_actions;
}
