-- ===== src/Migration/Rules/CrossChain.antt =====
-- packages/migration/src/rules/cross-chain.ts
use chain_port.Prelude.{false, String, not, ◌&&◌, none, List, [], ◌∷◌, ◌===◌, template}
use chain_port.Shared.Enums.{
  CompatibilityStatus, MigrationAutomationLevel, MigrationRiskLevel, MigrationActionStatus,
  MigrationStage, MigrationActionCategory, is_pass,
}
use chain_port.Migration.Types.{PlannedFinding, PlanContext, MigrationActionDraft, MigrationRule}
use chain_port.Migration.Action.{draft}

abbrev ident : String
ident = "cross-chain"

cross_chain_by_status :
    CompatibilityStatus → PlannedFinding → PlanContext → List MigrationActionDraft
cross_chain_by_status CompatibilityStatus.blocker finding context =
    draft (record {
      finding = finding;
      key = "cross-chain-blocked:LAYERZERO";
      rule_id = ident;
      rule_version = "1";
      title = template ("LayerZero is unsupported on " ∷ context.target_chain_name ∷ []);
      description =
          "Migration cannot remap this cross-chain integration. Another bridge is not treated as a substitute.";
      technical_reason = finding.technical_reason;
      category = MigrationActionCategory.blocked_infrastructure;
      stage = MigrationStage.cross_chain;
      automation_level = MigrationAutomationLevel.blocked;
      risk_level = MigrationRiskLevel.critical;
      action_status = MigrationActionStatus.blocked;
      source_value = finding.source_value;
      target_value = finding.target_value;
      depends_on_keys = none;
      registry_refs = none;
    })
    ∷ []
cross_chain_by_status CompatibilityStatus.unknown finding context =
    draft (record {
      finding = finding;
      key = "cross-chain-unknown:LAYERZERO";
      rule_id = ident;
      rule_version = "1";
      title = template ("Verify LayerZero on " ∷ context.target_chain_name ∷ []);
      description = template (
          "ChainPort cannot produce a migration action because LayerZero availability on "
          ∷ context.target_chain_name
          ∷ " is not verified. This does not mean LayerZero is unavailable." ∷ []);
      technical_reason = finding.technical_reason;
      category = MigrationActionCategory.cross_chain;
      stage = MigrationStage.cross_chain;
      automation_level = MigrationAutomationLevel.unknown;
      risk_level = MigrationRiskLevel.high;
      action_status = MigrationActionStatus.unknown;
      source_value = finding.source_value;
      target_value = finding.target_value;
      depends_on_keys = none;
      registry_refs = none;
    })
    ∷ []
cross_chain_by_status _ finding context =
    draft (record {
      finding = finding;
      key = "cross-chain:LAYERZERO";
      rule_id = ident;
      rule_version = "1";
      title =
          template
            ("Review LayerZero endpoint configuration for " ∷ context.target_chain_name ∷ []);
      description = template (
          "LayerZero is catalogued on " ∷ context.target_chain_name
          ∷ ". Cross-chain endpoint remaps are security-sensitive and stay review-required." ∷ []);
      technical_reason = finding.technical_reason;
      category = MigrationActionCategory.cross_chain;
      stage = MigrationStage.cross_chain;
      automation_level = MigrationAutomationLevel.review_required;
      risk_level = MigrationRiskLevel.high;
      action_status = MigrationActionStatus.planned;
      source_value = finding.source_value;
      target_value = finding.target_value;
      depends_on_keys = none;
      registry_refs = none;
    })
    ∷ []

cross_chain_actions : PlannedFinding → PlanContext → List MigrationActionDraft
unfolding cross_chain_by_status
cross_chain_actions finding context = cross_chain_by_status finding.status finding context

unfoldable pub cross_chain_rule : MigrationRule
unfolding cross_chain_actions
cross_chain_rule = record {
  id = ident;
  version = "1";
  supports = λ finding. (finding.rule_id === "layerzero") && not (is_pass finding.status);
  throws = λ _. false;
  create_actions = cross_chain_actions;
}
