-- ===== src/Migration/Rules/HardcodedAddress.antt =====
-- packages/migration/src/rules/hardcoded-address.ts
use chain_port.Prelude.{false, String, not, ◌&&◌, none, List, [], ◌∷◌, ◌===◌, template}
use chain_port.Shared.Enums.{
  MigrationAutomationLevel, MigrationRiskLevel, MigrationActionStatus, MigrationStage,
  MigrationActionCategory, is_pass,
}
use chain_port.Migration.Types.{PlannedFinding, PlanContext, MigrationActionDraft, MigrationRule}
use chain_port.Migration.Action.{draft}

abbrev ident : String
ident = "unknown-address"

unknown_address_actions : PlannedFinding → PlanContext → List MigrationActionDraft
unknown_address_actions finding context =
    draft (record {
      finding = finding;
      key = "unknown-address";
      rule_id = ident;
      rule_version = "1";
      title =
          template
            ("Identify unclassified hardcoded addresses on " ∷ context.target_chain_name ∷ []);
      description = template (
          "Hardcoded addresses are not in the token or infrastructure catalog, so ChainPort cannot map them. Identify each contract and confirm whether a "
          ∷ context.target_chain_name
          ∷ " deployment exists. This is not a fabricated equivalent and not a blocker." ∷ []);
      technical_reason = finding.technical_reason;
      category = MigrationActionCategory.unknown_address;
      stage = MigrationStage.manual_review;
      automation_level = MigrationAutomationLevel.unknown;
      risk_level = MigrationRiskLevel.medium;
      action_status = MigrationActionStatus.unknown;
      source_value = finding.source_value;
      target_value = none;
      depends_on_keys = none;
      registry_refs = none;
    })
    ∷ []

unfoldable pub unknown_address_rule : MigrationRule
unfolding unknown_address_actions
unknown_address_rule = record {
  id = ident;
  version = "1";
  supports = λ finding. (finding.rule_id === "hardcoded-address") && not (is_pass finding.status);
  throws = λ _. false;
  create_actions = unknown_address_actions;
}
