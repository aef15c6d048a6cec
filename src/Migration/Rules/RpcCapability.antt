-- ===== src/Migration/Rules/RpcCapability.antt =====
-- packages/migration/src/rules/rpc-capability.ts
use chain_port.Prelude.{
  false, String, not, ◌&&◌, none, some, List, [], ◌∷◌, ◌===◌, or_else, template,
}
use chain_port.Shared.Enums.{
  CompatibilityStatus, MigrationAutomationLevel, MigrationRiskLevel, MigrationActionStatus,
  MigrationStage, MigrationActionCategory, is_pass,
}
use chain_port.Migration.Types.{PlannedFinding, PlanContext, MigrationActionDraft, MigrationRule}
use chain_port.Migration.Action.{draft}

abbrev ident : String
ident = "rpc-capability"

rpc_capability_by_status :
    CompatibilityStatus → String → PlannedFinding → PlanContext → List MigrationActionDraft
rpc_capability_by_status CompatibilityStatus.blocker method finding context =
    draft (record {
      finding = finding;
      key = template ("rpc-capability-blocked:" ∷ method ∷ []);
      rule_id = ident;
      rule_version = "1";
      title = template ("Application depends on unsupported RPC method " ∷ method ∷ []);
      description = template (
          context.target_chain_name ∷ " explicitly does not support " ∷ method
          ∷ ". This is a network capability gap, not a public-RPC provider setting ChainPort can swap."
          ∷ []);
      technical_reason = finding.technical_reason;
      category = MigrationActionCategory.rpc_capability;
      stage = MigrationStage.rpc_and_explorer;
      automation_level = MigrationAutomationLevel.blocked;
      risk_level = MigrationRiskLevel.critical;
      action_status = MigrationActionStatus.blocked;
      source_value = some method;
      target_value = some "UNAVAILABLE";
      depends_on_keys = none;
      registry_refs = none;
    })
    ∷ []
rpc_capability_by_status _ method finding context =
    draft (record {
      finding = finding;
      key = template ("rpc-capability-unknown:" ∷ method ∷ []);
      rule_id = ident;
      rule_version = "1";
      title = template ("Verify RPC method " ∷ method ∷ " on " ∷ context.target_chain_name ∷ []);
      description = template (
          "ChainPort has no verified " ∷ method ∷ " data for " ∷ context.target_chain_name
          ∷ ". EVM compatibility does not imply this method exists." ∷ []);
      technical_reason = finding.technical_reason;
      category = MigrationActionCategory.rpc_capability;
      stage = MigrationStage.rpc_and_explorer;
      automation_level = MigrationAutomationLevel.unknown;
      risk_level = MigrationRiskLevel.high;
      action_status = MigrationActionStatus.unknown;
      source_value = some method;
      target_value = some "UNKNOWN";
      depends_on_keys = none;
      registry_refs = none;
    })
    ∷ []

rpc_capability_actions : PlannedFinding → PlanContext → List MigrationActionDraft
unfolding rpc_capability_by_status
rpc_capability_actions finding context =
    rpc_capability_by_status finding.status (or_else finding.source_value "RPC method") finding
      context

unfoldable pub rpc_capability_rule : MigrationRule
unfolding rpc_capability_actions
rpc_capability_rule = record {
  id = ident;
  version = "1";
  supports = λ finding. (finding.rule_id === "rpc-capability") && not (is_pass finding.status);
  throws = λ _. false;
  create_actions = rpc_capability_actions;
}
