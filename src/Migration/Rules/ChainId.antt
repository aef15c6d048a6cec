-- ===== src/Migration/Rules/ChainId.antt =====
-- packages/migration/src/rules/chain-id.ts
use chain_port.Prelude.{
  false, String, not, ◌&&◌, none, some, List, [], ◌∷◌, if◌then◌else◌, ◌===◌, or_else, template,
  decimal,
}
use chain_port.Shared.Enums.{
  MigrationAutomationLevel, MigrationRiskLevel, MigrationActionStatus, MigrationStage,
  MigrationActionCategory, is_pass, is_frontend,
}
use chain_port.Migration.Types.{PlannedFinding, PlanContext, MigrationActionDraft, MigrationRule}
use chain_port.Migration.Action.{draft, chain_id_key}

abbrev ident : String
ident = "chain-id"

chain_id_actions : PlannedFinding → PlanContext → List MigrationActionDraft
chain_id_actions finding context =
    let frontend = is_frontend finding.category in
    draft (record {
      finding = finding;
      key =
          if frontend
          then template (
              "frontend-chain-id:"
              ∷ (decimal context.source_chain_id)
              ∷ "->"
              ∷ (decimal context.target_chain_id)
              ∷ [])
          else chain_id_key context;
      rule_id = ident;
      rule_version = "1";
      title =
          if frontend
          then template (
              "Update frontend chain ID from " ∷ context.source_chain_name ∷ " to "
              ∷ context.target_chain_name ∷ [])
          else template (
              "Replace "
              ∷ context.source_chain_name
              ∷ " chain ID "
              ∷ (decimal context.source_chain_id)
              ∷ " with "
              ∷ context.target_chain_name
              ∷ " chain ID "
              ∷ (decimal context.target_chain_id)
              ∷ []);
      description =
          if frontend
          then template (
              "Frontend network configuration still targets "
              ∷ context.source_chain_name
              ∷ " ("
              ∷ (decimal context.source_chain_id)
              ∷ ") and must use "
              ∷ context.target_chain_name
              ∷ " ("
              ∷ (decimal context.target_chain_id)
              ∷ ")."
              ∷ [])
          else template (
              "Network configuration hardcodes chain ID "
              ∷ (decimal context.source_chain_id)
              ∷ " ("
              ∷ context.source_chain_name
              ∷ "). Replace it with "
              ∷ (decimal context.target_chain_id)
              ∷ " ("
              ∷ context.target_chain_name
              ∷ ")."
              ∷ []);
      technical_reason = finding.technical_reason;
      category =
          if frontend
          then MigrationActionCategory.frontend_network
          else MigrationActionCategory.chain_id;
      stage =
          if frontend
          then MigrationStage.frontend_configuration
          else MigrationStage.network_configuration;
      automation_level = MigrationAutomationLevel.safe_automatic;
      risk_level = MigrationRiskLevel.low;
      action_status = MigrationActionStatus.planned;
      source_value = some (or_else finding.source_value (decimal context.source_chain_id));
      target_value = some (decimal context.target_chain_id);
      depends_on_keys = some (if frontend then chain_id_key context ∷ [] else []);
      registry_refs = none;
    })
    ∷ []

unfoldable pub chain_id_rule : MigrationRule
unfolding chain_id_actions
chain_id_rule = record {
  id = ident;
  version = "1";
  supports = λ finding. (finding.rule_id === "chain-id") && not (is_pass finding.status);
  throws = λ _. false;
  create_actions = chain_id_actions;
}
