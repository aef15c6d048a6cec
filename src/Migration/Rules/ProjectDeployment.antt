-- ===== src/Migration/Rules/ProjectDeployment.antt =====
-- packages/migration/src/rules/project-deployment.ts
use chain_port.Prelude.{false, String, not, ◌&&◌, none, List, [], ◌∷◌, ◌===◌, or_else, template}
use chain_port.Shared.Enums.{
  MigrationAutomationLevel, MigrationRiskLevel, MigrationActionStatus, MigrationStage,
  MigrationActionCategory, is_pass,
}
use chain_port.Shared.Json.{get_string}
use chain_port.Migration.Types.{PlannedFinding, PlanContext, MigrationActionDraft, MigrationRule}
use chain_port.Migration.Action.{draft}

abbrev ident : String
ident = "project-deployment"

project_deployment_actions : PlannedFinding → PlanContext → List MigrationActionDraft
project_deployment_actions finding context =
    let name =
      or_else (get_string "contractName" finding.registry_evidence)
        (or_else finding.source_value "project contract") in
    draft (record {
      finding = finding;
      key = template ("project-deployment:" ∷ name ∷ []);
      rule_id = ident;
      rule_version = "1";
      title = template ("Redeploy " ∷ name ∷ " on " ∷ context.target_chain_name ∷ []);
      description = template (
          name ∷ " is a repository contract with source-chain deployment addresses. Redeploy it on "
          ∷ context.target_chain_name ∷ " and replace every stored address." ∷ []);
      technical_reason = finding.technical_reason;
      category = MigrationActionCategory.env_config;
      stage = MigrationStage.deployment_configuration;
      automation_level = MigrationAutomationLevel.review_required;
      risk_level = MigrationRiskLevel.medium;
      action_status = MigrationActionStatus.planned;
      source_value = finding.source_value;
      target_value = none;
      depends_on_keys = none;
      registry_refs = none;
    })
    ∷ []

unfoldable pub project_deployment_rule : MigrationRule
unfolding project_deployment_actions
project_deployment_rule = record {
  id = ident;
  version = "1";
  supports = λ finding. (finding.rule_id === "project-deployment") && not (is_pass finding.status);
  throws = λ _. false;
  create_actions = project_deployment_actions;
}
