-- ===== src/Migration/Rules/RpcUrl.antt =====
-- packages/migration/src/rules/rpc-url.ts
use chain_port.Prelude.{
  String, Bool, true, false, not, ◌&&◌, Option, none, some, List, [], ◌∷◌, if◌then◌else◌, ◌===◌,
  or_else, template, join, decimal, length,
}
use chain_port.Shared.Enums.{
  MigrationAutomationLevel, MigrationRiskLevel, MigrationActionStatus, MigrationStage,
  MigrationActionCategory, is_pass, is_frontend,
}
use chain_port.Shared.Json.{get_field, set_field, arr, string_items}
use chain_port.Migration.Types.{PlannedFinding, PlanContext, MigrationActionDraft, MigrationRule}
use chain_port.Migration.Action.{draft, json_list, chain_id_key}

abbrev ident : String
ident = "rpc-url"

-- `urls.length === 1 ? urls[0] : null`
abbrev pub only_url : List String → Option String
only_url (url ∷ []) = some url
only_url _ = none

abbrev pub or_default : List String → List String → List String
or_default [] urls = urls
or_default (url ∷ rest) urls = url ∷ rest

-- The action that is written for `urls`.
rpc_url_draft : List String → PlannedFinding → PlanContext → MigrationActionDraft
rpc_url_draft urls finding context =
    let canonical = only_url urls in
    let frontend = is_frontend finding.category in
    let automatic : Bool = elim canonical [ none ↦ false | some _ ↦ true ] in
    draft (record {
      finding = finding;
      key =
          if frontend
          then template ("frontend-rpc:" ∷ (or_else finding.source_value "") ∷ [])
          else template ("rpc-url:" ∷ (or_else finding.source_value "") ∷ []);
      rule_id = ident;
      rule_version = "1";
      title = template ("Replace source-chain RPC endpoint for " ∷ context.target_chain_name ∷ []);
      description =
          if automatic
          then template (
              "Replace the detected source RPC with the catalogued "
              ∷ context.target_chain_name
              ∷ " endpoint "
              ∷ (or_else canonical "null")
              ∷ "."
              ∷ [])
          else template (
              "Replace the detected source RPC. "
              ∷ context.target_chain_name
              ∷ " has "
              ∷ (decimal (length urls))
              ∷ " catalogued endpoints; choose one rather than auto-selecting."
              ∷ []);
      technical_reason = finding.technical_reason;
      category =
          if frontend
          then MigrationActionCategory.frontend_network
          else MigrationActionCategory.rpc_url;
      stage =
          if frontend
          then MigrationStage.frontend_configuration
          else MigrationStage.rpc_and_explorer;
      automation_level =
          if automatic
          then MigrationAutomationLevel.safe_automatic
          else MigrationAutomationLevel.review_required;
      risk_level = MigrationRiskLevel.low;
      action_status = MigrationActionStatus.planned;
      source_value = finding.source_value;
      target_value = some (or_else canonical (join ", " urls));
      depends_on_keys = some (chain_id_key context ∷ []);
      registry_refs =
          some (set_field "targetRpcUrls" (arr (string_items urls)) finding.registry_evidence);
    })

rpc_url_actions : PlannedFinding → PlanContext → List MigrationActionDraft
unfolding rpc_url_draft
rpc_url_actions finding context =
    rpc_url_draft
      (or_default (json_list (get_field "targetRpcUrls" finding.registry_evidence))
        context.target_rpc_urls)
      finding context
    ∷ []

unfoldable pub rpc_url_rule : MigrationRule
unfolding rpc_url_actions
rpc_url_rule = record {
  id = ident;
  version = "1";
  supports = λ finding. (finding.rule_id === "hardcoded-rpc") && not (is_pass finding.status);
  throws = λ _. false;
  create_actions = rpc_url_actions;
}
