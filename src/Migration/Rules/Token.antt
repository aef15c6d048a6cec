-- ===== src/Migration/Rules/Token.antt =====
-- packages/migration/src/rules/token.ts
use chain_port.Prelude.{
  false, String, not, ◌&&◌, none, some, List, [], ◌∷◌, if◌then◌else◌, ◌===◌, or_else, template,
}
use chain_port.Shared.Enums.{
  CompatibilityStatus, MigrationAutomationLevel, MigrationRiskLevel, MigrationActionStatus,
  MigrationStage, MigrationActionCategory, is_pass,
}
use chain_port.Shared.Json.{get_string}
use chain_port.Migration.Types.{PlannedFinding, PlanContext, MigrationActionDraft, MigrationRule}
use chain_port.Migration.Action.{draft, looks_like_address, chain_id_key}

abbrev ident : String
ident = "token-address"

token_unknown : String → PlannedFinding → PlanContext → MigrationActionDraft
token_unknown symbol finding context = draft (record {
  finding = finding;
  key = template ("token-unknown:" ∷ symbol ∷ []);
  rule_id = ident;
  rule_version = "1";
  title = template ("Verify " ∷ symbol ∷ " deployment on " ∷ context.target_chain_name ∷ []);
  description = template (
      "ChainPort cannot produce a " ∷ symbol
      ∷ " address mapping because the target deployment is not verified." ∷ []);
  technical_reason = finding.technical_reason;
  category = MigrationActionCategory.token_address;
  stage = MigrationStage.token_mappings;
  automation_level = MigrationAutomationLevel.unknown;
  risk_level = MigrationRiskLevel.high;
  action_status = MigrationActionStatus.unknown;
  source_value = finding.source_value;
  target_value = finding.target_value;
  depends_on_keys = none;
  registry_refs = none;
})

token_remap : String → PlannedFinding → PlanContext → MigrationActionDraft
token_remap symbol finding context =
    let weth = symbol === "WETH" in
    draft (record {
      finding = finding;
      key = template (
          "token:"
          ∷ symbol
          ∷ ":"
          ∷ (or_else finding.source_value "null")
          ∷ "->"
          ∷ (or_else finding.target_value "null")
          ∷ []);
      rule_id = ident;
      rule_version = "1";
      title = template (
          "Remap " ∷ symbol ∷ " from " ∷ context.source_chain_name ∷ " to "
          ∷ context.target_chain_name ∷ []);
      description =
          if weth
          then template (
              "Replace the source wrapped-native address with the catalogued "
              ∷ context.target_chain_name
              ∷ " WETH address. Wrapped-native variants differ by chain, so this mapping needs review."
              ∷ [])
          else template (
              "Replace the source-chain " ∷ symbol ∷ " address with the verified "
              ∷ context.target_chain_name ∷ " " ∷ symbol
              ∷ " address. USDC is not substituted with USDT or another token." ∷ []);
      technical_reason = finding.technical_reason;
      category = MigrationActionCategory.token_address;
      stage = MigrationStage.token_mappings;
      automation_level =
          if weth
          then MigrationAutomationLevel.review_required
          else MigrationAutomationLevel.safe_automatic;
      risk_level = if weth then MigrationRiskLevel.medium else MigrationRiskLevel.low;
      action_status = MigrationActionStatus.planned;
      source_value = finding.source_value;
      target_value = finding.target_value;
      depends_on_keys = some (chain_id_key context ∷ []);
      registry_refs = none;
    })

token_by_status :
    CompatibilityStatus → String → PlannedFinding → PlanContext → List MigrationActionDraft
unfolding token_unknown token_remap
token_by_status CompatibilityStatus.blocker symbol finding context =
    draft (record {
      finding = finding;
      key = template ("token-blocked:" ∷ symbol ∷ []);
      rule_id = ident;
      rule_version = "1";
      title =
          template
            ("Required token " ∷ symbol ∷ " is unavailable on " ∷ context.target_chain_name ∷ []);
      description = template (
          "Migration cannot remap " ∷ symbol
          ∷ "; the target registry marks it unavailable. No substitute token is assumed." ∷ []);
      technical_reason = finding.technical_reason;
      category = MigrationActionCategory.blocked_infrastructure;
      stage = MigrationStage.token_mappings;
      automation_level = MigrationAutomationLevel.blocked;
      risk_level = MigrationRiskLevel.critical;
      action_status = MigrationActionStatus.blocked;
      source_value = finding.source_value;
      target_value = finding.target_value;
      depends_on_keys = none;
      registry_refs = none;
    })
    ∷ []
token_by_status CompatibilityStatus.unknown symbol finding context =
    token_unknown symbol finding context ∷ []
token_by_status _ symbol finding context =
    if not (looks_like_address finding.target_value)
    then token_unknown symbol finding context ∷ []
    else token_remap symbol finding context ∷ []

token_address_actions : PlannedFinding → PlanContext → List MigrationActionDraft
unfolding token_by_status
token_address_actions finding context =
    token_by_status finding.status
      (or_else (get_string "symbol" finding.registry_evidence)
        (or_else finding.requirement_key "TOKEN"))
      finding context

unfoldable pub token_address_rule : MigrationRule
unfolding token_address_actions
token_address_rule = record {
  id = ident;
  version = "1";
  supports = λ finding. (finding.rule_id === "token-availability") && not (is_pass finding.status);
  throws = λ _. false;
  create_actions = token_address_actions;
}
