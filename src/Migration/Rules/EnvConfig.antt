-- ===== src/Migration/Rules/EnvConfig.antt =====
-- packages/migration/src/rules/env-config.ts
use chain_port.Prelude.{
  String, Bool, true, false, not, ◌&&◌, ◌||◌, Option, none, some, List, [], ◌∷◌, if◌then◌else◌,
  ◌===◌, or_else, template, join, decimal, contains_ignoring_case, replace_dashes,
}
use chain_port.Shared.Enums.{
  MigrationAutomationLevel, MigrationRiskLevel, MigrationActionStatus, MigrationStage,
  MigrationActionCategory, is_pass,
}
use chain_port.Shared.Json.{get_field, get_string}
use chain_port.Migration.Types.{PlannedFinding, PlanContext, MigrationActionDraft, MigrationRule}
use chain_port.Migration.Action.{draft, json_list, chain_id_key}
use chain_port.Migration.Rules.RpcUrl.{only_url}

abbrev ident : String
ident = "env-config"

abbrev network_names : List String
network_names =
    "SEPOLIA" ∷ "GOERLI" ∷ "HOLESKY" ∷ "MAINNET" ∷ "ARBITRUM" ∷ "OPTIMISM" ∷ "ETHEREUM" ∷ "BASE"
    ∷ []

abbrev names_any : List String → String → Bool
names_any [] key = false
names_any (name ∷ rest) key = contains_ignoring_case name key || names_any rest key

-- `new RegExp(context.targetChainKey.replaceAll("-", "_"), "i")`
abbrev pub target_test : PlanContext → Option (String → Bool)
target_test context = context.reg_exp (replace_dashes context.target_chain_key)

abbrev pub is_refused : Option (String → Bool) → Bool
is_refused none = true
is_refused (some test) = false

abbrev passes : Option (String → Bool) → String → Bool
passes none key = false
passes (some test) key = test key

-- The action for the environment key `key`: whether it is an RPC key, its only URL, and whether it
-- names a network, or the target.
env_config_draft :
    String
    → Bool
    → Option String
    → List String
    → Bool
    → Bool
    → PlannedFinding
    → PlanContext
    → MigrationActionDraft
env_config_draft key rpc canonical urls named_network names_target finding context =
    let target =
      if rpc then or_else canonical (join ", " urls) else decimal context.target_chain_id in
    let has_url : Bool = elim canonical [ none ↦ false | some _ ↦ true ] in
    let automatic = (if rpc then has_url else true) && (not named_network || names_target) in
    draft (record {
      finding = finding;
      key = template ("env:" ∷ key ∷ []);
      rule_id = ident;
      rule_version = "1";
      title = template ("Update environment key " ∷ key ∷ " for " ∷ context.target_chain_name ∷ []);
      description =
          if not automatic && named_network && not names_target
          then template (
              "Environment key " ∷ key ∷ " names a network other than " ∷ context.target_chain_name
              ∷ ". Review before replacing its value." ∷ [])
          else (if rpc
              then (if automatic
                  then template (
                      "Set "
                      ∷ key
                      ∷ " to the catalogued "
                      ∷ context.target_chain_name
                      ∷ " RPC "
                      ∷ (or_else canonical "null")
                      ∷ "."
                      ∷ [])
                  else template (
                      "Set " ∷ key ∷ " to a " ∷ context.target_chain_name
                      ∷ " RPC. Multiple catalogued endpoints exist; do not auto-pick." ∷ []))
              else template (
                  "Set "
                  ∷ key
                  ∷ " to "
                  ∷ context.target_chain_name
                  ∷ " chain ID "
                  ∷ (decimal context.target_chain_id)
                  ∷ "."
                  ∷ []));
      technical_reason = finding.technical_reason;
      category = MigrationActionCategory.env_config;
      stage = if rpc then MigrationStage.rpc_and_explorer else MigrationStage.network_configuration;
      automation_level =
          if automatic
          then MigrationAutomationLevel.safe_automatic
          else MigrationAutomationLevel.review_required;
      risk_level = MigrationRiskLevel.low;
      action_status = MigrationActionStatus.planned;
      source_value = finding.source_value;
      target_value = some target;
      depends_on_keys = some (chain_id_key context ∷ []);
      registry_refs = none;
    })

env_config_actions : PlannedFinding → PlanContext → List MigrationActionDraft
unfolding env_config_draft
env_config_actions finding context =
    let key =
      or_else (get_string "envKey" finding.registry_evidence)
        (or_else finding.source_value "ENV") in
    let urls = json_list (get_field "targetRpcUrls" finding.registry_evidence) in
    env_config_draft key (contains_ignoring_case "RPC" key) (only_url urls) urls
      (names_any network_names key) (passes (target_test context) key) finding context
    ∷ []

unfoldable pub env_config_rule : MigrationRule
unfolding env_config_actions
env_config_rule = record {
  id = ident;
  version = "1";
  supports = λ finding. (finding.rule_id === "env-config") && not (is_pass finding.status);
  throws = λ context. is_refused (target_test context);
  create_actions = env_config_actions;
}
