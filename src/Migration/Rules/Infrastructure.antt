-- ===== src/Migration/Rules/Infrastructure.antt =====
-- packages/migration/src/rules/infrastructure.ts
use chain_port.Prelude.{
  false, String, not, ◌&&◌, none, some, List, [], ◌∷◌, if◌then◌else◌, or_else, template, elem,
}
use chain_port.Shared.Enums.{
  CompatibilityStatus, MigrationAutomationLevel, MigrationRiskLevel, MigrationActionStatus,
  MigrationStage, MigrationActionCategory, is_pass,
}
use chain_port.Migration.Types.{PlannedFinding, PlanContext, MigrationActionDraft, MigrationRule}
use chain_port.Migration.Action.{draft, looks_like_address, chain_id_key}

abbrev ident : String
ident = "infrastructure-address"

infrastructure_address_by_status :
    CompatibilityStatus → String → PlannedFinding → PlanContext → List MigrationActionDraft
infrastructure_address_by_status CompatibilityStatus.blocker name finding context =
    draft (record {
      finding = finding;
      key = template ("infra-blocked:" ∷ name ∷ []);
      rule_id = ident;
      rule_version = "1";
      title =
          template ("Required " ∷ name ∷ " is unavailable on " ∷ context.target_chain_name ∷ []);
      description = template (
          "The target registry marks " ∷ name
          ∷ " unavailable. No alternate protocol is substituted." ∷ []);
      technical_reason = finding.technical_reason;
      category = MigrationActionCategory.blocked_infrastructure;
      stage = MigrationStage.infrastructure_contracts;
      automation_level = MigrationAutomationLevel.blocked;
      risk_level = MigrationRiskLevel.critical;
      action_status = MigrationActionStatus.blocked;
      source_value = finding.source_value;
      target_value = finding.target_value;
      depends_on_keys = none;
      registry_refs = none;
    })
    ∷ []
infrastructure_address_by_status CompatibilityStatus.unknown name finding context =
    draft (record {
      finding = finding;
      key = template ("infra-unknown:" ∷ name ∷ []);
      rule_id = ident;
      rule_version = "1";
      title = template ("Verify " ∷ name ∷ " on " ∷ context.target_chain_name ∷ []);
      description = template (
          "ChainPort cannot produce a " ∷ name
          ∷ " migration action because target availability is not verified." ∷ []);
      technical_reason = finding.technical_reason;
      category = MigrationActionCategory.infrastructure_address;
      stage = MigrationStage.infrastructure_contracts;
      automation_level = MigrationAutomationLevel.unknown;
      risk_level = MigrationRiskLevel.high;
      action_status = MigrationActionStatus.unknown;
      source_value = finding.source_value;
      target_value = finding.target_value;
      depends_on_keys = none;
      registry_refs = none;
    })
    ∷ []
infrastructure_address_by_status _ name finding context =
    draft (record {
      finding = finding;
      key = template ("infra:" ∷ name ∷ []);
      rule_id = ident;
      rule_version = "1";
      title = template ("Review " ∷ name ∷ " target mapping for " ∷ context.target_chain_name ∷ []);
      description =
          if looks_like_address finding.target_value
          then template (
              name
              ∷ " has a catalogued target value "
              ∷ (or_else finding.target_value "null")
              ∷ ". Confirm deployment semantics before automation."
              ∷ [])
          else template (
              name ∷ " is recorded as available on " ∷ context.target_chain_name
              ∷ ", but no verified address mapping is catalogued." ∷ []);
      technical_reason = finding.technical_reason;
      category = MigrationActionCategory.infrastructure_address;
      stage = MigrationStage.infrastructure_contracts;
      automation_level = MigrationAutomationLevel.review_required;
      risk_level = MigrationRiskLevel.medium;
      action_status = MigrationActionStatus.planned;
      source_value = finding.source_value;
      target_value = finding.target_value;
      depends_on_keys = some (chain_id_key context ∷ []);
      registry_refs = none;
    })
    ∷ []

infrastructure_address_actions : PlannedFinding → PlanContext → List MigrationActionDraft
unfolding infrastructure_address_by_status
infrastructure_address_actions finding context =
    infrastructure_address_by_status finding.status
      (or_else finding.requirement_key finding.rule_id) finding context

unfoldable pub infrastructure_address_rule : MigrationRule
unfolding infrastructure_address_actions
infrastructure_address_rule = record {
  id = ident;
  version = "1";
  supports = λ finding.
      elem finding.rule_id ("infrastructure-contract" ∷ "uniswap" ∷ [])
      && not (is_pass finding.status);
  throws = λ _. false;
  create_actions = infrastructure_address_actions;
}
