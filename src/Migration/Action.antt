-- ===== src/Migration/Action.antt =====
-- packages/migration/src/action.ts: the parts that the rules share.
use chain_port.Prelude.{
  String, Bool, false, Option, none, some, List, [], ◌∷◌, map, or_else, address_pattern, template,
  decimal,
}
use chain_port.Shared.Enums.{
  MigrationAutomationLevel, MigrationRiskLevel, MigrationActionStatus, MigrationStage,
  MigrationActionCategory,
}
use chain_port.Shared.Json.{Json, str, arr, Items, nil, item, JsonObject}
use chain_port.Migration.Types.{PlannedEvidence, PlannedFinding, PlanContext, MigrationActionDraft}

abbrev pub evidence_items : PlannedFinding → List PlannedEvidence → List PlannedEvidence
evidence_items finding [] =
    record {
      finding_id = finding.id;
      evidence_id = none;
      file_path = "";
      start_line = 0;
      excerpt = finding.summary;
    }
    ∷ []
evidence_items finding (e ∷ es) =
    map (λ (x : PlannedEvidence). record x { finding_id = finding.id }) (e ∷ es)

abbrev pub evidence_from : PlannedFinding → List PlannedEvidence
evidence_from finding = evidence_items finding finding.evidence

string_list : Items → List String
string_list nil = []
string_list (item (str s) rest) = s ∷ string_list rest
string_list (item _ rest) = string_list rest

unfoldable pub json_list : Option Json → List String
unfolding string_list
json_list (some (arr items)) = string_list items
json_list _ = []

unfoldable pub looks_like_address : Option String → Bool
looks_like_address none = false
looks_like_address (some value) = address_pattern value

-- The argument of `draft`.
pub record PartialDraft : Type 0 where
  pub finding : PlannedFinding
  pub key : String
  pub rule_id : String
  pub rule_version : String
  pub title : String
  pub description : String
  pub technical_reason : String
  pub category : MigrationActionCategory
  pub stage : MigrationStage
  pub automation_level : MigrationAutomationLevel
  pub risk_level : MigrationRiskLevel
  pub action_status : MigrationActionStatus
  pub source_value : Option String
  pub target_value : Option String
  pub depends_on_keys : Option (List String)
  pub registry_refs : Option JsonObject

abbrev pub draft : PartialDraft → MigrationActionDraft
draft partial = record {
  key = partial.key;
  rule_id = partial.rule_id;
  rule_version = partial.rule_version;
  title = partial.title;
  description = partial.description;
  technical_reason = partial.technical_reason;
  category = partial.category;
  stage = partial.stage;
  automation_level = partial.automation_level;
  risk_level = partial.risk_level;
  action_status = partial.action_status;
  source_value = partial.source_value;
  target_value = partial.target_value;
  finding_ids = partial.finding.id ∷ [];
  evidence = evidence_from partial.finding;
  depends_on_keys = or_else partial.depends_on_keys [];
  registry_refs = or_else partial.registry_refs partial.finding.registry_evidence;
}

-- The key of the action that replaces the chain ID, which other actions depend on.
abbrev pub chain_id_key : PlanContext → String
chain_id_key context =
    template
      ("chain-id:" ∷ decimal context.source_chain_id ∷ "->" ∷ decimal context.target_chain_id ∷ [])
