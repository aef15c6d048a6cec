-- ===== src/Migration/Engine.antt =====
-- packages/migration/src/engine.ts
pub mod Drafts
pub mod Edges
pub mod Contract
pub mod Outcome
use Prim.Native.Nat.{Ordering}
use chain_port.Prelude.{
  ℕ, String, Bool, false, any, not, ◌&&◌, Option, none, some, List, [], ◌∷◌, ◌++◌, map, find, elem,
  if◌then◌else◌, ltb, ◌==◌, ◌===◌, Result, ok, err,
}
use chain_port.Shared.Enums.{is_pass}
use chain_port.Migration.Types.{
  PlannedFinding, PlanContext, MigrationActionDraft, MigrationRule, OrderedMigrationAction,
  ActionCounts, MigrationPlanResult,
}
use chain_port.Migration.Dependencies.{Dependency, MigrationError, invalid_reg_exp}
use chain_port.Migration.Dedupe.{merge_drafts}
use chain_port.Migration.Ordering.{order_actions}
use chain_port.Migration.Status.{count_actions, determine_plan_outcome, auto_fixable_percent}
use chain_port.Migration.Rules.{migration_rules}

-- The edges from one action, `dependencies_of key keys` over what it depends on.
dependencies_of : List String → String → List String → List Dependency
dependencies_of keys key [] = []
dependencies_of keys key (on ∷ rest) =
    let later = dependencies_of keys key rest in
    if elem on keys && not (on === key)
    then record { action_key = key; depends_on_key = on } ∷ later
    else later

pub resolved_dependencies : List String → List MigrationActionDraft → List Dependency
unfolding dependencies_of
resolved_dependencies keys [] = []
resolved_dependencies keys (a ∷ rest) =
    dependencies_of keys a.key a.depends_on_keys ++ resolved_dependencies keys rest

abbrev pub actions_by :
    Option MigrationRule → PlannedFinding → PlanContext → List MigrationActionDraft
actions_by none finding context = []
actions_by (some rule) finding context = rule.create_actions finding context

abbrev pub planning_rule : PlannedFinding → Option MigrationRule
planning_rule finding = find (λ (rule : MigrationRule). rule.supports finding) migration_rules

abbrev pub throws_by : Option MigrationRule → PlanContext → Bool
throws_by none context = false
throws_by (some rule) context = rule.throws context

-- Whether the actions of a finding cannot be made, since its rule throws.
pub throws_on : PlanContext → PlannedFinding → Bool
throws_on context finding =
    if is_pass finding.status then false else throws_by (planning_rule finding) context

-- The drafts of one finding.
pub drafts_of : PlanContext → PlannedFinding → List MigrationActionDraft
drafts_of context finding =
    if is_pass finding.status then [] else actions_by (planning_rule finding) finding context

pub drafts_for : PlanContext → List PlannedFinding → List MigrationActionDraft
unfolding drafts_of
drafts_for context [] = []
drafts_for context (finding ∷ rest) = drafts_of context finding ++ drafts_for context rest

pub plan_result :
    List Dependency
    → Option (Result MigrationError (List OrderedMigrationAction))
    → Option (Result MigrationError MigrationPlanResult)
plan_result dependencies none = none
plan_result dependencies (some (err e)) = some (err e)
plan_result dependencies (some (ok actions)) =
    let counts = count_actions (map (λ a. a.action) actions) in
    some (
      ok (record {
        ruleset_version = "2";
        outcome = determine_plan_outcome counts;
        migration_ready = (counts.blocked == 0) && (counts.unknown == 0);
        verification_required = ltb 0 counts.unknown;
        auto_fixable_percent = auto_fixable_percent counts;
        counts = counts;
        actions = actions;
        dependencies = dependencies;
      }))

abbrev pub keys_of : List MigrationActionDraft → List String
keys_of actions = map (λ a. a.key) actions

module _ (locale_compare : String → String → Ordering) where
  unfoldable pub create_migration_plan :
      PlanContext → List PlannedFinding → Option (Result MigrationError MigrationPlanResult)
  unfolding throws_on drafts_for merge_drafts resolved_dependencies order_actions plan_result
      count_actions determine_plan_outcome auto_fixable_percent migration_rules
  create_migration_plan context findings =
      let merged = merge_drafts (drafts_for context findings) in
      let dependencies = resolved_dependencies (keys_of merged) merged in
      if any (throws_on context) findings
      then some (err invalid_reg_exp)
      else plan_result dependencies (order_actions locale_compare merged dependencies)
