-- ===== src/Migration/Tests.antt =====
-- Small plans, and the theorems of the planner at them.
use Prim.Native.Nat.{Ordering}
use Prim.Native.String.{compare}
use chain_port.Prelude.{
  contains_ignoring_case, replace_dashes, ℕ, ◌≤◌, ◌≡◌, refl, String, true, false, Option, none,
  some, List, [], ◌∷◌, map, All, any, not, ◌||◌, ◌↔◌, ◌⊎◌, IsNodup, template, decimal, Result, ok,
  err, arith, eq_iff,
}
use chain_port.Shared.Enums.{
  CompatibilityStatus, CompatibilityCategory, RemediationType, CoverageConfidence,
  MigrationPlanOutcome,
}
use chain_port.Shared.Json.{JsonObject, end, field, str}
use chain_port.Migration.Types.{PlannedFinding, PlanContext, MigrationRule, MigrationPlanResult}
use chain_port.Migration.Dependencies.{
  Dependency, MigrationError, cyclic_migration_dependency, invalid_reg_exp, topological_order,
}
use chain_port.Migration.Dependencies.Order.{IsRanked, IsOrder, topological_order_total}
use chain_port.Migration.Action.{json_list}
use chain_port.Migration.Dedupe.{merge_drafts}
use chain_port.Migration.Dedupe.Laws.{merge_drafts-carries, carries}
use chain_port.Migration.Ordering.Sorting.{IsRankSorted}
use chain_port.Migration.Ordering.Places.{PlacedAt}
use chain_port.Migration.Rules.EnvConfig.{target_test}
use chain_port.Migration.Rules.Contract.{WritesProper, migration_rules-proper}
use chain_port.Migration.Rules.{migration_rules}
use chain_port.Migration.Status.{is_blocked, is_unverified}
use chain_port.Migration.Engine.{keys_of, drafts_for, create_migration_plan}
use chain_port.Migration.Engine.Drafts.{IsPlanned, Covers}
use chain_port.Migration.Engine.Edges.{DependsUp}
use chain_port.Migration.Engine.Contract.{
  drafts_in, create_migration_plan_total, create_migration_plan-returns,
  create_migration_plan-Covers, create_migration_plan-IsPlanned, create_migration_plan-sorted,
  create_migration_plan-placed,
}
use chain_port.Migration.Engine.Outcome.{
  IsAutomatic, create_migration_plan-outcome, create_migration_plan-ready,
}

-- A locale that orders by code points.
abbrev by_code : String → String → Ordering
by_code = compare

abbrev edge : String → String → Dependency
edge action on = record { action_key = action; depends_on_key = on }

topological_order-chain :
    topological_order ("c" ∷ "b" ∷ "a" ∷ []) (edge "c" "b" ∷ edge "b" "a" ∷ edge "c" "x" ∷ [])
    ≡ some (ok ("a" ∷ "b" ∷ "c" ∷ []))
unfolding topological_order
topological_order-chain = refl

topological_order_cycle :
    topological_order ("a" ∷ "b" ∷ []) (edge "a" "b" ∷ edge "b" "a" ∷ [])
    ≡ some (err cyclic_migration_dependency)
unfolding topological_order
topological_order_cycle = refl

abbrev base_to_optimism : PlanContext
base_to_optimism = record {
  source_chain_key = "base";
  source_chain_name = "Base";
  source_chain_id = 8453;
  target_chain_key = "optimism";
  target_chain_name = "OP Mainnet";
  target_chain_id = 10;
  target_rpc_urls = "https://mainnet.optimism.io" ∷ [];
  target_explorer_url = none;
  registry_snapshot_hash = "snap";
  -- Right for patterns of plain characters.
  reg_exp = λ pattern. some (contains_ignoring_case pattern);
}

abbrev finding :
    String
    → String
    → CompatibilityStatus
    → Option String
    → Option String
    → JsonObject
    → PlannedFinding
finding id rule_id status source target evidence = record {
  id = id;
  requirement_id = none;
  requirement_key = none;
  rule_id = rule_id;
  rule_version = "1";
  category = CompatibilityCategory.configuration;
  status = status;
  title = "title";
  summary = "summary";
  technical_reason = "reason";
  remediation_type = RemediationType.config_change;
  source_value = source;
  target_value = target;
  confidence = CoverageConfidence.high;
  registry_evidence = evidence;
  evidence = [];
}

abbrev findings : List PlannedFinding
findings =
    finding "f1" "hardcoded-rpc" CompatibilityStatus.warning (some "https://base") none end
    ∷ finding "f2" "chain-id" CompatibilityStatus.warning (some "8453") none end
    ∷ finding "f3" "chain-id" CompatibilityStatus.warning (some "8453") none end
    ∷ finding "f4" "uniswap" CompatibilityStatus.pass none none end
    ∷ finding "f5" "token-availability" CompatibilityStatus.blocker none none
        (field "symbol" (str "USDC") end)
    ∷ []

-- What a plan shows: its outcome, and each action's key, findings and two orders.
abbrev shown :
    Option (Result MigrationError MigrationPlanResult)
    → Option (MigrationPlanOutcome × List (String × List String × ℕ × ℕ))
shown (some (ok plan)) = some (
  plan.outcome,
  map (λ a. (a.action.key, a.action.finding_ids, a.display_order, a.dependency_order)) plan.actions,
)
shown _ = none

shown-create_migration_plan :
    shown (create_migration_plan by_code base_to_optimism findings)
    ≡ some (
      MigrationPlanOutcome.blocked,
      ("token-blocked:USDC", "f5" ∷ [], 0, 1)
          ∷ ("chain-id:8453->10", "f2" ∷ "f3" ∷ [], 1, 0)
          ∷ ("rpc-url:https://base", "f1" ∷ [], 2, 2)
          ∷ [],
    )
unfolding create_migration_plan template decimal json_list
shown-create_migration_plan = refl

-- The plan of these findings.
made :
    (plan : MigrationPlanResult) × (create_migration_plan by_code base_to_optimism findings
      ≡ some (ok plan))
made =
    create_migration_plan-returns by_code base_to_optimism findings
      (contains_ignoring_case (replace_dashes "optimism")) refl

create_migration_plan_total_example :
    ((plan : MigrationPlanResult) × (create_migration_plan by_code base_to_optimism findings
        ≡ some (ok plan)))
    ⊎ ((create_migration_plan by_code base_to_optimism findings ≡ some (err invalid_reg_exp))
        × (target_test base_to_optimism ≡ none))
create_migration_plan_total_example = create_migration_plan_total by_code base_to_optimism findings

-- A key that is no pattern.
abbrev refusing : PlanContext
refusing = record base_to_optimism { target_chain_key = "("; reg_exp = λ pattern. none }

create_migration_plan_thrown :
    create_migration_plan by_code refusing
      (finding "f6" "env-config" CompatibilityStatus.warning (some "RPC_URL") none end ∷ [])
    ≡ some (err invalid_reg_exp)
unfolding create_migration_plan
create_migration_plan_thrown = refl

create_migration_plan-Covers_example : Covers base_to_optimism (drafts_in made.0) findings
create_migration_plan-Covers_example =
    create_migration_plan-Covers by_code base_to_optimism findings made.0 made.1

create_migration_plan-IsPlanned_example : All (IsPlanned base_to_optimism) (drafts_in made.0)
create_migration_plan-IsPlanned_example =
    create_migration_plan-IsPlanned by_code base_to_optimism findings made.0 made.1

create_migration_plan-sorted_example :
    IsNodup (keys_of (drafts_in made.0)) × IsRankSorted (drafts_in made.0)
create_migration_plan-sorted_example =
    create_migration_plan-sorted by_code base_to_optimism findings made.0 made.1

create_migration_plan-placed_example :
    (place : String → ℕ) × PlacedAt place 0 made.0.actions
    × All (DependsUp (keys_of (drafts_in made.0)) place) (drafts_in made.0)
create_migration_plan-placed_example =
    create_migration_plan-placed by_code base_to_optimism findings made.0 made.1

create_migration_plan-outcome_example :
    ((made.0.outcome ≡ MigrationPlanOutcome.ready_to_apply) ↔ All IsAutomatic (drafts_in made.0))
    × ((made.0.outcome ≡ MigrationPlanOutcome.blocked)
        ↔ (any (λ a. is_blocked a.automation_level) (drafts_in made.0) ≡ true))
    × ((made.0.outcome ≡ MigrationPlanOutcome.needs_verification) ↔ (
        (any (λ a. is_blocked a.automation_level) (drafts_in made.0) ≡ false)
        × (any (λ a. is_unverified a.automation_level) (drafts_in made.0) ≡ true)))
create_migration_plan-outcome_example =
    create_migration_plan-outcome by_code base_to_optimism findings made.0 made.1

create_migration_plan-ready_example :
    (made.0.migration_ready
      ≡ not (
          any (λ a. is_blocked a.automation_level) (drafts_in made.0)
          || any (λ a. is_unverified a.automation_level) (drafts_in made.0)))
    × (made.0.auto_fixable_percent ≤ 100)
    × (All IsAutomatic (drafts_in made.0) → made.0.auto_fixable_percent ≡ 100)
create_migration_plan-ready_example =
    create_migration_plan-ready by_code base_to_optimism findings made.0 made.1

abbrev three_keys : List String
three_keys = "c" ∷ "b" ∷ "a" ∷ []

abbrev two_edges : List Dependency
two_edges = edge "c" "b" ∷ edge "b" "a" ∷ []

three_keys-IsNodup : IsNodup three_keys
three_keys-IsNodup k = ground (
  arith,
  eq_iff "c" k,
  eq_iff "b" k,
  eq_iff "a" k,
  eq_iff "a" "b",
  eq_iff "a" "c",
  eq_iff "b" "c",
)

topological_order_total_example :
    ((o : List String) × (topological_order three_keys two_edges ≡ some (ok o))
      × IsOrder three_keys two_edges o)
    ⊎ ((topological_order three_keys two_edges ≡ some (err cyclic_migration_dependency))
        × ((rank : String → ℕ) → ¬ IsRanked three_keys rank two_edges))
topological_order_total_example = topological_order_total three_keys two_edges three_keys-IsNodup

merge_drafts-carries_example :
    any
      (carries (λ a. a.finding_ids) (λ a b. refl) "f3" "chain-id:8453->10")
      (merge_drafts (drafts_for base_to_optimism findings))
    ≡ any
        (carries (λ a. a.finding_ids) (λ a b. refl) "f3" "chain-id:8453->10")
        (drafts_for base_to_optimism findings)
merge_drafts-carries_example =
    merge_drafts-carries (λ a. a.finding_ids) (λ a b. refl) "f3" "chain-id:8453->10"
      (drafts_for base_to_optimism findings)

migration_rules-proper_example :
    All
      (λ (rule : MigrationRule).
        (rule.throws base_to_optimism ≡ false)
        × WritesProper
            (finding "f" "chain-id" CompatibilityStatus.warning none none end)
            base_to_optimism
            (rule.create_actions
              (finding "f" "chain-id" CompatibilityStatus.warning none none end)
              base_to_optimism))
      migration_rules
migration_rules-proper_example =
    migration_rules-proper (finding "f" "chain-id" CompatibilityStatus.warning none none end)
      base_to_optimism (contains_ignoring_case (replace_dashes "optimism")) refl
