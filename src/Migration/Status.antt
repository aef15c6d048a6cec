-- ===== src/Migration/Status.antt =====
-- packages/migration/src/status.ts
pub mod Laws
use chain_port.Prelude.{
  ℕ, ◌+◌, ◌-◌, ◌*◌, ◌/◌, ◌≤◌, ◌<◌, ◌≡◌, ◌↔◌, Bool, true, false, ◌||◌, List, length, filter,
  if◌then◌else◌, ltb, leb, ◌==◌, arith, round_div,
}
use chain_port.Shared.Enums.{MigrationAutomationLevel, MigrationPlanOutcome}
use chain_port.Migration.Types.{MigrationActionDraft, ActionCounts}

abbrev pub is_safe : MigrationAutomationLevel → Bool
is_safe MigrationAutomationLevel.safe_automatic = true
is_safe _ = false

abbrev pub is_review : MigrationAutomationLevel → Bool
is_review MigrationAutomationLevel.review_required = true
is_review _ = false

abbrev pub is_manual : MigrationAutomationLevel → Bool
is_manual MigrationAutomationLevel.manual = true
is_manual _ = false

abbrev pub is_blocked : MigrationAutomationLevel → Bool
is_blocked MigrationAutomationLevel.blocked = true
is_blocked _ = false

abbrev pub is_unverified : MigrationAutomationLevel → Bool
is_unverified MigrationAutomationLevel.unknown = true
is_unverified _ = false

-- `actions.filter((item) => item.automationLevel === level).length`
abbrev pub count_level : (MigrationAutomationLevel → Bool) → List MigrationActionDraft → ℕ
count_level test actions = length (filter (λ a. test a.automation_level) actions)

unfoldable pub count_actions : List MigrationActionDraft → ActionCounts
count_actions actions = record {
  total = length actions;
  safe_automatic = count_level is_safe actions;
  review_required = count_level is_review actions;
  manual = count_level is_manual actions;
  blocked = count_level is_blocked actions;
  unknown = count_level is_unverified actions;
}

unfoldable pub determine_plan_outcome : ActionCounts → MigrationPlanOutcome
determine_plan_outcome counts =
    if ltb 0 counts.blocked
    then MigrationPlanOutcome.blocked
    else if ltb 0 counts.unknown
    then MigrationPlanOutcome.needs_verification
    else if ltb 0 counts.review_required || ltb 0 counts.manual
    then MigrationPlanOutcome.review_required
    else MigrationPlanOutcome.ready_to_apply

-- `actionable <= 0` is a test of the difference before it is cut at 0.
unfoldable pub auto_fixable_percent : ActionCounts → ℕ
auto_fixable_percent counts =
    if counts.total == 0
    then 100
    else if leb counts.total (counts.blocked + counts.unknown)
    then 0
    else round_div (100 * counts.safe_automatic) (counts.total - counts.blocked - counts.unknown)
