-- ===== src/Migration/Engine/Outcome.antt =====
-- The verdict of a plan against its actions.
use Prim.Native.Nat.{Ordering}
use chain_port.Prelude.{
  ◌≤◌, ◌≡◌, ◌↔◌, String, true, false, not, ◌||◌, some, List, All, any, ok, arith,
}
use chain_port.Shared.Enums.{MigrationAutomationLevel, MigrationPlanOutcome}
use chain_port.Migration.Types.{
  PlannedFinding, PlanContext, MigrationActionDraft, MigrationPlanResult,
}
use chain_port.Migration.Status.{is_blocked, is_unverified}
use chain_port.Migration.Status.Laws.{
  determine_plan_outcome_iff, auto_fixable_percent_le, auto_fixable_percent_ready,
  count_actions_zero,
}
use chain_port.Migration.Engine.{create_migration_plan}
use chain_port.Migration.Engine.Contract.{drafts_in, create_migration_plan-counts}

abbrev pub IsAutomatic : MigrationActionDraft → Type 0
IsAutomatic a = a.automation_level ≡ MigrationAutomationLevel.safe_automatic

module _ (locale_compare : String → String → Ordering) (context : PlanContext)
    (findings : List PlannedFinding) (plan : MigrationPlanResult)
    (returns : create_migration_plan locale_compare context findings ≡ some (ok plan)) where
  -- A plan is READY_TO_APPLY exactly if all its actions are safe to apply automatically, BLOCKED
  -- exactly if one is blocked, and NEEDS_VERIFICATION exactly if none is and one is unverified.
  pub create_migration_plan-outcome :
      ((plan.outcome ≡ MigrationPlanOutcome.ready_to_apply) ↔ All IsAutomatic (drafts_in plan))
      × ((plan.outcome ≡ MigrationPlanOutcome.blocked)
          ↔ (any (λ a. is_blocked a.automation_level) (drafts_in plan) ≡ true))
      × ((plan.outcome ≡ MigrationPlanOutcome.needs_verification) ↔ (
          (any (λ a. is_blocked a.automation_level) (drafts_in plan) ≡ false)
          × (any (λ a. is_unverified a.automation_level) (drafts_in plan) ≡ true)))
  create_migration_plan-outcome =
      rw ((create_migration_plan-counts locale_compare context findings plan returns).1)
        (determine_plan_outcome_iff (drafts_in plan))

  -- A plan is migration ready exactly if no action is blocked or unverified. Its percentage is at
  -- most 100, and is 100 if all its actions are automatic.
  pub create_migration_plan-ready :
      (plan.migration_ready
        ≡ not (
            any (λ a. is_blocked a.automation_level) (drafts_in plan)
            || any (λ a. is_unverified a.automation_level) (drafts_in plan)))
      × (plan.auto_fixable_percent ≤ 100)
      × (All IsAutomatic (drafts_in plan) → plan.auto_fixable_percent ≡ 100)
  create_migration_plan-ready =
      let (counts, _, percent, ready, _) =
        create_migration_plan-counts locale_compare context findings plan returns in
      (
        ground (arith, counts, ready, count_actions_zero (drafts_in plan)),
        rw percent (auto_fixable_percent_le (drafts_in plan)),
        λ h. rw percent (auto_fixable_percent_ready (drafts_in plan) h),
      )
