-- ===== src/Migration/Status/Laws.antt =====
-- What the counts, the outcome and the percentage of a plan say of its actions.
use chain_port.Prelude.{
  ℕ, ◌+◌, ◌-◌, ◌*◌, ◌≤◌, ◌<◌, ◌≡◌, ◌↔◌, refl, Bool, true, false, List, [], ◌∷◌, length,
  length-filter, All, any, ltb, arith, round_div,
}
use chain_port.Shared.Enums.{MigrationAutomationLevel, MigrationPlanOutcome}
use chain_port.Migration.Types.{MigrationActionDraft}
use chain_port.Migration.Status.{
  is_safe, is_review, is_manual, is_blocked, is_unverified, count_level, count_actions,
  determine_plan_outcome, auto_fixable_percent,
}

count_partition :
    (xs : List MigrationActionDraft)
    → count_level is_safe xs
        + count_level is_review xs
        + count_level is_manual xs
        + count_level is_blocked xs
        + count_level is_unverified xs
      ≡ length xs
count_partition [] = refl
count_partition (a ∷ xs) = ground (arith, count_partition xs)

count_level_zero :
    (test : MigrationAutomationLevel → Bool) (xs : List MigrationActionDraft)
    → ltb 0 (count_level test xs) ≡ any (λ a. test a.automation_level) xs
count_level_zero test [] = refl
count_level_zero test (a ∷ xs) = ground (arith, count_level_zero test xs)

All-safe :
    (xs : List MigrationActionDraft)
    → (count_level is_safe xs ≡ length xs)
      ↔ All
          (λ (a : MigrationActionDraft).
            a.automation_level ≡ MigrationAutomationLevel.safe_automatic)
          xs
All-safe [] = (λ _. tt, λ _. refl)
All-safe (a ∷ xs) = ground (arith, All-safe xs, length-filter (λ x. is_safe x.automation_level) xs)

-- The outcome is READY_TO_APPLY exactly if every action is safe to apply automatically, BLOCKED
-- exactly if some action is blocked, NEEDS_VERIFICATION exactly if none is and some is unverified.
pub determine_plan_outcome_iff :
    (xs : List MigrationActionDraft)
    → ((determine_plan_outcome (count_actions xs) ≡ MigrationPlanOutcome.ready_to_apply)
        ↔ All
            (λ (a : MigrationActionDraft).
              a.automation_level ≡ MigrationAutomationLevel.safe_automatic)
            xs)
      × ((determine_plan_outcome (count_actions xs) ≡ MigrationPlanOutcome.blocked)
          ↔ (any (λ a. is_blocked a.automation_level) xs ≡ true))
      × ((determine_plan_outcome (count_actions xs) ≡ MigrationPlanOutcome.needs_verification) ↔ (
          (any (λ a. is_blocked a.automation_level) xs ≡ false)
          × (any (λ a. is_unverified a.automation_level) xs ≡ true)))
unfolding determine_plan_outcome count_actions
determine_plan_outcome_iff xs = (
  ground (arith, count_partition xs, All-safe xs),
  ground (arith, count_level_zero is_blocked xs),
  ground (arith, count_level_zero is_blocked xs, count_level_zero is_unverified xs),
)

round_div_le : (s a : ℕ) → s ≤ a → 0 < a → round_div (100 * s) a ≤ 100
round_div_le s a h p = grind arith

round_div_full : (a : ℕ) → 0 < a → round_div (100 * a) a ≡ 100
round_div_full a p = grind arith

round_div_pos : (s a : ℕ) → 0 < a → a ≤ 200 * s → 0 < round_div (100 * s) a
round_div_pos s a p h = grind arith

pub auto_fixable_percent_le :
    (xs : List MigrationActionDraft) → auto_fixable_percent (count_actions xs) ≤ 100
unfolding auto_fixable_percent count_actions
auto_fixable_percent_le xs = ground (
  arith,
  count_partition xs,
  round_div_le (count_level is_safe xs)
      (length xs - count_level is_blocked xs - count_level is_unverified xs),
)

-- The percentage is 100 for a plan whose actions are all safe.
pub auto_fixable_percent_ready :
    (xs : List MigrationActionDraft)
    → All
        (λ (a : MigrationActionDraft). a.automation_level ≡ MigrationAutomationLevel.safe_automatic)
        xs
    → auto_fixable_percent (count_actions xs) ≡ 100
unfolding auto_fixable_percent count_actions
auto_fixable_percent_ready xs h =
    ground (arith, count_partition xs, All-safe xs, round_div_full (length xs))

pub count_actions_zero :
    (xs : List MigrationActionDraft)
    → (ltb 0 (count_actions xs).blocked ≡ any (λ a. is_blocked a.automation_level) xs)
      × (ltb 0 (count_actions xs).unknown ≡ any (λ a. is_unverified a.automation_level) xs)
unfolding count_actions
count_actions_zero xs = (count_level_zero is_blocked xs, count_level_zero is_unverified xs)
