-- ===== src/Lifecycle/Plan.antt =====
-- packages/shared/src/migration-transitions.ts
use chain_port.Prelude.{ℕ, Bool, List, [], ◌∷◌, any, if◌then◌else◌, ◌==◌, Result, ok, err}
use chain_port.Lifecycle.Paths.{TransitionError, invalid_transition}

pub data MigrationPlanRunStatus : Type 0 where
  queued planning completed failed : MigrationPlanRunStatus

-- The place of a status among all, by which two are compared.
abbrev pub migration_plan_index : MigrationPlanRunStatus → ℕ
migration_plan_index queued = 0
migration_plan_index planning = 1
migration_plan_index completed = 2
migration_plan_index failed = 3

abbrev pub allowed_migration_plan_transitions : MigrationPlanRunStatus → List MigrationPlanRunStatus
allowed_migration_plan_transitions queued = planning ∷ failed ∷ []
allowed_migration_plan_transitions planning = completed ∷ failed ∷ []
allowed_migration_plan_transitions completed = []
allowed_migration_plan_transitions failed = queued ∷ []

unfoldable pub is_migration_plan_transition_allowed :
    MigrationPlanRunStatus → MigrationPlanRunStatus → Bool
is_migration_plan_transition_allowed from to =
    any (λ s. migration_plan_index s == migration_plan_index to)
      (allowed_migration_plan_transitions from)

unfoldable pub assert_migration_plan_transition :
    MigrationPlanRunStatus
    → MigrationPlanRunStatus
    → Result (TransitionError MigrationPlanRunStatus) (Unit {0})
unfolding is_migration_plan_transition_allowed
assert_migration_plan_transition from to =
    if is_migration_plan_transition_allowed from to then ok tt else err (invalid_transition from to)
