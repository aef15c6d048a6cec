-- ===== src/Lifecycle/Validation.antt =====
-- packages/shared/src/validation-transitions.ts
pub mod Laws
use chain_port.Prelude.{ℕ, Bool, List, [], ◌∷◌, any, if◌then◌else◌, ◌==◌, Result, ok, err}
use chain_port.Lifecycle.Paths.{TransitionError, invalid_transition}

pub data ValidationRunStatus : Type 0 where
  queued preparing installing building testing completed failed timed_out : ValidationRunStatus

-- The place of a status among all, by which two are compared.
abbrev pub validation_index : ValidationRunStatus → ℕ
validation_index queued = 0
validation_index preparing = 1
validation_index installing = 2
validation_index building = 3
validation_index testing = 4
validation_index completed = 5
validation_index failed = 6
validation_index timed_out = 7

abbrev pub allowed_validation_transitions : ValidationRunStatus → List ValidationRunStatus
allowed_validation_transitions queued = preparing ∷ failed ∷ []
allowed_validation_transitions preparing =
    installing ∷ building ∷ testing ∷ completed ∷ failed ∷ timed_out ∷ []
allowed_validation_transitions installing = building ∷ completed ∷ failed ∷ timed_out ∷ []
allowed_validation_transitions building = testing ∷ completed ∷ failed ∷ timed_out ∷ []
allowed_validation_transitions testing = completed ∷ failed ∷ timed_out ∷ []
allowed_validation_transitions completed = []
allowed_validation_transitions failed = queued ∷ []
allowed_validation_transitions timed_out = []

unfoldable pub is_validation_transition_allowed : ValidationRunStatus → ValidationRunStatus → Bool
is_validation_transition_allowed from to =
    any (λ s. validation_index s == validation_index to) (allowed_validation_transitions from)

unfoldable pub assert_validation_transition :
    ValidationRunStatus
    → ValidationRunStatus
    → Result (TransitionError ValidationRunStatus) (Unit {0})
unfolding is_validation_transition_allowed
assert_validation_transition from to =
    if is_validation_transition_allowed from to then ok tt else err (invalid_transition from to)
