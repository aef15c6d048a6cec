-- ===== src/Lifecycle/Compatibility.antt =====
-- packages/shared/src/compatibility-transitions.ts
use chain_port.Prelude.{ℕ, Bool, List, [], ◌∷◌, any, if◌then◌else◌, ◌==◌, Result, ok, err}
use chain_port.Lifecycle.Paths.{TransitionError, invalid_transition}

pub data CompatibilityRunStatus : Type 0 where
  queued evaluating completed failed : CompatibilityRunStatus

-- The place of a status among all, by which two are compared.
abbrev pub compatibility_index : CompatibilityRunStatus → ℕ
compatibility_index queued = 0
compatibility_index evaluating = 1
compatibility_index completed = 2
compatibility_index failed = 3

abbrev pub allowed_compatibility_transitions : CompatibilityRunStatus → List CompatibilityRunStatus
allowed_compatibility_transitions queued = evaluating ∷ failed ∷ []
allowed_compatibility_transitions evaluating = completed ∷ failed ∷ []
allowed_compatibility_transitions completed = []
allowed_compatibility_transitions failed = queued ∷ []

unfoldable pub is_compatibility_transition_allowed :
    CompatibilityRunStatus → CompatibilityRunStatus → Bool
is_compatibility_transition_allowed from to =
    any (λ s. compatibility_index s == compatibility_index to)
      (allowed_compatibility_transitions from)

unfoldable pub assert_compatibility_transition :
    CompatibilityRunStatus
    → CompatibilityRunStatus
    → Result (TransitionError CompatibilityRunStatus) (Unit {0})
unfolding is_compatibility_transition_allowed
assert_compatibility_transition from to =
    if is_compatibility_transition_allowed from to then ok tt else err (invalid_transition from to)
