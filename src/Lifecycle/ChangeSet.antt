-- ===== src/Lifecycle/ChangeSet.antt =====
-- packages/shared/src/changeset-transitions.ts
pub mod Laws
use chain_port.Prelude.{ℕ, Bool, List, [], ◌∷◌, any, if◌then◌else◌, ◌==◌, Result, ok, err}
use chain_port.Lifecycle.Paths.{TransitionError, invalid_transition}

pub data ChangeSetStatus : Type 0 where
  queued materializing generating ready_for_review finalizing finalized failed rolled_back :
      ChangeSetStatus

-- The place of a status among all, by which two are compared.
abbrev pub changeset_index : ChangeSetStatus → ℕ
changeset_index queued = 0
changeset_index materializing = 1
changeset_index generating = 2
changeset_index ready_for_review = 3
changeset_index finalizing = 4
changeset_index finalized = 5
changeset_index failed = 6
changeset_index rolled_back = 7

abbrev pub allowed_changeset_transitions : ChangeSetStatus → List ChangeSetStatus
allowed_changeset_transitions queued = materializing ∷ failed ∷ []
allowed_changeset_transitions materializing = generating ∷ failed ∷ []
allowed_changeset_transitions generating = ready_for_review ∷ failed ∷ []
allowed_changeset_transitions ready_for_review = finalizing ∷ failed ∷ []
allowed_changeset_transitions finalizing = finalized ∷ failed ∷ []
allowed_changeset_transitions finalized = rolled_back ∷ []
allowed_changeset_transitions failed = queued ∷ []
allowed_changeset_transitions rolled_back = []

unfoldable pub is_changeset_transition_allowed : ChangeSetStatus → ChangeSetStatus → Bool
is_changeset_transition_allowed from to =
    any (λ s. changeset_index s == changeset_index to) (allowed_changeset_transitions from)

unfoldable pub assert_changeset_transition :
    ChangeSetStatus → ChangeSetStatus → Result (TransitionError ChangeSetStatus) (Unit {0})
unfolding is_changeset_transition_allowed
assert_changeset_transition from to =
    if is_changeset_transition_allowed from to then ok tt else err (invalid_transition from to)
