-- ===== src/Lifecycle/ChangeSet/Laws.antt =====
-- How a change set ends.
use chain_port.Prelude.{ℕ, ◌+◌, ◌*◌, ◌≤◌, ◌<◌, ◌≡◌, ◌⊎◌, Bool, true, false, arith}
use chain_port.Lifecycle.Paths.{Trace, Trace-closed, steps, retries, steps-le}
use chain_port.Lifecycle.ChangeSet.{
  ChangeSetStatus, queued, materializing, generating, ready_for_review, finalizing, finalized,
  failed, rolled_back, is_changeset_transition_allowed,
}

abbrev changeset_rank : ChangeSetStatus → ℕ
changeset_rank queued = 0
changeset_rank materializing = 1
changeset_rank generating = 2
changeset_rank ready_for_review = 3
changeset_rank finalizing = 4
changeset_rank finalized = 5
changeset_rank _ = 6

abbrev pub is_failed : ChangeSetStatus → Bool
is_failed failed = true
is_failed _ = false

changeset_rises :
    (s t : ChangeSetStatus)
    → is_changeset_transition_allowed s t ≡ true
    → is_failed s ≡ false
    → changeset_rank s < changeset_rank t
unfolding is_changeset_transition_allowed
changeset_rises s t h r = ground arith

changeset_bounded : (s : ChangeSetStatus) → changeset_rank s ≤ 6
changeset_bounded s = ground arith

abbrev Published : ChangeSetStatus → Type 0
Published s = (s ≡ finalized) ⊎ (s ≡ rolled_back)

Published-stays :
    (s t : ChangeSetStatus) → is_changeset_transition_allowed s t ≡ true → Published s → Published t
unfolding is_changeset_transition_allowed
Published-stays s t h p = ground arith

-- A finalized change set can only be rolled back, and then nothing more: it is never reopened.
-- Before that a change set makes at most six transitions, and seven more for each retry.
pub changeset_published :
    (s t : ChangeSetStatus) (p : Trace is_changeset_transition_allowed s t)
    → ((s ≡ finalized) ⊎ (s ≡ rolled_back) → (t ≡ finalized) ⊎ (t ≡ rolled_back))
      × (steps is_changeset_transition_allowed p
          ≤ 6 + 7 * retries is_changeset_transition_allowed is_failed p)
changeset_published s t p = (
  Trace-closed is_changeset_transition_allowed Published Published-stays p,
  omega (
    arith,
    steps-le is_changeset_transition_allowed is_failed changeset_rank 6 changeset_rises
        changeset_bounded p,
    changeset_bounded t,
  ),
)
