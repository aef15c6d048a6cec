-- ===== src/Lifecycle/Deployment.antt =====
-- packages/shared/src/deployment-transitions.ts
pub mod Laws
use chain_port.Prelude.{ℕ, Bool, ◌||◌, List, [], ◌∷◌, any, if◌then◌else◌, ◌==◌, Result, ok, err}
use chain_port.Lifecycle.Paths.{TransitionError, invalid_transition}

pub data DeploymentRunStatus : Type 0 where
  queued checking_eligibility preparing simulating prepared funding broadcasting confirming
        verifying completed failed reconciliation_required cancelled :
      DeploymentRunStatus

-- The place of a status among all, by which two are compared.
abbrev pub deployment_index : DeploymentRunStatus → ℕ
deployment_index queued = 0
deployment_index checking_eligibility = 1
deployment_index preparing = 2
deployment_index simulating = 3
deployment_index prepared = 4
deployment_index funding = 5
deployment_index broadcasting = 6
deployment_index confirming = 7
deployment_index verifying = 8
deployment_index completed = 9
deployment_index failed = 10
deployment_index reconciliation_required = 11
deployment_index cancelled = 12

abbrev pub allowed_deployment_transitions : DeploymentRunStatus → List DeploymentRunStatus
allowed_deployment_transitions queued = checking_eligibility ∷ failed ∷ cancelled ∷ []
allowed_deployment_transitions checking_eligibility = preparing ∷ failed ∷ cancelled ∷ []
allowed_deployment_transitions preparing = simulating ∷ failed ∷ cancelled ∷ []
allowed_deployment_transitions simulating = prepared ∷ failed ∷ cancelled ∷ []
allowed_deployment_transitions prepared = funding ∷ failed ∷ cancelled ∷ []
allowed_deployment_transitions funding = broadcasting ∷ failed ∷ reconciliation_required ∷ []
allowed_deployment_transitions broadcasting = confirming ∷ failed ∷ reconciliation_required ∷ []
allowed_deployment_transitions confirming = verifying ∷ failed ∷ reconciliation_required ∷ []
allowed_deployment_transitions verifying = completed ∷ failed ∷ reconciliation_required ∷ []
allowed_deployment_transitions completed = []
allowed_deployment_transitions failed = []
allowed_deployment_transitions reconciliation_required =
    confirming ∷ verifying ∷ completed ∷ failed ∷ []
allowed_deployment_transitions cancelled = []

unfoldable pub is_deployment_transition_allowed : DeploymentRunStatus → DeploymentRunStatus → Bool
is_deployment_transition_allowed from to =
    any (λ s. deployment_index s == deployment_index to) (allowed_deployment_transitions from)

unfoldable pub assert_deployment_transition :
    DeploymentRunStatus
    → DeploymentRunStatus
    → Result (TransitionError DeploymentRunStatus) (Unit {0})
unfolding is_deployment_transition_allowed
assert_deployment_transition from to =
    if is_deployment_transition_allowed from to then ok tt else err (invalid_transition from to)

abbrev pub broadcast_boundary_statuses : List DeploymentRunStatus
broadcast_boundary_statuses =
    funding ∷ broadcasting ∷ confirming ∷ verifying ∷ completed ∷ reconciliation_required ∷ []

unfoldable pub has_broadcast_side_effect : DeploymentRunStatus → Bool
has_broadcast_side_effect status =
    (deployment_index status == deployment_index broadcasting)
    || (deployment_index status == deployment_index confirming)
    || (deployment_index status == deployment_index verifying)
    || (deployment_index status == deployment_index completed)
    || (deployment_index status == deployment_index reconciliation_required)
