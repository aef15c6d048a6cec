-- ===== src/Lifecycle/Deployment/Laws.antt =====
-- What a deployment run can still become once transactions may have left.
use chain_port.Prelude.{◌≡◌, ◌≢◌, ◌⊎◌, inl, inr, Bool, true, ◌||◌, any, ◌==◌, arith}
use chain_port.Lifecycle.Paths.{Trace, start, move, Visits, Visits-end, Trace-closed}
use chain_port.Lifecycle.Deployment.{
  DeploymentRunStatus, queued, funding, failed, cancelled, deployment_index,
  is_deployment_transition_allowed, broadcast_boundary_statuses, has_broadcast_side_effect,
}

abbrev Sent : DeploymentRunStatus → Type 0
Sent s = (has_broadcast_side_effect s ≡ true) ⊎ (s ≡ failed)

Sent-stays :
    (s t : DeploymentRunStatus) → is_deployment_transition_allowed s t ≡ true → Sent s → Sent t
unfolding is_deployment_transition_allowed has_broadcast_side_effect
Sent-stays s t h k = ground arith

-- A run that has broadcast stays one that has, or fails: it is never cancelled, queued or prepared.
pub broadcast_stays :
    (s t : DeploymentRunStatus)
    → Trace is_deployment_transition_allowed s t
    → has_broadcast_side_effect s ≡ true
    → (has_broadcast_side_effect t ≡ true) ⊎ (t ≡ failed)
broadcast_stays s t p h = Trace-closed is_deployment_transition_allowed Sent Sent-stays p (inl h)

abbrev pub in_boundary : DeploymentRunStatus → Bool
in_boundary s = any (λ b. deployment_index b == deployment_index s) broadcast_boundary_statuses

boundary_stays :
    (s t : DeploymentRunStatus)
    → is_deployment_transition_allowed s t ≡ true
    → (in_boundary s ≡ true) ⊎ (s ≡ failed)
    → (in_boundary t ≡ true) ⊎ (t ≡ failed)
unfolding is_deployment_transition_allowed
boundary_stays s t h k = ground arith

-- The broadcast boundary is FUNDING and the statuses that have broadcast, no more and no fewer; and
-- from within it a run can no longer be cancelled.
pub boundary_not_cancelled :
    (s t : DeploymentRunStatus)
    → Trace is_deployment_transition_allowed s t
    → in_boundary s ≡ true
    → (t ≢ cancelled)
      × ((u : DeploymentRunStatus)
          → in_boundary u
            ≡ (has_broadcast_side_effect u || (deployment_index u == deployment_index funding)))
unfolding has_broadcast_side_effect
boundary_not_cancelled s t p h =
    let kept =
      Trace-closed is_deployment_transition_allowed (λ u. (in_boundary u ≡ true) ⊎ (u ≡ failed))
        boundary_stays p (inl h) in
    (ground (arith, kept), λ u. ground arith)

-- A step into a status that has broadcast comes from another such, or from FUNDING.
broadcast_from :
    (s t : DeploymentRunStatus)
    → is_deployment_transition_allowed s t ≡ true
    → has_broadcast_side_effect t ≡ true
    → (s ≡ funding) ⊎ (has_broadcast_side_effect s ≡ true)
unfolding is_deployment_transition_allowed has_broadcast_side_effect
broadcast_from s t h k = ground arith

-- Every path of allowed transitions from QUEUED to a status that has broadcast is at FUNDING on its
-- way.
pub broadcast_after_funding :
    {t : DeploymentRunStatus} (p : Trace is_deployment_transition_allowed queued t)
    → has_broadcast_side_effect t ≡ true
    → Visits is_deployment_transition_allowed funding p
unfolding has_broadcast_side_effect Visits
broadcast_after_funding start h = cc
broadcast_after_funding (move {t} u p e) h = elim (broadcast_from t u e h) [
  | inl funded ↦ inr (Visits-end is_deployment_transition_allowed p funded)
  | inr sent ↦ inr (broadcast_after_funding p sent)
]
