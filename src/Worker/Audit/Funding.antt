-- ===== src/Worker/Audit/Funding.antt =====
-- The broadcast job as a whole, from its guards through the funding to the broadcast.
use chain_port.Prelude.{
  ℕ, ◌≡◌, inl, inr, refl, String, true, false, not, ◌||◌, ◌&&◌, Option, none, some, List, [], ◌∷◌,
  arith, Result, ok, err, Ends, Post, when, lift, Ends-pure, Ends-if, Ends-bind, Ends-weaken,
}
use chain_port.Lifecycle.Deployment.{
  DeploymentRunStatus, cancelled, prepared, funding, completed, failed,
  is_deployment_transition_allowed,
}
use chain_port.Database.Models.{DeploymentRunRecord, DeploymentCandidateRecord}
use chain_port.Database.Deployments.{from_to, same_status, is_foundry}
use chain_port.Deployment.Models.{RepositoryRevision}
use chain_port.Deployment.Target.{ChainDefinition}
use chain_port.Deployment.Errors.{Failure}
use chain_port.Worker.Externals.{Externals, World}
use chain_port.Worker.Common.{transition_run, fail}
use chain_port.Worker.Prepare.{is_sent}
use chain_port.Worker.Broadcast.{
  with_revision, with_row, funded, with_credential, candidate_of, process_broadcast_deployment,
}
use chain_port.Worker.Audit.{is_in, Kept, Read, Kept-weaken, Kept-of_Read}
use chain_port.Worker.Audit.Rules.{
  Ends-transition, Ends-fail, Ends-fail_in, Ends-known, Ends-must_get, Ends-call, Ends-look,
}
use chain_port.Worker.Audit.Confirm.{settled_statuses}
use chain_port.Worker.Audit.Broadcast.{
  IsSettledBroadcast, IsStoppedBroadcast, broadcast_workspace-Kept,
}

abbrev pub ready_statuses : List DeploymentRunStatus
ready_statuses = prepared ∷ funding ∷ []

-- A job that stops with the run as it was.
stopped :
    (p : List DeploymentRunStatus) (k : ℕ)
    → ((s : DeploymentRunStatus) → is_in p s ≡ true → is_in ready_statuses s ≡ true)
    → (w : World) → Kept p k w
    → IsStoppedBroadcast k w
stopped p k h w kept = inl (
    Kept-weaken p (prepared ∷ funding ∷ settled_statuses) k
      (λ s e. let at = h s e in ground (arith, at)) w kept)

failed_broadcast : (k : ℕ) (w : World) → Kept (failed ∷ []) k w → IsSettledBroadcast k w
failed_broadcast k w kept =
    inl (Kept-weaken (failed ∷ []) settled_statuses k (λ s h. ground (arith, h)) w kept)

fail_funding-Kept :
    (x : Externals) (code : String) (message : Option String) (k : ℕ) {R : World → Type 0}
    → Ends (Kept (funding ∷ []) k) (fail x funding code message) (λ _. IsSettledBroadcast k) R
unfolding is_deployment_transition_allowed
fail_funding-Kept x code message k =
    Ends-weaken (Ends-fail x funding code message refl) (λ w h. h) (λ _. failed_broadcast k)
      (λ w h. h)

with_revision-Kept :
    (x : Externals) (target : ChainDefinition) (upstream deployer : String)
    (candidate : DeploymentCandidateRecord) (revision : Option RepositoryRevision) (k : ℕ)
    → Ends
        (Kept (funding ∷ []) k)
        (with_revision x target upstream deployer candidate revision)
        (λ _. IsSettledBroadcast k)
        (IsStoppedBroadcast k)
unfolding with_revision
with_revision-Kept x target upstream deployer candidate none k = fail_funding-Kept x _ _ k
with_revision-Kept x target upstream deployer candidate (some revision) k =
    Ends-bind
      (Ends-weaken (Ends-call x.workspace) (λ w h. h) (λ _ w h. h)
        (stopped (funding ∷ []) k (λ s h. ground (arith, h))))
      (λ _.
        Ends-weaken (broadcast_workspace-Kept x target upstream deployer candidate revision k)
          (λ w h. h) (λ _ w h. h) settled)
  where
    settled : (w : World) → IsSettledBroadcast k w → IsStoppedBroadcast k w
    settled w (inl h) = inl (
        Kept-weaken settled_statuses (prepared ∷ funding ∷ settled_statuses) k
          (λ s e. ground (arith, e)) w h)
    settled w (inr h) = inr h

with_row-Kept :
    (x : Externals) (run : DeploymentRunRecord) (target : ChainDefinition)
    (upstream deployer : String) (candidate : Option DeploymentCandidateRecord) (k : ℕ)
    → Ends
        (Kept (funding ∷ []) k)
        (with_row x run target upstream deployer candidate)
        (λ _. IsSettledBroadcast k)
        (IsStoppedBroadcast k)
unfolding with_row
with_row-Kept x run target upstream deployer none k = fail_funding-Kept x _ _ k
with_row-Kept x run target upstream deployer (some candidate) k =
    Ends-if {b = is_foundry candidate.framework}
      (λ _. with_revision-Kept x target upstream deployer candidate _ k)
      (λ _. fail_funding-Kept x _ _ k)

funded-Kept :
    (x : Externals) (run : DeploymentRunRecord) (target : ChainDefinition)
    (upstream deployer : String) (reply : Result Failure (Unit {0})) (k : ℕ)
    → Ends
        (Kept (funding ∷ []) k)
        (funded x run target upstream deployer reply)
        (λ _. IsSettledBroadcast k)
        (IsStoppedBroadcast k)
unfolding funded
funded-Kept x run target upstream deployer (err e) k = fail_funding-Kept x _ _ k
funded-Kept x run target upstream deployer (ok _) k =
    Ends-bind (Ends-look (λ w. w.rows))
      (λ rows. with_row-Kept x run target upstream deployer (candidate_of run rows) k)

to_funding-Kept :
    (x : Externals) (run : DeploymentRunRecord) (k : ℕ) {R : World → Type 0}
    → Ends
        (Read ready_statuses k run)
        (when
          (same_status run.status prepared)
          (transition_run x (from_to prepared funding "funding disposable deployer")))
        (λ _. Kept (funding ∷ []) k)
        R
unfolding is_deployment_transition_allowed
to_funding-Kept x run k =
    Ends-if {b = same_status run.status prepared}
      (λ e.
        Ends-weaken
          (Ends-transition x (from_to prepared funding "funding disposable deployer") refl)
          (Kept-of_Read ready_statuses (prepared ∷ []) k run (λ h. ground (arith, e, h)))
          (λ _ w h. h) (λ w h. h))
      (λ e.
        Ends-pure tt (Kept-of_Read ready_statuses (funding ∷ []) k run (λ h. ground (arith, e, h))))

with_credential-Kept :
    (x : Externals) (run : DeploymentRunRecord) (credential : Option String) (k : ℕ)
    → Ends
        (Read ready_statuses k run)
        (with_credential x run credential)
        (λ _. IsSettledBroadcast k)
        (IsStoppedBroadcast k)
unfolding with_credential is_deployment_transition_allowed
with_credential-Kept x run none k =
    Ends-weaken
      (Ends-fail_in x run "CREDENTIAL_LOST" none ready_statuses (λ s h. ground (arith, h)))
      (λ w h. h) (λ _. failed_broadcast k) (λ w h. h)
with_credential-Kept x run (some deployer) k = Ends-bind (call _) (λ target.
    Ends-bind (call _) (λ upstream. Ends-bind (call _) (λ _.
      Ends-bind (to_funding-Kept x run k) (λ _. funded-Kept x run target upstream deployer _ k))))
  where
    call :
        {A : Type 0} (r : Result Failure A)
        → Ends
            (Read ready_statuses k run)
            (lift r)
            (λ _. Read ready_statuses k run)
            (IsStoppedBroadcast k)
    call r =
        Ends-weaken (Ends-call r) (λ w h. h) (λ _ w h. h)
          (λ w h. stopped ready_statuses k (λ s e. e) w h.0)

pub process_broadcast_deployment-Ends :
    (x : Externals) (k : ℕ)
    → Ends
        (Kept ready_statuses k)
        (process_broadcast_deployment x)
        (λ _. IsSettledBroadcast k)
        (IsStoppedBroadcast k)
unfolding process_broadcast_deployment
process_broadcast_deployment-Ends x k = Ends-bind Ends-must_get (λ run. Ends-known (λ here.
    let not_over : (same_status run.status completed || same_status run.status cancelled) ≡ false =
      ground (arith, here) in
    let not_sent : is_sent run.status ≡ false = ground (arith, here) in
    let is_ready : (not (same_status run.status prepared) && not (same_status run.status funding))
        ≡ false =
      ground (arith, here) in
    rw (not_over, not_sent, is_ready)
      (Ends-bind (Ends-look (λ w. w.credential))
        (λ credential. with_credential-Kept x run credential k))))

-- On a run that is PREPARED or FUNDING, with its events a path of the transition table: a broadcast
-- job that returns leaves the run in RECONCILIATION_REQUIRED, COMPLETED or FAILED, and one that throws
-- leaves it so or in PREPARED or FUNDING; the job gave the sandbox at most one script, none if it
-- leaves PREPARED or FUNDING, and the events are a path of the table again.
pub process_broadcast_deployment_settles :
    (x : Externals) (k : ℕ) (w : World)
    → Kept ready_statuses k w
    → Post (λ _. IsSettledBroadcast k) (IsStoppedBroadcast k) (process_broadcast_deployment x w)
process_broadcast_deployment_settles x k w kept = (process_broadcast_deployment-Ends x k).at w kept
