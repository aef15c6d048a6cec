-- ===== src/Worker/Audit/Fresh.antt =====
-- The prepare job as a whole, from its guards through the eligibility and the target to the workspace.
use chain_port.Prelude.{
  ℕ, ◌≡◌, refl, String, false, Option, none, some, List, [], ◌∷◌, arith, Result, ok, err, Ends,
  Post, when, Ends-pure, Ends-if, Ends-bind, Ends-weaken, Ends-try_catch,
}
use chain_port.Lifecycle.Deployment.{
  DeploymentRunStatus, queued, checking_eligibility, preparing, is_deployment_transition_allowed,
}
use chain_port.Database.Models.{DeploymentRunRecord}
use chain_port.Database.Deployments.{from_to, same_status}
use chain_port.Deployment.Models.{RepositoryRevision}
use chain_port.Deployment.Eligibility.{DeploymentError, EligibilityResult, evaluate_eligibility}
use chain_port.Deployment.Target.{ChainDefinition}
use chain_port.Deployment.Errors.{Failure}
use chain_port.Deployment.Messages.{error_code, eligibility_message}
use chain_port.Worker.Externals.{Externals, World}
use chain_port.Worker.Common.{transition_run, fail_now}
use chain_port.Worker.Prepare.{
  prepare_reached, prepare_target, prepare_revision, eligibility_input, process_prepare_deployment,
  is_done, is_sent,
}
use chain_port.Worker.Audit.{Kept, Read, Kept-weaken, Kept-of_Read}
use chain_port.Worker.Audit.Rules.{Ends-transition, Ends-known, Ends-must_get, Ends-call}
use chain_port.Worker.Audit.Prepare.{
  fresh_statuses, answered_statuses, trying_statuses, fail_now_answered, prepare_workspace-Kept,
}

abbrev checked_statuses : List DeploymentRunStatus
checked_statuses = checking_eligibility ∷ preparing ∷ []

to_preparing-Kept :
    (x : Externals) (run : DeploymentRunRecord) (k : ℕ) {R : World → Type 0}
    → Ends
        (Read checked_statuses k run)
        (when
          (same_status run.status checking_eligibility)
          (transition_run x (from_to checking_eligibility preparing "materialize started")))
        (λ _. Kept (preparing ∷ []) k)
        R
unfolding is_deployment_transition_allowed
to_preparing-Kept x run k =
    Ends-if {b = same_status run.status checking_eligibility}
      (λ e.
        Ends-weaken
          (Ends-transition x (from_to checking_eligibility preparing "materialize started") refl)
          (Kept-of_Read checked_statuses (checking_eligibility ∷ []) k run
            (λ h. ground (arith, e, h)))
          (λ _ w h. h) (λ w h. h))
      (λ e.
        Ends-pure tt
          (Kept-of_Read checked_statuses (preparing ∷ []) k run (λ h. ground (arith, e, h))))

fail_checked :
    (x : Externals) (code : String) (message : Option String) (k : ℕ) {R : World → Type 0}
    → Ends (Kept checked_statuses k) (fail_now x code message) (λ _. Kept answered_statuses k) R
unfolding is_deployment_transition_allowed
fail_checked x code message k =
    fail_now_answered x code message checked_statuses k (λ s h. ground (arith, h))

prepare_reached-Kept :
    (x : Externals) (run : DeploymentRunRecord) (revision : RepositoryRevision)
    (target : ChainDefinition) (upstream : String) (reply : Result Failure (Unit {0})) (k : ℕ)
    → Ends
        (Kept checked_statuses k)
        (prepare_reached x run revision target upstream reply)
        (λ _. Kept answered_statuses k)
        (Kept checked_statuses k)
unfolding prepare_reached is_deployment_transition_allowed
prepare_reached-Kept x run revision target upstream (err e) k = fail_checked x _ _ k
prepare_reached-Kept x run revision target upstream (ok _) k = Ends-bind Ends-must_get (λ latest.
    Ends-bind (to_preparing-Kept x latest k) (λ _.
      Ends-bind
        (Ends-weaken (Ends-call x.workspace) (λ w h. h) (λ _ w h. h)
          (Kept-weaken (preparing ∷ []) checked_statuses k (λ s h. ground (arith, h))))
        (λ _.
          Ends-try_catch (prepare_workspace-Kept x run revision target upstream k)
            (λ e. fail_now_answered x _ _ trying_statuses k (λ s h. ground (arith, h))))))

prepare_target-Kept :
    (x : Externals) (run : DeploymentRunRecord) (revision : RepositoryRevision) (k : ℕ)
    → Ends
        (Kept checked_statuses k)
        (prepare_target x run revision)
        (λ _. Kept answered_statuses k)
        (Kept checked_statuses k)
unfolding prepare_target
prepare_target-Kept x run revision k = Ends-bind (Ends-call _) (λ target.
    Ends-bind (Ends-call _) (λ upstream. prepare_reached-Kept x run revision target upstream _ k))

prepare_revision-Kept :
    (x : Externals) (run : DeploymentRunRecord) (revision : Option RepositoryRevision) (k : ℕ)
    → Ends
        (Kept checked_statuses k)
        (prepare_revision x run revision)
        (λ _. Kept answered_statuses k)
        (Kept checked_statuses k)
unfolding prepare_revision
prepare_revision-Kept x run none k = fail_checked x "REVISION_NOT_FOUND" none k
prepare_revision-Kept x run (some revision) k =
    by_eligibility (evaluate_eligibility (eligibility_input x run revision))
  where
    by_eligibility :
        (r : Result DeploymentError EligibilityResult)
        → Ends
            (Kept checked_statuses k)
            (elim r [
              | err e ↦
                  fail_now x
                    (error_code e)
                    (some (eligibility_message (eligibility_input x run revision) e))
              | ok _ ↦ prepare_target x run revision
            ])
            (λ _. Kept answered_statuses k)
            (Kept checked_statuses k)
    by_eligibility (err e) = fail_checked x _ _ k
    by_eligibility (ok _) = prepare_target-Kept x run revision k

to_checking-Kept :
    (x : Externals) (run : DeploymentRunRecord) (k : ℕ) {R : World → Type 0}
    → Ends
        (Read fresh_statuses k run)
        (when
          (same_status run.status queued)
          (transition_run x (from_to queued checking_eligibility "eligibility started")))
        (λ _. Kept checked_statuses k)
        R
unfolding is_deployment_transition_allowed
to_checking-Kept x run k =
    Ends-if {b = same_status run.status queued}
      (λ e.
        Ends-weaken
          (Ends-transition x (from_to queued checking_eligibility "eligibility started") refl)
          (Kept-of_Read fresh_statuses (queued ∷ []) k run (λ h. ground (arith, e, h)))
          (λ _.
            Kept-weaken (checking_eligibility ∷ []) checked_statuses k (λ s h. ground (arith, h)))
          (λ w h. h))
      (λ e.
        Ends-pure tt
          (Kept-of_Read fresh_statuses checked_statuses k run (λ h. ground (arith, e, h))))

pub process_prepare_deployment-Ends :
    (x : Externals) (k : ℕ)
    → Ends
        (Kept fresh_statuses k)
        (process_prepare_deployment x)
        (λ _. Kept answered_statuses k)
        (Kept fresh_statuses k)
unfolding process_prepare_deployment
process_prepare_deployment-Ends x k = Ends-bind Ends-must_get (λ run. Ends-known (λ here.
    let not_done : is_done run.status ≡ false = ground (arith, here) in
    let not_sent : is_sent run.status ≡ false = ground (arith, here) in
    rw (not_done, not_sent)
      (Ends-bind (to_checking-Kept x run k) (λ _.
        Ends-weaken (prepare_revision-Kept x run (x.revision run.repository_revision_id) k)
          (λ w h. h) (λ _ w h. h)
          (Kept-weaken checked_statuses fresh_statuses k (λ s h. ground (arith, h)))))))

-- On a run that is QUEUED, CHECKING_ELIGIBILITY or PREPARING, with its events a path of the transition
-- table: a prepare job that returns leaves the run PREPARED or FAILED, and one that throws leaves it
-- in one of the three; the job broadcasts nothing, and the events are a path of the table again.
pub process_prepare_deployment_answers :
    (x : Externals) (k : ℕ) (w : World)
    → Kept fresh_statuses k w
    → Post (λ _. Kept answered_statuses k) (Kept fresh_statuses k) (process_prepare_deployment x w)
process_prepare_deployment_answers x k w kept = (process_prepare_deployment-Ends x k).at w kept
