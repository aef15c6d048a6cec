-- ===== src/Worker/Audit/Jobs.antt =====
-- The three jobs of a deployment keep the path of the status events, from the statuses at which they
-- are meant to run.
use chain_port.Prelude.{
  String, ℕ, ◌≡◌, refl, true, false, not, ◌||◌, ◌&&◌, some, or_else, List, [], ◌∷◌, length, ◌==◌,
  arith, Result, ok, err, Ends, Post, ◌>>=◌, Ends-pure, Ends-if, Ends-bind, Ends-weaken,
  Ends-try_catch,
}
use chain_port.Lifecycle.Deployment.{
  DeploymentRunStatus, broadcasting, confirming, verifying, completed, failed,
  reconciliation_required, is_deployment_transition_allowed,
}
use chain_port.Database.Models.{DeploymentRunRecord}
use chain_port.Database.Deployments.{same_status}
use chain_port.Deployment.Target.{ChainDefinition, require_deployment_target, confirm_target_rpc}
use chain_port.Deployment.Errors.{Failure}
use chain_port.Worker.Externals.{Externals, World}
use chain_port.Worker.Common.{upstream_of}
use chain_port.Worker.Confirm.{
  to_reconcile, reconcile_error, no_address, reconcile_reached, reconcile_transactions,
  process_reconcile_deployment,
}
use chain_port.Worker.Audit.{is_in, Kept, Read, Kept-weaken, Kept-of_Read, same_status_refl}
use chain_port.Worker.Audit.Rules.{
  Ends-transition_try, Ends-known, Ends-transition_in, Ends-must_get, Ends-call, Ends-look,
}
use chain_port.Worker.Audit.Confirm.{open_statuses, settled_statuses, confirm_and_verify-Kept}

-- The statuses of a run that may have broadcast.
abbrev pub sent_statuses : List DeploymentRunStatus
sent_statuses =
    broadcasting ∷ confirming ∷ verifying ∷ reconciliation_required ∷ completed ∷ failed ∷ []

abbrev pub unsettled_statuses : List DeploymentRunStatus
unsettled_statuses = broadcasting ∷ confirming ∷ verifying ∷ []

pub settled-sent :
    (s : DeploymentRunStatus) → is_in settled_statuses s ≡ true → is_in sent_statuses s ≡ true
settled-sent s h = ground (arith, h)

pub open-sent :
    (s : DeploymentRunStatus) → is_in open_statuses s ≡ true → is_in sent_statuses s ≡ true
open-sent s h = ground (arith, h)

reconcile_error-Kept :
    (x : Externals) (error : Failure) (k : ℕ) {R : World → Type 0}
    → Ends (Kept open_statuses k) (reconcile_error x error) (λ _. Kept settled_statuses k) R
unfolding reconcile_error is_deployment_transition_allowed
reconcile_error-Kept x error k = Ends-bind Ends-must_get (λ run.
    Ends-if
      {b = not (same_status run.status reconciliation_required)
        && not (same_status run.status completed)}
      (λ e.
        Ends-weaken
          (Ends-transition_in x run (to_reconcile run.status error.message) open_statuses
            unsettled_statuses refl (λ h. ground (arith, e, h)) (λ t h. ground (arith, h)))
          (λ w h. h)
          (λ _.
            Kept-weaken (reconciliation_required ∷ []) settled_statuses k
              (λ t h. ground (arith, h)))
          (λ w h. h))
      (λ e.
        Ends-pure tt
          (Kept-of_Read open_statuses settled_statuses k run (λ h. ground (arith, e, h)))))

-- A reconciliation that got as far as the target returns, in a settled status.
pub reconcile_reached-Kept :
    (x : Externals) (run : DeploymentRunRecord) (target : ChainDefinition)
    (reply : Result Failure (Unit {0})) (k : ℕ) {R : World → Type 0}
    → Ends
        (Read open_statuses k run)
        (reconcile_reached x run target reply)
        (λ _. Kept settled_statuses k)
        R
unfolding reconcile_reached is_deployment_transition_allowed
reconcile_reached-Kept x run target (err _) k =
    Ends-if {b = not (same_status run.status reconciliation_required)}
      (λ e.
        Ends-weaken
          (Ends-transition_in x run
            (to_reconcile run.status "unable to reach target RPC during reconciliation")
            open_statuses unsettled_statuses refl (λ h. ground (arith, e, h))
            (λ t h. ground (arith, h)))
          (λ w h. h)
          (λ _.
            Kept-weaken (reconciliation_required ∷ []) settled_statuses k
              (λ t h. ground (arith, h)))
          (λ w h. h))
      (λ e.
        Ends-pure tt
          (Kept-of_Read open_statuses settled_statuses k run (λ h. ground (arith, e, h))))
reconcile_reached-Kept x run target (ok _) k = Ends-known (λ here.
    Ends-try_catch
      (Ends-weaken
        (confirm_and_verify-Kept x target (or_else run.deployer_address no_address) run.status
          (some run.status) k here refl)
        (Kept-of_Read open_statuses (run.status ∷ []) k run (λ _. same_status_refl run.status))
        (λ _ w h. h) (λ w h. h))
      (λ e. reconcile_error-Kept x e k))

reconcile_transactions-Kept :
    (x : Externals) (run : DeploymentRunRecord) (k : ℕ)
    → Ends
        (Read open_statuses k run)
        (reconcile_transactions x run)
        (λ _. Kept settled_statuses k)
        (Kept open_statuses k)
unfolding reconcile_transactions
reconcile_transactions-Kept x run k =
    Ends-weaken
      (Ends-bind (Ends-call _)
        (λ target. Ends-bind (Ends-call _) (λ upstream. reconcile_reached-Kept x run target _ k)))
      (λ w h. h) (λ _ w h. h) (λ w h. h.0)

-- A reconciliation of an open run, thrown or not, keeps the path and runs no script.
pub process_reconcile_deployment-Kept :
    (x : Externals) (k : ℕ)
    → Ends
        (Kept open_statuses k)
        (process_reconcile_deployment x)
        (λ _. Kept sent_statuses k)
        (Kept open_statuses k)
unfolding process_reconcile_deployment
process_reconcile_deployment-Kept x k = Ends-bind Ends-must_get (λ run.
    Ends-bind (Ends-look (λ w. w.rows)) (λ rows.
      Ends-if {b = length rows.transactions == 0}
        (λ none_there.
          Ends-if
            {b = same_status run.status broadcasting
              || same_status run.status reconciliation_required}
            (λ e.
              Ends-weaken (Ends-transition_try x run (to_reconcile run.status _) refl) (λ w h. h)
                (λ _.
                  Kept-weaken (reconciliation_required ∷ open_statuses) sent_statuses k
                    (λ t h. ground (arith, h)))
                (λ w h. h))
            (λ e.
              Ends-pure tt (Kept-of_Read open_statuses sent_statuses k run (open-sent run.status))))
        (λ some_there.
          Ends-weaken (reconcile_transactions-Kept x run k) (λ w h. h)
            (λ _. Kept-weaken settled_statuses sent_statuses k settled-sent) (λ w h. h))))

-- On an open run with recorded transactions, whose target is deployable and has an RPC URL, and whose
-- events are a path of the transition table: a reconciliation returns, whatever the chain answers or
-- refuses, in RECONCILIATION_REQUIRED, COMPLETED or FAILED; it broadcasts nothing, and the events are
-- a path of the table again.
pub process_reconcile_deployment_settles :
    (x : Externals) (target : ChainDefinition) (upstream : String) (k : ℕ) (w : World)
    → Kept open_statuses k w
    → (length w.rows.transactions == 0) ≡ false
    → require_deployment_target (x.chain w.rows.run.target_testnet_key) ≡ ok target
    → upstream_of x target ≡ ok upstream
    → Post (λ _. Kept settled_statuses k) (λ _. ⊥) (process_reconcile_deployment x w)
unfolding process_reconcile_deployment reconcile_transactions ◌>>=◌
process_reconcile_deployment_settles x target upstream k w kept some_there found reached =
    rw (some_there, found, reached)
      ((reconcile_reached-Kept x w.rows.run target (confirm_target_rpc target x.chain_id_reply) k
          {R = λ _. ⊥}).at
        w (kept, refl))
