-- ===== src/Worker/Service.antt =====
-- apps/api/src/deployment-service.ts: `confirm`, `cancel` and `reconcile`, of a deployment that is there.
use chain_port.Prelude.{String, Bool, ◌||◌, if◌then◌else◌, ◌===◌, not, pure, throw, ◌>>=◌, ◌>>◌}
use chain_port.Lifecycle.Deployment.{
  DeploymentRunStatus, prepared, broadcasting, confirming, verifying, completed, cancelled,
}
use chain_port.Database.Deployments.{from_to, same_status}
use chain_port.Deployment.Errors.{engine_error, engine_error_with}
use chain_port.Worker.Externals.{Externals, Action}
use chain_port.Worker.Common.{transition_run, must_get}

-- What a request puts into the queue.
pub data Request : Type 0 where
  no_job broadcast_job reconcile_job : Request

-- `confirm`: `confirm_target` is the key that the body names.
unfoldable pub confirm_deployment : Externals → String → Action Request
confirm_deployment x confirm_target = do
  run ← must_get
  if same_status run.status completed
        || same_status run.status broadcasting
        || same_status run.status confirming
      then pure no_job
      else if not (same_status run.status prepared)
      then throw
          (engine_error_with "DEPLOYMENT_NOT_ELIGIBLE" "Deployment is not prepared for broadcast")
      else if not (confirm_target === run.target_testnet_key)
      then throw (engine_error "CONFIRMATION_MISMATCH")
      else pure broadcast_job

abbrev pub is_started : DeploymentRunStatus → Bool
is_started status =
    same_status status broadcasting
    || same_status status confirming
    || same_status status verifying
    || same_status status completed

unfoldable pub cancel_deployment : Externals → Action Request
cancel_deployment x = do
  run ← must_get
  if is_started run.status
      then throw (engine_error "BROADCAST_ALREADY_STARTED")
      else transition_run x (from_to run.status cancelled "cancelled before broadcast")
        >> pure no_job

unfoldable pub reconcile_deployment : Externals → Action Request
reconcile_deployment x = pure reconcile_job
