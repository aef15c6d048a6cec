-- ===== src/Worker/Common.antt =====
-- apps/worker/src/deployment-processor.ts: the helpers of the three jobs.
use chain_port.Prelude.{
  String, Option, none, some, or_else, ◌∷◌, ◌===◌, if◌then◌else◌, Result, ok, err, pure, gets,
  modify, ◌>>=◌, try_catch,
}
use chain_port.Lifecycle.Paths.{TransitionError, invalid_transition}
use chain_port.Lifecycle.Deployment.{DeploymentRunStatus}
use chain_port.Database.Models.{Rows, DeploymentRunRecord}
use chain_port.Database.Deployments.{TransitionInput, from_to, transition}
use chain_port.Deployment.Models.{RevisionType}
use chain_port.Deployment.Target.{ChainDefinition, select_upstream_rpc}
use chain_port.Deployment.Errors.{message_of, transition_failure, Failure}
use chain_port.Worker.Externals.{Externals, World, Action, Command}

abbrev pub plain_error : String → Failure
plain_error message = record { code = none; message = message }

-- A transition that the table refuses throws.
abbrev pub transition_result :
    World → Result (TransitionError DeploymentRunStatus) Rows → Result Failure (Unit {0}) × World
transition_result world (ok rows) = (ok tt, record world { rows = rows })
transition_result world (err (invalid_transition from to)) =
    (err (transition_failure from to), world)

unfoldable pub transition_run : Externals → TransitionInput → Action (Unit {0})
transition_run x input world = transition_result world (transition x.now input world.rows)

-- `mustGet`, of a run that is there.
abbrev pub must_get : Action DeploymentRunRecord
must_get = gets (λ w. w.rows.run)

abbrev pub modify_rows : (Rows → Rows) → Action (Unit {0})
modify_rows f = modify (λ w. record w { rows = f w.rows })

abbrev pub store_credential : String → Action (Unit {0})
store_credential address = modify (λ w. record w { credential = some address })

abbrev pub run_command : Command → Action (Unit {0})
run_command command = modify (λ w. record w { executed = command ∷ w.executed })

abbrev pub default_message : String
default_message = message_of "DEPLOYMENT_FAILED"

abbrev pub failure_of : DeploymentRunStatus → String → Option String → TransitionInput
failure_of from code message =
    record (from_to from DeploymentRunStatus.failed (or_else message default_message)) {
      error_code = some (some code);
      error_message = some (some (or_else message default_message));
    }

-- `fail`: an error of the transition is logged only.
unfoldable pub fail : Externals → DeploymentRunStatus → String → Option String → Action (Unit {0})
fail x from code message =
    try_catch (transition_run x (failure_of from code message)) (λ _. pure tt)

abbrev pub code_of : Failure → String → String
code_of error fallback = or_else error.code fallback

-- `fail(deps, id, currentStatus(await mustGet(deps, id)), ...)`
unfoldable pub fail_now : Externals → String → Option String → Action (Unit {0})
fail_now x code message = do run ← must_get; fail x run.status code message

-- `materialize`
abbrev pub materialize_generated : Externals → Result Failure (Unit {0})
materialize_generated x =
    if x.artifact_exists
    then x.artifact_copied
    else err (plain_error "generated revision artifact missing")

abbrev pub materialize_original : Externals → Result Failure (Unit {0})
materialize_original x =
    if x.repository_exists then x.repository_cloned else err (plain_error "repository missing")

abbrev pub materialize : Externals → RevisionType → Result Failure (Unit {0})
materialize x RevisionType.generated = materialize_generated x
materialize x RevisionType.original = materialize_original x

-- `selectUpstreamRpc(target, target.key === "anvil" ? deps.anvilRpcUrl : undefined)`
abbrev pub upstream_of : Externals → ChainDefinition → Result Failure String
upstream_of x target =
    select_upstream_rpc x.is_blank target (if target.key === "anvil" then x.anvil_rpc_url else none)
