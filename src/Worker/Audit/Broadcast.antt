-- ===== src/Worker/Audit/Broadcast.antt =====
-- The broadcast job gives the sandbox at most one script, and leaves a run whose script it ran in a
-- settled status.
use chain_port.Prelude.{
  ℕ, ◌+◌, ◌≡◌, ◌⊎◌, inl, inr, refl, String, Bool, true, false, not, ◌&&◌, none, List, [], ◌∷◌,
  length, ◌==◌, arith, Ends, ◌>>=◌, ◌>>◌, when, lift, try_catch, Ends-pure, Ends-if, Ends-cases,
  Ends-bind, Ends-weaken, Ends-try_catch, Ends-try_finally, Bool-cases,
}
use chain_port.Lifecycle.Deployment.{
  DeploymentRunStatus, prepared, funding, broadcasting, confirming, failed, reconciliation_required,
  is_deployment_transition_allowed,
}
use chain_port.Database.Models.{DeploymentCandidateRecord}
use chain_port.Database.Deployments.{from_to, same_status}
use chain_port.Database.Transactions.{record_transaction}
use chain_port.Deployment.Models.{RepositoryRevision}
use chain_port.Deployment.Target.{ChainDefinition}
use chain_port.Deployment.Errors.{Failure}
use chain_port.Worker.Externals.{Externals, World, SandboxResult, BroadcastTransaction, Command}
use chain_port.Worker.Common.{run_command}
use chain_port.Worker.Confirm.{to_reconcile}
use chain_port.Worker.Broadcast.{
  record_hashes, record_artifacts, after_recording, to_confirming, broadcast_script,
  start_broadcast, not_begun, begun, destroy_credential, broadcast_workspace,
}
use chain_port.Worker.Audit.{Kept, Kept-weaken, Kept-of_Read}
use chain_port.Worker.Audit.Rules.{
  Ends-modify_rows, Ends-transition, Ends-transition_try, Ends-fail, Ends-fail_in,
  Ends-transition_in, Ends-must_get, Ends-call,
}
use chain_port.Worker.Audit.Confirm.{open_statuses, settled_statuses, confirm_and_verify-Kept}
use chain_port.Worker.Audit.Jobs.{unsettled_statuses}

record_hashes-Kept :
    (deployer : String) (i : ℕ) (hashes : List String) (p : List DeploymentRunStatus) (k : ℕ)
    {R : World → Type 0}
    → Ends (Kept p k) (record_hashes deployer i hashes) (λ _. Kept p k) R
unfolding record_hashes
record_hashes-Kept deployer i [] p k = Ends-pure tt (λ w h. h)
record_hashes-Kept deployer i (hash ∷ hashes) p k =
    Ends-bind (Ends-modify_rows (record_transaction _) (λ r. refl) (λ r. refl))
      (λ _. record_hashes-Kept deployer (i + 1) hashes p k)

record_artifacts-Kept :
    (x : Externals) (i : ℕ) (txs : List BroadcastTransaction) (p : List DeploymentRunStatus) (k : ℕ)
    → Ends (Kept p k) (record_artifacts x i txs) (λ _. Kept p k) (Kept p k)
unfolding record_artifacts
record_artifacts-Kept x i [] p k = Ends-pure tt (λ w h. h)
record_artifacts-Kept x i (tx ∷ txs) p k = Ends-bind (Ends-call _) (λ value.
    Ends-bind (Ends-modify_rows (record_transaction _) (λ r. refl) (λ r. refl))
      (λ _. record_artifacts-Kept x (i + 1) txs p k))

-- The script runs once.
run_command-Kept :
    (command : Command) (p : List DeploymentRunStatus) (k : ℕ) {R : World → Type 0}
    → command.is_broadcast ≡ true
    → Ends (Kept p k) (run_command command) (λ _. Kept p (1 + k)) R
run_command-Kept command p k is_broadcast = record {
  at = λ w kept. record {
    trail = kept.trail;
    status = kept.status;
    count = rw (is_broadcast, kept.count) refl;
  };
}

after_recording-Kept :
    (x : Externals) (target : ChainDefinition) (deployer : String) (result : SandboxResult)
    (artifacts : List BroadcastTransaction) (k : ℕ)
    → Ends
        (Kept (broadcasting ∷ []) k)
        (after_recording x target deployer result artifacts)
        (λ _. Kept settled_statuses k)
        (Kept open_statuses k)
unfolding after_recording is_deployment_transition_allowed
after_recording-Kept x target deployer result artifacts k =
    Ends-if {b = result.timed_out}
      (λ _.
        Ends-weaken (Ends-transition x (to_reconcile broadcasting _) refl) (λ w h. h)
          (λ _.
            Kept-weaken (reconciliation_required ∷ []) settled_statuses k
              (λ t h. ground (arith, h)))
          (λ w h. h))
      (λ _.
        Ends-if
          {b = not (result.exit_code == 0)
            && (length x.journal_hashes == 0)
            && (length artifacts == 0)}
          (λ _.
            Ends-weaken (Ends-fail x broadcasting "DEPLOYMENT_FAILED" _ refl) (λ w h. h)
              (λ _. Kept-weaken (failed ∷ []) settled_statuses k (λ t h. ground (arith, h)))
              (λ w h. h))
          (λ _.
            Ends-bind (Ends-transition x (to_confirming x) refl)
              (λ _. confirm_and_verify-Kept x target deployer confirming none k refl refl)))

-- After the script was given to the sandbox, or before that and after the first transition.
abbrev Begun : List DeploymentRunStatus → ℕ → World → Type 0
Begun p k w = Kept p k w ⊎ Kept p (1 + k) w

broadcast_script-Kept :
    (x : Externals) (target : ChainDefinition) (upstream deployer : String)
    (candidate : DeploymentCandidateRecord) (k : ℕ)
    → Ends
        (Kept (broadcasting ∷ []) k)
        (broadcast_script x target upstream deployer candidate)
        (λ _. Begun settled_statuses k)
        (Begun open_statuses k)
unfolding broadcast_script
broadcast_script-Kept x target upstream deployer candidate k =
    Ends-bind (Ends-weaken (Ends-call _) (λ w h. h) (λ _ w h. h) (λ w h. inl (widen k w h))) (λ _.
      Ends-bind (run_command-Kept _ (broadcasting ∷ []) k refl)
        (λ _. Ends-weaken run (λ w h. h) (λ _ w h. inr h) (λ w h. inr h)))
  where
    widen : (k : ℕ) (w : World) → Kept (broadcasting ∷ []) k w → Kept open_statuses k w
    widen k = Kept-weaken (broadcasting ∷ []) open_statuses k (λ t h. ground (arith, h))

    run :
        Ends
          (Kept (broadcasting ∷ []) (1 + k))
          (do
            result ← lift x.execution
            record_hashes deployer 0 x.journal_hashes
            artifacts ← lift x.artifacts
            record_artifacts x 0 artifacts
            after_recording x target deployer result artifacts)
          (λ _. Kept settled_statuses (1 + k))
          (Kept open_statuses (1 + k))
    run = Ends-bind (Ends-weaken (Ends-call _) (λ w h. h) (λ _ w h. h) (widen (1 + k))) (λ result.
        Ends-bind (record_hashes-Kept deployer 0 x.journal_hashes (broadcasting ∷ []) (1 + k)) (λ _.
          Ends-bind (Ends-weaken (Ends-call _) (λ w h. h) (λ _ w h. h) (widen (1 + k)))
            (λ artifacts.
              Ends-bind
                (Ends-weaken (record_artifacts-Kept x 0 artifacts (broadcasting ∷ []) (1 + k))
                  (λ w h. h) (λ _ w h. h) (widen (1 + k)))
                (λ _. after_recording-Kept x target deployer result artifacts (1 + k)))))

-- After an error of the second part the run is settled, also if the handler throws.
begun-Kept :
    (x : Externals) (error : Failure) (k : ℕ)
    → Ends
        (Kept open_statuses k)
        (begun x error)
        (λ _. Kept settled_statuses k)
        (Kept settled_statuses k)
unfolding begun is_deployment_transition_allowed
begun-Kept x error k = Ends-bind Ends-must_get (λ run.
    elim (Bool-cases (same_status run.status reconciliation_required)) [
      | inl e ↦
          Ends-weaken
            (Ends-transition_try x run (to_reconcile run.status error.message)
              {p = reconciliation_required ∷ []} refl)
            (λ w h. (
              Kept-of_Read open_statuses (reconciliation_required ∷ []) k run
                  (λ _. ground (arith, e)) w h,
              h.1,
            ))
            (λ _.
              Kept-weaken (reconciliation_required ∷ reconciliation_required ∷ []) settled_statuses
                k (λ t h. ground (arith, h)))
            (Kept-weaken (reconciliation_required ∷ []) settled_statuses k
              (λ t h. ground (arith, h)))
      | inr e ↦
          Ends-weaken
            (Ends-transition_in x run (to_reconcile run.status error.message) open_statuses
              unsettled_statuses refl (λ h. ground (arith, e, h)) (λ t h. ground (arith, h)))
            (λ w h. h)
            (λ _.
              Kept-weaken (reconciliation_required ∷ []) settled_statuses k
                (λ t h. ground (arith, h)))
            (λ w h. h)
    ])

-- What a broadcast job leaves of a prepared run when it returns: the run is settled, and the script ran
-- at most once.
abbrev pub IsSettledBroadcast : ℕ → World → Type 0
IsSettledBroadcast k w = Kept settled_statuses k w ⊎ Kept settled_statuses (1 + k) w

-- And when it throws: the script did not run and the job may be tried again, or the run is settled.
abbrev pub IsStoppedBroadcast : ℕ → World → Type 0
IsStoppedBroadcast k w =
    Kept (prepared ∷ funding ∷ settled_statuses) k w ⊎ Kept settled_statuses (1 + k) w

with_begun-Kept :
    (x : Externals) (error : Failure) (k : ℕ)
    → Ends
        (Begun open_statuses k)
        (begun x error)
        (λ _. Begun settled_statuses k)
        (Begun settled_statuses k)
with_begun-Kept x error k =
    Ends-cases (Ends-weaken (begun-Kept x error k) (λ w h. h) (λ _ w h. inl h) (λ w h. inl h))
      (Ends-weaken (begun-Kept x error (1 + k)) (λ w h. h) (λ _ w h. inr h) (λ w h. inr h))

start_broadcast-Kept :
    (x : Externals) (revision : RepositoryRevision) (k : ℕ)
    → Ends
        (Kept (funding ∷ []) k)
        (start_broadcast x revision)
        (λ _. Kept (broadcasting ∷ []) k)
        (Kept (funding ∷ []) k)
unfolding start_broadcast is_deployment_transition_allowed
start_broadcast-Kept x revision k = Ends-bind (Ends-call _) (λ _. Ends-bind (Ends-call _) (λ _.
    Ends-bind (Ends-call _)
      (λ _. Ends-transition x (from_to funding broadcasting "broadcast started") refl)))

not_begun-Kept :
    (x : Externals) (error : Failure) (k : ℕ) {R : World → Type 0}
    → Ends (Kept (funding ∷ []) k) (not_begun x error) (λ _. Kept (failed ∷ []) k) R
unfolding not_begun is_deployment_transition_allowed
not_begun-Kept x error k =
    Ends-bind Ends-must_get
      (λ run. Ends-fail_in x run _ _ (funding ∷ []) (λ t h. ground (arith, h)))

-- The status after the first part, by whether the broadcast began.
abbrev Started : ℕ → Bool → World → Type 0
Started k true = Kept (broadcasting ∷ []) k
Started k false = Kept (failed ∷ []) k

destroy_credential-Kept :
    (p : List DeploymentRunStatus) (k : ℕ) (w : World)
    → Kept p k w
    → Kept p k (destroy_credential w)
destroy_credential-Kept p k w kept = record {
  trail = kept.trail;
  status = kept.status;
  count = kept.count;
}

pub broadcast_workspace-Kept :
    (x : Externals) (target : ChainDefinition) (upstream deployer : String)
    (candidate : DeploymentCandidateRecord) (revision : RepositoryRevision) (k : ℕ)
    → Ends
        (Kept (funding ∷ []) k)
        (broadcast_workspace x target upstream deployer candidate revision)
        (λ _. Begun settled_statuses k)
        (Begun settled_statuses k)
unfolding broadcast_workspace
broadcast_workspace-Kept x target upstream deployer candidate revision k =
    Ends-try_finally destroy_credential (
      Ends-weaken
        (Ends-bind {M = Started k}
          (Ends-try_catch {T = Kept (funding ∷ []) k}
            (Ends-bind (start_broadcast-Kept x revision k) (λ _. Ends-pure true (λ w h. h)))
            (λ e. Ends-bind (not_begun-Kept x e k) (λ _. Ends-pure false (λ w h. h))))
          second_part)
        (λ w h. h) (λ _. kept_after) kept_after)
  where
    second_part :
        (is_begun : Bool)
        → Ends
            (Started k is_begun)
            (when is_begun
              (try_catch (broadcast_script x target upstream deployer candidate) (begun x)))
            (λ _. Begun settled_statuses k)
            (Begun settled_statuses k)
    second_part true =
        Ends-try_catch (broadcast_script-Kept x target upstream deployer candidate k)
          (λ e. with_begun-Kept x e k)
    second_part false =
        Ends-pure tt
          (λ w h. inl (Kept-weaken (failed ∷ []) settled_statuses k (λ t h. ground (arith, h)) w h))

    kept_after :
        (w : World) → Begun settled_statuses k w → Begun settled_statuses k (destroy_credential w)
    kept_after w (inl h) = inl (destroy_credential-Kept settled_statuses k w h)
    kept_after w (inr h) = inr (destroy_credential-Kept settled_statuses (1 + k) w h)
