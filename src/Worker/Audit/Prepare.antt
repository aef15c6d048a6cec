-- ===== src/Worker/Audit/Prepare.antt =====
-- The prepare job broadcasts nothing, and when it returns the run is PREPARED or FAILED.
use chain_port.Prelude.{
  ℕ, ◌≡◌, refl, String, true, false, not, ◌||◌, ◌&&◌, Option, none, some, or_else, List, [], ◌∷◌,
  ◌==◌, ◌===◌, arith, Result, ok, err, Ends, ◌>>◌, lift, Ends-pure, Ends-if, Ends-bind, Ends-weaken,
}
use chain_port.Lifecycle.Deployment.{
  DeploymentRunStatus, queued, checking_eligibility, preparing, simulating, prepared, failed,
  is_deployment_transition_allowed,
}
use chain_port.Database.Models.{DeploymentRunRecord, DeploymentCandidateRecord}
use chain_port.Database.Deployments.{
  CandidateInput, is_foundry, set_candidate, set_deployer_address, upsert_preflight,
}
use chain_port.Deployment.Models.{RepositoryRevision}
use chain_port.Deployment.Eligibility.{DeploymentError}
use chain_port.Deployment.Policy.{assert_preflight_policy, policy_for}
use chain_port.Deployment.Target.{ChainDefinition}
use chain_port.Deployment.Errors.{Failure}
use chain_port.Deployment.Messages.{error_code, policy_message}
use chain_port.Worker.Externals.{Externals, World, Command, ParsedPreflight}
use chain_port.Worker.Common.{
  transition_run, modify_rows, run_command, store_credential, fail, fail_now,
}
use chain_port.Worker.Prepare.{
  persist_candidates, accept_preflight, preflight_row, simulate, to_prepared, to_simulating,
  with_candidate, prepare_workspace, is_generated, select_candidate,
}
use chain_port.Worker.Audit.{is_in, Kept, Kept-weaken}
use chain_port.Worker.Audit.Rules.{
  Ends-modify_rows, Ends-transition, Ends-fail, Ends-fail_in, Ends-must_get, Ends-call, Ends-look,
}

-- The statuses at which a prepare job starts.
abbrev pub fresh_statuses : List DeploymentRunStatus
fresh_statuses = queued ∷ checking_eligibility ∷ preparing ∷ []

-- The statuses in which it leaves a run when it returns.
abbrev pub answered_statuses : List DeploymentRunStatus
answered_statuses = prepared ∷ failed ∷ []

abbrev pub trying_statuses : List DeploymentRunStatus
trying_statuses = preparing ∷ simulating ∷ []

persist_candidates-Kept :
    (x : Externals) (revision : String) (candidates : List CandidateInput)
    (p : List DeploymentRunStatus) (k : ℕ) {R : World → Type 0}
    → Ends (Kept p k) (persist_candidates x revision candidates) (λ _. Kept p k) R
unfolding persist_candidates
persist_candidates-Kept x revision [] p k = Ends-pure [] (λ w h. h)
persist_candidates-Kept x revision (candidate ∷ candidates) p k =
    Ends-bind (Ends-look (λ w. w.rows)) (λ rows.
      Ends-bind (Ends-modify_rows _ (λ r. refl) (λ r. refl)) (λ _.
        Ends-bind (persist_candidates-Kept x revision candidates p k)
          (λ rest. Ends-pure _ (λ w h. h))))

-- A transition to FAILED that is known to be allowed.
fail_answered :
    (x : Externals) (s : DeploymentRunStatus) (code : String) (message : Option String) (k : ℕ)
    {R : World → Type 0}
    → is_deployment_transition_allowed s failed ≡ true
    → Ends (Kept (s ∷ []) k) (fail x s code message) (λ _. Kept answered_statuses k) R
fail_answered x s code message k allowed =
    Ends-weaken (Ends-fail x s code message allowed) (λ w h. h)
      (λ _. Kept-weaken (failed ∷ []) answered_statuses k (λ t h. ground (arith, h))) (λ w h. h)

pub fail_now_answered :
    (x : Externals) (code : String) (message : Option String) (p : List DeploymentRunStatus) (k : ℕ)
    {R : World → Type 0}
    → ((s : DeploymentRunStatus)
        → is_in p s ≡ true
        → is_deployment_transition_allowed s failed ≡ true)
    → Ends (Kept p k) (fail_now x code message) (λ _. Kept answered_statuses k) R
unfolding fail_now
fail_now_answered x code message p k allowed = Ends-bind Ends-must_get (λ run.
    Ends-weaken (Ends-fail_in x run code message p allowed) (λ w h. h)
      (λ _. Kept-weaken (failed ∷ []) answered_statuses k (λ t h. ground (arith, h))) (λ w h. h))

accept_preflight-Kept :
    (x : Externals) (target : ChainDefinition) (parsed : ParsedPreflight) (k : ℕ)
    {R : World → Type 0}
    → Ends
        (Kept (simulating ∷ []) k)
        (accept_preflight x target parsed)
        (λ _. Kept answered_statuses k)
        R
unfolding accept_preflight is_deployment_transition_allowed
accept_preflight-Kept x target parsed k {R} = by_policy (
    assert_preflight_policy (policy_for target x.overrides) (or_else parsed.transaction_count 1)
      (or_else parsed.estimated_gas 0) (0 ∷ []))
  where
    by_policy :
        (r : Result DeploymentError (Unit {0}))
        → Ends
            (Kept (simulating ∷ []) k)
            (elim r [
              | err e ↦ fail x simulating (error_code e) (
                  some (
                    policy_message
                      (policy_for target x.overrides)
                      (or_else parsed.transaction_count 1)
                      (or_else parsed.estimated_gas 0)))
              | ok _ ↦
                  modify_rows (upsert_preflight (preflight_row parsed))
                  >> transition_run x (to_prepared parsed)
            ])
            (λ _. Kept answered_statuses k)
            R
    by_policy (err e) = fail_answered x simulating _ _ k refl
    by_policy (ok _) =
        Ends-bind
          (Ends-modify_rows (upsert_preflight (preflight_row parsed)) (λ r. refl) (λ r. refl))
          (λ _.
            Ends-weaken (Ends-transition x (to_prepared parsed) refl) (λ w h. h)
              (λ _. Kept-weaken (prepared ∷ []) answered_statuses k (λ t h. ground (arith, h)))
              (λ w h. h))

simulation-Kept :
    (command : Command) (p : List DeploymentRunStatus) (k : ℕ) {R : World → Type 0}
    → command.is_broadcast ≡ false
    → Ends (Kept p k) (run_command command) (λ _. Kept p k) R
simulation-Kept command p k not_broadcast = record {
  at = λ w kept.
      let counted = kept.count in
      record { trail = kept.trail; status = kept.status; count = rw not_broadcast (omega arith) };
}

store_credential-Kept :
    (address : String) (p : List DeploymentRunStatus) (k : ℕ) {R : World → Type 0}
    → Ends (Kept p k) (store_credential address) (λ _. Kept p k) R
store_credential-Kept address p k = record {
  at = λ w kept. record { trail = kept.trail; status = kept.status; count = kept.count };
}

-- A call outside at one status of the two of the `try` block.
trying :
    {A : Type 0} (s : DeploymentRunStatus) (k : ℕ) (r : Result Failure A)
    → is_in trying_statuses s ≡ true
    → Ends (Kept (s ∷ []) k) (lift r) (λ _. Kept (s ∷ []) k) (Kept trying_statuses k)
trying s k r is_trying =
    Ends-weaken (Ends-call r) (λ w h. h) (λ _ w h. h)
      (Kept-weaken (s ∷ []) trying_statuses k (λ t h. ground (arith, h, is_trying)))

simulate-Kept :
    (x : Externals) (target : ChainDefinition) (upstream : String)
    (selected : DeploymentCandidateRecord) (k : ℕ)
    → Ends
        (Kept (preparing ∷ []) k)
        (simulate x target upstream selected)
        (λ _. Kept answered_statuses k)
        (Kept trying_statuses k)
unfolding simulate is_deployment_transition_allowed
simulate-Kept x target upstream selected k =
    Ends-bind (Ends-modify_rows (set_candidate selected.id) (λ r. refl) (λ r. refl)) (λ _.
      Ends-bind (store_credential-Kept x.issued (preparing ∷ []) k) (λ _.
        Ends-bind (Ends-modify_rows (set_deployer_address x.issued) (λ r. refl) (λ r. refl)) (λ _.
          Ends-bind (trying preparing k _ refl) (λ _. Ends-bind (trying preparing k _ refl) (λ _.
            Ends-bind (Ends-transition x (to_simulating x.issued) refl) (λ _.
              Ends-bind (trying simulating k _ refl) (λ _.
                Ends-bind (simulation-Kept _ (simulating ∷ []) k refl) (λ _.
                  Ends-bind (trying simulating k x.execution refl) (λ result.
                    Ends-if {b = result.timed_out || not (result.exit_code == 0)}
                      (λ _. fail_answered x simulating _ _ k refl)
                      (λ _.
                        accept_preflight-Kept x target (x.parse_preflight result.output) k))))))))))

with_candidate-Kept :
    (x : Externals) (target : ChainDefinition) (upstream : String)
    (selected : Option DeploymentCandidateRecord) (k : ℕ)
    → Ends
        (Kept (preparing ∷ []) k)
        (with_candidate x target upstream selected)
        (λ _. Kept answered_statuses k)
        (Kept trying_statuses k)
unfolding with_candidate is_deployment_transition_allowed
with_candidate-Kept x target upstream none k = fail_answered x preparing _ _ k refl
with_candidate-Kept x target upstream (some selected) k =
    Ends-if {b = is_foundry selected.framework} (λ _. simulate-Kept x target upstream selected k)
      (λ _. fail_answered x preparing _ _ k refl)

pub prepare_workspace-Kept :
    (x : Externals) (run : DeploymentRunRecord) (revision : RepositoryRevision)
    (target : ChainDefinition) (upstream : String) (k : ℕ)
    → Ends
        (Kept (preparing ∷ []) k)
        (prepare_workspace x run revision target upstream)
        (λ _. Kept answered_statuses k)
        (Kept trying_statuses k)
unfolding prepare_workspace is_deployment_transition_allowed
prepare_workspace-Kept x run revision target upstream k =
    Ends-bind (trying preparing k _ refl) (λ _. Ends-bind (trying preparing k _ refl) (λ actual.
      Ends-if {b = is_generated revision.revision_type && not (actual === revision.content_hash)}
        (λ _. fail_answered x preparing _ _ k refl)
        (λ _. Ends-bind (trying preparing k x.detected refl) (λ detected.
          Ends-bind (persist_candidates-Kept x revision.id detected (preparing ∷ []) k)
            (λ persisted.
              with_candidate-Kept x target upstream
                (select_candidate run.deployment_candidate_id persisted) k)))))
