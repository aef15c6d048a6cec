-- ===== src/Worker/Audit/Confirm.antt =====
-- Confirmation and reconciliation keep the path of the status events, and run no script.
use chain_port.Prelude.{
  ℕ, ◌≡◌, refl, String, true, false, not, Option, none, some, or_else, List, [], ◌∷◌, any,
  if◌then◌else◌, arith, Ends, when, Ends-pure, Ends-if, Ends-bind, Ends-weaken, Ends-for_each,
  Bool-cases, inl, inr, subst, sym,
}
use chain_port.Lifecycle.Deployment.{
  DeploymentRunStatus, broadcasting, confirming, verifying, completed, failed,
  reconciliation_required, is_deployment_transition_allowed,
}
use chain_port.Database.Models.{DeploymentRunRecord, DeploymentTransactionRecord}
use chain_port.Database.Deployments.{from_to, same_status, replace_checks}
use chain_port.Database.Transactions.{record_transaction, upsert_contract, list_transactions}
use chain_port.Deployment.Target.{ChainDefinition}
use chain_port.Worker.Externals.{Externals, World, ReceiptSnapshot}
use chain_port.Worker.Common.{transition_run}
use chain_port.Worker.Confirm.{
  to_reconcile, is_failed_check, record_contract, confirm_all, verify_contracts, advance,
  finish_checks, give_up, confirm_and_verify,
}
use chain_port.Worker.Audit.{is_in, Kept, Read, Kept-weaken, Kept-of_Read, is_in_one}
use chain_port.Worker.Audit.Rules.{
  Ends-modify_rows, Ends-transition, Ends-known, Ends-transition_in, Ends-must_get, Ends-call,
  Ends-look,
}

-- The statuses of a run that has broadcast and is not over.
abbrev pub open_statuses : List DeploymentRunStatus
open_statuses = broadcasting ∷ confirming ∷ verifying ∷ reconciliation_required ∷ []

-- The statuses in which a job leaves such a run.
abbrev pub settled_statuses : List DeploymentRunStatus
settled_statuses = reconciliation_required ∷ completed ∷ failed ∷ []

abbrev after_receipts : List DeploymentRunStatus
after_receipts = confirming ∷ verifying ∷ reconciliation_required ∷ []

record_contract-Kept :
    (x : Externals) (deployer : String) (tx : DeploymentTransactionRecord)
    (receipt : ReceiptSnapshot) (address : Option String) (p : List DeploymentRunStatus) (k : ℕ)
    → Ends (Kept p k) (record_contract x deployer tx receipt address) (λ _. Kept p k) (Kept p k)
unfolding record_contract
record_contract-Kept x deployer tx receipt none p k = Ends-pure tt (λ w h. h)
record_contract-Kept x deployer tx receipt (some address) p k =
    Ends-bind (Ends-call (x.code_at address))
      (λ code. Ends-modify_rows (upsert_contract x.to_lower_case _) (λ r. refl) (λ r. refl))

confirm_all-Kept :
    (x : Externals) (deployer : String) (txs : List DeploymentTransactionRecord)
    (p : List DeploymentRunStatus) (k : ℕ)
    → Ends (Kept p k) (confirm_all x deployer txs) (λ _. Kept p k) (Kept p k)
unfolding confirm_all
confirm_all-Kept x deployer [] p k = Ends-pure false (λ w h. h)
confirm_all-Kept x deployer (tx ∷ txs) p k = Ends-bind (Ends-call (x.receipt tx.hash)) (λ receipt.
    Ends-bind (Ends-modify_rows (record_transaction _) (λ r. refl) (λ r. refl)) (λ _.
      Ends-bind (record_contract-Kept x deployer tx receipt _ p k)
        (λ _. Ends-bind (confirm_all-Kept x deployer txs p k) (λ rest. Ends-pure _ (λ w h. h)))))

verify_contracts-Kept :
    (x : Externals) (chain : ChainDefinition) (p : List DeploymentRunStatus) (k : ℕ)
    → Ends (Kept p k) (verify_contracts x chain) (λ _. Kept p k) (Kept p k)
verify_contracts-Kept x chain p k = Ends-bind (Ends-look (λ w. w.rows.contracts)) (λ contracts.
    Ends-for_each contracts
      (λ c. Ends-modify_rows (upsert_contract x.to_lower_case _) (λ r. refl) (λ r. refl)))

-- From any open status the receipts lead to VERIFYING.
to_confirming-Kept :
    (x : Externals) (run : DeploymentRunRecord) (k : ℕ) {R : World → Type 0}
    → Ends
        (Read open_statuses k run)
        (when (same_status run.status broadcasting) (
          transition_run x
            (from_to broadcasting confirming "receipts fetched during reconciliation")))
        (λ _. Kept after_receipts k)
        R
unfolding is_deployment_transition_allowed
to_confirming-Kept x run k =
    Ends-if
      (λ e.
        Ends-weaken
          (Ends-transition x
            (from_to broadcasting confirming "receipts fetched during reconciliation") refl)
          (Kept-of_Read open_statuses (broadcasting ∷ []) k run (λ h. ground (arith, e, h)))
          (λ _. Kept-weaken (confirming ∷ []) after_receipts k (λ s h. ground (arith, h)))
          (λ w h. h))
      (λ e.
        Ends-pure tt (Kept-of_Read open_statuses after_receipts k run (λ h. ground (arith, e, h))))

to_verifying-Kept :
    (x : Externals) (run : DeploymentRunRecord) (k : ℕ) {R : World → Type 0}
    → Ends
        (Read after_receipts k run)
        (if same_status run.status confirming
          then transition_run x (from_to confirming verifying "receipts confirmed")
          else when (same_status run.status reconciliation_required) (
              transition_run x (
                from_to reconciliation_required verifying "reconciliation reconstructed receipts")))
        (λ _. Kept (verifying ∷ []) k)
        R
unfolding is_deployment_transition_allowed
to_verifying-Kept x run k =
    Ends-if
      (λ e.
        Ends-weaken (Ends-transition x (from_to confirming verifying "receipts confirmed") refl)
          (Kept-of_Read after_receipts (confirming ∷ []) k run (λ h. ground (arith, e, h)))
          (λ _ w h. h) (λ w h. h))
      (λ e.
        Ends-if {b = same_status run.status reconciliation_required}
          (λ f.
            Ends-weaken
              (Ends-transition x
                (from_to reconciliation_required verifying "reconciliation reconstructed receipts")
                refl)
              (Kept-of_Read after_receipts (reconciliation_required ∷ []) k run
                (λ h. ground (arith, f, h)))
              (λ _ w h. h) (λ w h. h))
          (λ f.
            Ends-pure tt
              (Kept-of_Read after_receipts (verifying ∷ []) k run (λ h. ground (arith, e, f, h)))))

advance-Kept :
    (x : Externals) (k : ℕ) {R : World → Type 0}
    → Ends (Kept open_statuses k) (advance x) (λ _. Kept (verifying ∷ []) k) R
unfolding advance
advance-Kept x k = Ends-bind Ends-must_get (λ run.
    Ends-bind (to_confirming-Kept x run k)
      (λ _. Ends-bind Ends-must_get (λ after. to_verifying-Kept x after k)))

finish_checks-Kept :
    (x : Externals) (chain : ChainDefinition) (deployer : String) (expected : Option ℕ) (k : ℕ)
    → Ends
        (Kept (verifying ∷ []) k)
        (finish_checks x chain deployer expected)
        (λ _. Kept settled_statuses k)
        (Kept (verifying ∷ []) k)
unfolding finish_checks is_deployment_transition_allowed
finish_checks-Kept x chain deployer expected k = Ends-bind (Ends-look (λ w. w.rows)) (λ rows.
    Ends-bind (Ends-call _) (λ checks.
      Ends-bind (Ends-modify_rows (replace_checks checks) (λ r. refl) (λ r. refl)) (λ _.
        elim (Bool-cases (any is_failed_check checks)) [
          | inl e ↦ rw e (
              Ends-weaken
                (Ends-transition x
                  (record (from_to verifying failed "post-deploy checks failed") {
                    error_code = some (some "DEPLOYMENT_FAILED");
                  })
                  refl)
                (λ w h. h)
                (λ _. Kept-weaken (failed ∷ []) settled_statuses k (λ s h. ground (arith, h)))
                (λ w h. h))
          | inr e ↦ rw e (
              Ends-weaken
                (Ends-transition x
                  (record (from_to verifying completed "deployment verified") {
                    error_code = some none;
                  })
                  refl)
                (λ w h. h)
                (λ _. Kept-weaken (completed ∷ []) settled_statuses k (λ s h. ground (arith, h)))
                (λ w h. h))
        ])))

give_up-Kept :
    (x : Externals) (s : DeploymentRunStatus) (from : Option DeploymentRunStatus) (k : ℕ)
    {R : World → Type 0}
    → is_in open_statuses s ≡ true
    → or_else from s ≡ s
    → Ends (Kept (s ∷ []) k) (give_up x from) (λ _. Kept settled_statuses k) R
unfolding give_up is_deployment_transition_allowed
give_up-Kept x s from k is_open same = Ends-bind Ends-must_get (λ run. Ends-known (λ here.
    let at_s = is_in_one s run.status here in
    Ends-if {b = not (same_status run.status reconciliation_required)}
      (λ e.
        Ends-weaken
          (Ends-transition_in x run
            (to_reconcile (or_else from run.status)
              "one or more receipts could not be reconstructed")
            (s ∷ []) (broadcasting ∷ confirming ∷ verifying ∷ [])
            (subst (λ t. or_else from t ≡ t) (sym at_s) same)
            (λ h. ground (arith, e, is_open, at_s)) (λ t h. ground (arith, h)))
          (λ w h. h)
          (λ _.
            Kept-weaken (reconciliation_required ∷ []) settled_statuses k
              (λ t h. ground (arith, h)))
          (λ w h. h))
      (λ e. Ends-pure tt (Kept-of_Read (s ∷ []) settled_statuses k run (λ h. ground (arith, e))))))

-- Confirmation takes an open run to a settled status, or throws and leaves it open.
pub confirm_and_verify-Kept :
    (x : Externals) (chain : ChainDefinition) (deployer : String) (s : DeploymentRunStatus)
    (from : Option DeploymentRunStatus) (k : ℕ)
    → is_in open_statuses s ≡ true
    → or_else from s ≡ s
    → Ends
        (Kept (s ∷ []) k)
        (confirm_and_verify x chain deployer from)
        (λ _. Kept settled_statuses k)
        (Kept open_statuses k)
unfolding confirm_and_verify
confirm_and_verify-Kept x chain deployer s from k is_open same =
    Ends-bind (Ends-look (λ w. w.rows)) (λ rows.
      Ends-bind
        (Ends-weaken (confirm_all-Kept x deployer (list_transactions rows.transactions) (s ∷ []) k)
          (λ w h. h) (λ _ w h. h) widen)
        (λ unknown.
          Ends-if {b = unknown} (λ e. give_up-Kept x s from k is_open same)
            (λ e. Ends-bind (Ends-look (λ w. w.rows.run)) (λ current.
              Ends-bind (Ends-weaken (advance-Kept x k) widen (λ _ w h. h) (λ w h. h)) (λ _.
                Ends-bind
                  (Ends-weaken (verify_contracts-Kept x chain (verifying ∷ []) k) (λ w h. h)
                    (λ _ w h. h) close)
                  (λ _.
                    Ends-weaken (finish_checks-Kept x chain deployer current.transaction_count k)
                      (λ w h. h) (λ _ w h. h) close))))))
  where
    widen : (w : World) → Kept (s ∷ []) k w → Kept open_statuses k w
    widen =
        Kept-weaken (s ∷ []) open_statuses k
          (λ t h. subst (λ u. is_in open_statuses u ≡ true) (sym (is_in_one s t h)) is_open)

    close : (w : World) → Kept (verifying ∷ []) k w → Kept open_statuses k w
    close = Kept-weaken (verifying ∷ []) open_statuses k (λ t h. ground (arith, h))
