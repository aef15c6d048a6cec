-- ===== src/Worker/Audit/Rules.antt =====
-- The rules by which the steps of a job keep the path of the status events.
use chain_port.Prelude.{
  ℕ, ◌≡◌, inl, inr, refl, subst, String, true, false, Option, List, [], ◌∷◌, arith, Result, Ends,
  gets, Ends-pure, Ends-bind, Ends-weaken, Ends-lift, lift, Ends-try_catch,
}
use chain_port.Lifecycle.Deployment.{DeploymentRunStatus, failed, is_deployment_transition_allowed}
use chain_port.Database.Models.{Rows, DeploymentRunRecord}
use chain_port.Database.Deployments.{TransitionInput}
use chain_port.Deployment.Errors.{Failure}
use chain_port.Worker.Externals.{Externals, World, Action}
use chain_port.Worker.Common.{transition_run, must_get, modify_rows, fail, fail_now, failure_of}
use chain_port.Worker.Audit.{
  is_in, Kept, Kept-weaken, Kept-more, Read, Kept-of_Read, is_in_one, transition_run-Post,
  transition-cases, transition-refused, after_transition, after_transition-Kept,
}

-- A write that leaves the status and the events alone.
pub Ends-modify_rows :
    (f : Rows → Rows) {p : List DeploymentRunStatus} {k : ℕ} {R : World → Type 0}
    → ((r : Rows) → (f r).run.status ≡ r.run.status)
    → ((r : Rows) → (f r).events ≡ r.events)
    → Ends (Kept p k) (modify_rows f) (λ _. Kept p k) R
Ends-modify_rows f same_run same_events = record {
  at = λ w kept. record {
    trail = rw (same_run w.rows, same_events w.rows) kept.trail;
    status = rw (same_run w.rows) kept.status;
    count = kept.count;
  };
}

-- A transition from a status that the row is known to have.
pub Ends-transition :
    (x : Externals) (input : TransitionInput) {k : ℕ} {R : World → Type 0}
    → is_deployment_transition_allowed input.from_status input.to_status ≡ true
    → Ends
        (Kept (input.from_status ∷ []) k)
        (transition_run x input)
        (λ _. Kept (input.to_status ∷ []) k)
        R
Ends-transition x input {k} {R} allowed = record {
  at = λ w kept.
      transition_run-Post x input (input.from_status ∷ []) k R w kept
        (is_in_one input.from_status w.rows.run.status kept.status) allowed;
}

pub Ends-must_get :
    {p : List DeploymentRunStatus} {k : ℕ} {R : World → Type 0}
    → Ends (Kept p k) must_get (Read p k) R
Ends-must_get = record { at = λ w kept. (kept, refl) }

-- A transition from the status that was read, allowed from every status that the row may have.
pub Ends-transition_seen :
    (x : Externals) (run : DeploymentRunRecord) (input : TransitionInput)
    {p : List DeploymentRunStatus} {k : ℕ} {R : World → Type 0}
    → input.from_status ≡ run.status
    → ((s : DeploymentRunStatus)
        → is_in p s ≡ true
        → is_deployment_transition_allowed s input.to_status ≡ true)
    → Ends (Read p k run) (transition_run x input) (λ _. Kept (input.to_status ∷ []) k) R
Ends-transition_seen x run input {p} {k} {R} from allowed = record {
  at = λ w (kept, is_run).
      let here : w.rows.run.status ≡ input.from_status = rw (is_run, from) refl in
      transition_run-Post x input p k R w kept here (
        subst (λ s. is_deployment_transition_allowed s input.to_status ≡ true) here
          (allowed w.rows.run.status kept.status));
}

pub Ends-transition_try :
    (x : Externals) (run : DeploymentRunRecord) (input : TransitionInput)
    {p : List DeploymentRunStatus} {k : ℕ}
    → input.from_status ≡ run.status
    → Ends (Read p k run) (transition_run x input) (λ _. Kept (input.to_status ∷ p) k) (Kept p k)
unfolding transition_run
Ends-transition_try x run input {p} {k} from = record {
  at = λ w (kept, is_run). elim (transition-cases x.now input w.rows) [
    | inl (allowed, e) ↦ rw e (
        Kept-weaken (input.to_status ∷ []) (input.to_status ∷ p) k (λ s h. ground (arith, h))
          (record w { rows = after_transition x.now input w.rows })
          (after_transition-Kept x.now input p k w kept (rw (is_run, from) refl) allowed))
    | inr e ↦ rw e kept
  ];
}

-- `fail` from the status that was read keeps the path, and changes the status at most to FAILED.
pub Ends-fail_seen :
    (x : Externals) (run : DeploymentRunRecord) (code : String) (message : Option String)
    {p : List DeploymentRunStatus} {k : ℕ} {R : World → Type 0}
    → Ends (Read p k run) (fail x run.status code message) (λ _. Kept (failed ∷ p) k) R
unfolding fail
Ends-fail_seen x run code message {p} {k} =
    Ends-try_catch (Ends-transition_try x run (failure_of run.status code message) refl)
      (λ e. Ends-pure tt (Kept-more p failed k))

pub Ends-fail_now :
    (x : Externals) (code : String) (message : Option String) {p : List DeploymentRunStatus} {k : ℕ}
    {R : World → Type 0}
    → Ends (Kept p k) (fail_now x code message) (λ _. Kept (failed ∷ p) k) R
unfolding fail_now
Ends-fail_now x code message = Ends-bind Ends-must_get (λ run. Ends-fail_seen x run code message)

-- `fail` from a known status.
pub Ends-fail :
    (x : Externals) (s : DeploymentRunStatus) (code : String) (message : Option String) {k : ℕ}
    {R : World → Type 0}
    → is_deployment_transition_allowed s failed ≡ true
    → Ends (Kept (s ∷ []) k) (fail x s code message) (λ _. Kept (failed ∷ []) k) R
unfolding fail
Ends-fail x s code message {k} allowed =
    Ends-try_catch {T = Kept (failed ∷ []) k}
      (Ends-transition x (failure_of s code message) allowed) (λ e. Ends-pure tt (λ w kept. kept))

-- A call outside, and a look at the state, which change nothing.
pub Ends-call :
    {A : Type 0} {P : World → Type 0} (r : Result Failure A) → Ends P (lift r) (λ _. P) P
Ends-call r = Ends-lift (λ a e w h. h) (λ w h. h)

pub Ends-look :
    {A : Type 0} {P R : World → Type 0} (f : World → A) → Ends {E = Failure} P (gets f) (λ _. P) R
Ends-look f = record { at = λ w h. h }

-- The status that was read is one that the row may have.
pub Ends-known :
    {A : Type 0} {p : List DeploymentRunStatus} {k : ℕ} {run : DeploymentRunRecord} {m : Action A}
    {Q : A → World → Type 0} {R : World → Type 0}
    → (is_in p run.status ≡ true → Ends (Read p k run) m Q R)
    → Ends (Read p k run) m Q R
Ends-known {p = p} prove = record {
  at = λ w h.
      (prove (subst (λ (r : DeploymentRunRecord). is_in p r.status ≡ true) h.1 h.0.status)).at w h;
}

-- A transition from the status that was read, where it is one of some that allow it.
pub Ends-transition_in :
    (x : Externals) (run : DeploymentRunRecord) (input : TransitionInput)
    (p q : List DeploymentRunStatus) {k : ℕ} {R : World → Type 0}
    → input.from_status ≡ run.status
    → (is_in p run.status ≡ true → is_in q run.status ≡ true)
    → ((s : DeploymentRunStatus)
        → is_in q s ≡ true
        → is_deployment_transition_allowed s input.to_status ≡ true)
    → Ends (Read p k run) (transition_run x input) (λ _. Kept (input.to_status ∷ []) k) R
Ends-transition_in x run input p q {k} from h allowed =
    Ends-weaken (Ends-transition_seen x run input {p = q} {k = k} from allowed)
      (λ w read. (Kept-of_Read p q k run h w read, read.1)) (λ _ w kept. kept) (λ w r. r)

-- `fail` from the status that was read, where all that the row may have allow FAILED.
pub Ends-fail_in :
    (x : Externals) (run : DeploymentRunRecord) (code : String) (message : Option String)
    (p : List DeploymentRunStatus) {k : ℕ} {R : World → Type 0}
    → ((s : DeploymentRunStatus)
        → is_in p s ≡ true
        → is_deployment_transition_allowed s failed ≡ true)
    → Ends (Read p k run) (fail x run.status code message) (λ _. Kept (failed ∷ []) k) R
unfolding fail
Ends-fail_in x run code message p {k} allowed =
    Ends-try_catch {T = Kept (failed ∷ []) k}
      (Ends-transition_seen x run (failure_of run.status code message) refl allowed)
      (λ e. Ends-pure tt (λ w kept. kept))

-- A transition that the table refuses, from the status that was read, throws and changes nothing.
pub Ends-transition_never :
    (x : Externals) (run : DeploymentRunRecord) (input : TransitionInput)
    {p : List DeploymentRunStatus} {k : ℕ} {Q : World → Type 0}
    → input.from_status ≡ run.status
    → is_deployment_transition_allowed run.status input.to_status ≡ false
    → Ends (Read p k run) (transition_run x input) (λ _. Q) (Kept p k)
unfolding transition_run
Ends-transition_never x run input from refused = record {
  at = λ w (kept, is_run). rw (transition-refused x.now input w.rows (rw from refused)) kept;
}
