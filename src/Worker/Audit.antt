-- ===== src/Worker/Audit.antt =====
-- The status events of a run as a path of the transition table, and the rules by which the steps of
-- a job keep them one.
pub mod Rules
pub mod Confirm
pub mod Jobs
pub mod Broadcast
pub mod Funding
pub mod Prepare
pub mod Fresh
pub mod Events
pub mod Sequence
use chain_port.Prelude.{
  ℕ, suc, ◌+◌, ◌≡◌, ◌⊎◌, inl, inr, refl, sym, subst, String, Bool, true, false, ◌||◌, Option, none,
  some, List, [], ◌∷◌, any, if◌then◌else◌, ◌==◌, arith, Result, ok, err, Exec, Ends, Post, pure,
  gets, modify, ◌>>=◌, ◌>>◌, when, try_catch, Ends-pure, Ends-if, Ends-bind, Ends-weaken, Ends-lift,
  lift, Ends-try_catch, Bool-cases,
}
use chain_port.Lifecycle.Deployment.{
  DeploymentRunStatus, queued, failed, deployment_index, is_deployment_transition_allowed,
  assert_deployment_transition,
}
use chain_port.Lifecycle.Paths.{invalid_transition}
use chain_port.Database.Models.{Rows, DeploymentRunRecord, DeploymentStatusEvent}
use chain_port.Database.Deployments.{
  TransitionInput, from_to, transition, same_status, updated_run, event_of,
}
use chain_port.Deployment.Errors.{Failure}
use chain_port.Worker.Externals.{Externals, World, Action, Command}
use chain_port.Worker.Common.{transition_run, must_get, modify_rows, fail, fail_now, failure_of}

-- The event of a transition from one status to another that the table allows, or the first event.
abbrev pub IsStep : Option DeploymentRunStatus → DeploymentRunStatus → Type 0
IsStep none to = to ≡ queued
IsStep (some from) to = is_deployment_transition_allowed from to ≡ true

-- What must hold of the events before one that starts at a status; the first one has none before it.
abbrev pub IsBefore :
    List DeploymentStatusEvent
    → (DeploymentRunStatus → Type 0)
    → Option DeploymentRunStatus
    → Type 0
IsBefore events trail none = events ≡ []
IsBefore events trail (some from) = trail from

-- The events, the newest first, are a path of the table that begins with QUEUED, which no
-- event stands before, and ends in a status.
unfoldable pub IsTrail : List DeploymentStatusEvent → DeploymentRunStatus → Type 0
IsTrail [] status = true ≡ false
IsTrail (event ∷ events) status =
    (event.to_status ≡ status)
    × IsStep event.from_status event.to_status
    × IsBefore events (IsTrail events) event.from_status

abbrev pub is_in : List DeploymentRunStatus → DeploymentRunStatus → Bool
is_in statuses status = any (λ s. same_status s status) statuses

-- How often the sandbox was given a script to broadcast.
abbrev pub count_broadcasts : List Command → ℕ
count_broadcasts [] = 0
count_broadcasts (command ∷ commands) =
    (if command.is_broadcast then 1 else 0) + count_broadcasts commands

-- The events lead to the row's status, which is one of these, after so many broadcasts.
pub record Kept (statuses : List DeploymentRunStatus) (broadcasts : ℕ) (w : World) : Type 0 where
  pub trail : IsTrail w.rows.events w.rows.run.status
  pub status : is_in statuses w.rows.run.status ≡ true
  pub count : count_broadcasts w.executed ≡ broadcasts

pub Kept-weaken :
    (p q : List DeploymentRunStatus) (k : ℕ)
    → ((s : DeploymentRunStatus) → is_in p s ≡ true → is_in q s ≡ true)
    → (w : World) → Kept p k w
    → Kept q k w
Kept-weaken p q k h w kept = record {
  trail = kept.trail;
  status = h w.rows.run.status kept.status;
  count = kept.count;
}

pub same_status_refl : (s : DeploymentRunStatus) → is_in (s ∷ []) s ≡ true
same_status_refl s = ground arith

-- What an allowed transition makes of the rows.
abbrev pub after_transition : ℕ → TransitionInput → Rows → Rows
after_transition now input rows = record rows {
  run = updated_run now input rows.run;
  events = event_of input ∷ rows.events;
}

transition-allowed :
    (now : ℕ) (input : TransitionInput) (rows : Rows)
    → is_deployment_transition_allowed input.from_status input.to_status ≡ true
    → transition now input rows ≡ ok (after_transition now input rows)
unfolding transition assert_deployment_transition
transition-allowed now input rows allowed = rw allowed refl

pub transition-refused :
    (now : ℕ) (input : TransitionInput) (rows : Rows)
    → is_deployment_transition_allowed input.from_status input.to_status ≡ false
    → transition now input rows ≡ err (invalid_transition input.from_status input.to_status)
unfolding transition assert_deployment_transition
transition-refused now input rows refused = rw refused refl

pub transition-cases :
    (now : ℕ) (input : TransitionInput) (rows : Rows)
    → ((is_deployment_transition_allowed input.from_status input.to_status ≡ true)
        × (transition now input rows ≡ ok (after_transition now input rows)))
      ⊎ (transition now input rows ≡ err (invalid_transition input.from_status input.to_status))
transition-cases now input rows =
    elim (Bool-cases (is_deployment_transition_allowed input.from_status input.to_status)) [
      | inl e ↦ inl (e, transition-allowed now input rows e)
      | inr e ↦ inr (transition-refused now input rows e)
    ]

pub after_transition-Kept :
    (now : ℕ) (input : TransitionInput) (p : List DeploymentRunStatus) (k : ℕ) (w : World)
    → Kept p k w
    → w.rows.run.status ≡ input.from_status
    → is_deployment_transition_allowed input.from_status input.to_status ≡ true
    → Kept (input.to_status ∷ []) k (record w { rows = after_transition now input w.rows })
unfolding IsTrail
after_transition-Kept now input p k w kept from allowed = record {
  trail = (refl, allowed, subst (IsTrail w.rows.events) from kept.trail);
  status = same_status_refl input.to_status;
  count = kept.count;
}

-- An allowed transition from the row's status returns, into its target.
pub transition_run-Post :
    (x : Externals) (input : TransitionInput) (p : List DeploymentRunStatus) (k : ℕ)
    (R : World → Type 0) (w : World)
    → Kept p k w
    → w.rows.run.status ≡ input.from_status
    → is_deployment_transition_allowed input.from_status input.to_status ≡ true
    → Post (λ _. Kept (input.to_status ∷ []) k) R (transition_run x input w)
unfolding transition_run
transition_run-Post x input p k R w kept from allowed =
    rw (transition-allowed x.now input w.rows allowed)
      (after_transition-Kept x.now input p k w kept from allowed)

pub is_in_one : (s t : DeploymentRunStatus) → is_in (s ∷ []) t ≡ true → t ≡ s
is_in_one s t h = ground arith

-- The world as it was when the run was read.
abbrev pub Read : List DeploymentRunStatus → ℕ → DeploymentRunRecord → World → Type 0
Read p k run w = Kept p k w × (w.rows.run ≡ run)

pub Kept-more :
    (p : List DeploymentRunStatus) (s : DeploymentRunStatus) (k : ℕ) (w : World)
    → Kept p k w
    → Kept (s ∷ p) k w
Kept-more p s k = Kept-weaken p (s ∷ p) k (λ t h. ground (arith, h))

-- What is known of the run that was read is known of the row.
pub Kept-of_Read :
    (p q : List DeploymentRunStatus) (k : ℕ) (run : DeploymentRunRecord)
    → (is_in p run.status ≡ true → is_in q run.status ≡ true)
    → (w : World) → Read p k run w
    → Kept q k w
Kept-of_Read p q k run h w (kept, is_run) = record {
  trail = kept.trail;
  status =
      subst (λ (r : DeploymentRunRecord). is_in q r.status ≡ true) (sym is_run)
        (h (subst (λ (r : DeploymentRunRecord). is_in p r.status ≡ true) is_run kept.status));
  count = kept.count;
}
