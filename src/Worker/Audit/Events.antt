-- ===== src/Worker/Audit/Events.antt =====
-- What each job and request makes of a deployment whose script ran at most once.
use chain_port.Prelude.{
  ℕ, ◌≡◌, ◌⊎◌, inl, inr, refl, Bool, true, false, not, ◌||◌, ◌&&◌, List, ◌∷◌, arith, Result, ok,
  err, Ends, Post, ◌>>=◌, Bool-cases, Ends-bind, Ends-if, Ends-throw, Ends-pure, Ends-weaken,
}
use chain_port.Lifecycle.Deployment.{
  DeploymentRunStatus, queued, checking_eligibility, preparing, simulating, prepared, funding,
  completed, cancelled, is_deployment_transition_allowed,
}
use chain_port.Database.Deployments.{from_to, same_status}
use chain_port.Deployment.Errors.{Failure}
use chain_port.Worker.Externals.{Externals, World}
use chain_port.Worker.Prepare.{process_prepare_deployment, is_sent, is_done}
use chain_port.Worker.Confirm.{process_reconcile_deployment}
use chain_port.Worker.Broadcast.{process_broadcast_deployment}
use chain_port.Worker.Service.{cancel_deployment, is_started}
use chain_port.Worker.Audit.{is_in, Kept, Kept-weaken}
use chain_port.Worker.Audit.Rules.{
  Ends-must_get, Ends-known, Ends-transition_try, Ends-transition_never,
}
use chain_port.Worker.Audit.Confirm.{open_statuses, settled_statuses}
use chain_port.Worker.Audit.Jobs.{sent_statuses, open-sent, process_reconcile_deployment-Kept}
use chain_port.Worker.Audit.Prepare.{fresh_statuses, answered_statuses}
use chain_port.Worker.Audit.Fresh.{process_prepare_deployment-Ends}
use chain_port.Worker.Audit.Funding.{ready_statuses, process_broadcast_deployment-Ends}
use chain_port.Worker.Audit.Broadcast.{IsSettledBroadcast, IsStoppedBroadcast}

-- The jobs of the worker and the request that writes.
pub data Event : Type 0 where
  prepare broadcast reconcile cancel : Event

-- The statuses at which a job may be delivered: a prepare job not to a run that a prepare job left in
-- the middle, or that failed; a reconcile job to a run that has broadcast and is not over.
abbrev pub delivered_at : Event → DeploymentRunStatus → Bool
delivered_at prepare status = is_in fresh_statuses status || is_done status || is_sent status
delivered_at broadcast status = true
delivered_at reconcile status = is_in open_statuses status
delivered_at cancel status = true

-- The world after a job or a request, returned or thrown.
abbrev pub after_event : Externals → Event → World → World
after_event x prepare w = (process_prepare_deployment x w).1
after_event x broadcast w = (process_broadcast_deployment x w).1
after_event x reconcile w = (process_reconcile_deployment x w).1
after_event x cancel w = (cancel_deployment x w).1

abbrev pub every_status : List DeploymentRunStatus
every_status =
    queued ∷ checking_eligibility ∷ preparing ∷ simulating ∷ prepared ∷ funding ∷ cancelled
    ∷ sent_statuses

-- Nothing was broadcast, or one script and the run is past that.
abbrev pub Once : World → Type 0
Once w = Kept every_status 0 w ⊎ Kept sent_statuses 1 w

every_status_all : (s : DeploymentRunStatus) → is_in every_status s ≡ true
every_status_all s = ground arith

narrow :
    (p q : List DeploymentRunStatus) (k : ℕ) (w : World)
    → Kept p k w
    → is_in q w.rows.run.status ≡ true
    → Kept q k w
narrow p q k w kept h = record { trail = kept.trail; status = h; count = kept.count }

unsent : (p : List DeploymentRunStatus) (w : World) → Kept p 0 w → Once w
unsent p w kept = inl (narrow p every_status 0 w kept (every_status_all w.rows.run.status))

-- The state after code that ends in one predicate, returned or thrown.
after : {A : Type 0} (P : World → Type 0) (r : Result Failure A × World) → Post (λ _. P) P r → P r.1
after P (ok a, w) h = h
after P (err e, w) h = h

reconcile-sent :
    (x : Externals) (p : List DeploymentRunStatus) (k : ℕ) (w : World)
    → Kept p k w
    → is_in open_statuses w.rows.run.status ≡ true
    → Kept sent_statuses k (process_reconcile_deployment x w).1
reconcile-sent x p k w kept is_open =
    after (Kept sent_statuses k) (process_reconcile_deployment x w) (
      (Ends-weaken (process_reconcile_deployment-Kept x k) (λ w h. h) (λ _ w h. h)
          (Kept-weaken open_statuses sent_statuses k open-sent)).at
        w (narrow p open_statuses k w kept is_open))

-- The jobs, by the status at which they find the run.
prepare-open :
    (x : Externals) (w : World)
    → is_in open_statuses w.rows.run.status ≡ true
    → process_prepare_deployment x w ≡ process_reconcile_deployment x w
unfolding process_prepare_deployment ◌>>=◌
prepare-open x w is_open =
    let not_done : is_done w.rows.run.status ≡ false = ground (arith, is_open) in
    let sent : is_sent w.rows.run.status ≡ true = ground (arith, is_open) in
    rw (not_done, sent) refl

prepare-done :
    (x : Externals) (w : World)
    → is_done w.rows.run.status ≡ true
    → (process_prepare_deployment x w).1 ≡ w
unfolding process_prepare_deployment ◌>>=◌
prepare-done x w done = rw done refl

broadcast-open :
    (x : Externals) (w : World)
    → is_in open_statuses w.rows.run.status ≡ true
    → process_broadcast_deployment x w ≡ process_reconcile_deployment x w
unfolding process_broadcast_deployment ◌>>=◌
broadcast-open x w is_open =
    let not_over : (same_status w.rows.run.status completed
          || same_status w.rows.run.status cancelled)
        ≡ false =
      ground (arith, is_open) in
    let sent : is_sent w.rows.run.status ≡ true = ground (arith, is_open) in
    rw (not_over, sent) refl

broadcast-other :
    (x : Externals) (w : World)
    → is_in open_statuses w.rows.run.status ≡ false
    → is_in ready_statuses w.rows.run.status ≡ false
    → (process_broadcast_deployment x w).1 ≡ w
unfolding process_broadcast_deployment ◌>>=◌
broadcast-other x w not_open not_ready =
    let not_sent : is_sent w.rows.run.status ≡ false = ground (arith, not_open) in
    let other : (not (same_status w.rows.run.status prepared)
          && not (same_status w.rows.run.status funding))
        ≡ true =
      ground (arith, not_ready) in
    elim (Bool-cases
      (same_status w.rows.run.status completed || same_status w.rows.run.status cancelled)) [
        | inl e ↦ rw e refl
        | inr e ↦ rw (e, not_sent, other) refl
      ]

pub broadcast-Once :
    (x : Externals) (w : World) → Once w → Once (process_broadcast_deployment x w).1
broadcast-Once x w once = elim (Bool-cases (is_in open_statuses w.rows.run.status)) [
  | inl e ↦ rw (broadcast-open x w e) (elim once [
    | inl kept ↦ unsent sent_statuses _ (reconcile-sent x every_status 0 w kept e)
    | inr kept ↦ inr (reconcile-sent x sent_statuses 1 w kept e)
  ])
  | inr not_open ↦ elim (Bool-cases (is_in ready_statuses w.rows.run.status)) [
    | inl e ↦ elim once [
      | inl kept ↦ after Once (process_broadcast_deployment x w) (
          (Ends-weaken (process_broadcast_deployment-Ends x 0) (λ v h. h) (λ _. settled) stopped).at
            w (narrow every_status ready_statuses 0 w kept e))
      | inr kept ↦ let is_sent = kept.status in absurd (ground (arith, is_sent, e))
    ]
    | inr e ↦ rw (broadcast-other x w not_open e) once
  ]
]
  where
    settled : (v : World) → IsSettledBroadcast 0 v → Once v
    settled v (inl h) = unsent settled_statuses v h
    settled v (inr h) =
        inr (Kept-weaken settled_statuses sent_statuses 1 (λ s e. ground (arith, e)) v h)

    stopped : (v : World) → IsStoppedBroadcast 0 v → Once v
    stopped v (inl h) = unsent (prepared ∷ funding ∷ settled_statuses) v h
    stopped v (inr h) =
        inr (Kept-weaken settled_statuses sent_statuses 1 (λ s e. ground (arith, e)) v h)

pub reconcile-Once :
    (x : Externals) (w : World)
    → Once w
    → is_in open_statuses w.rows.run.status ≡ true
    → Once (process_reconcile_deployment x w).1
reconcile-Once x w (inl kept) is_open =
    unsent sent_statuses _ (reconcile-sent x every_status 0 w kept is_open)
reconcile-Once x w (inr kept) is_open = inr (reconcile-sent x sent_statuses 1 w kept is_open)

prepare-fresh :
    (x : Externals) (w : World)
    → Once w
    → is_in fresh_statuses w.rows.run.status ≡ true
    → Once (process_prepare_deployment x w).1
prepare-fresh x w (inl kept) is_fresh = after Once (process_prepare_deployment x w) (
    (Ends-weaken (process_prepare_deployment-Ends x 0) (λ v h. h) (λ _. unsent answered_statuses)
        (unsent fresh_statuses)).at
      w (narrow every_status fresh_statuses 0 w kept is_fresh))
prepare-fresh x w (inr kept) is_fresh =
    let is_sent = kept.status in absurd (ground (arith, is_sent, is_fresh))

pub prepare-Once :
    (x : Externals) (w : World)
    → Once w
    → delivered_at prepare w.rows.run.status ≡ true
    → Once (process_prepare_deployment x w).1
prepare-Once x w once delivered = elim (Bool-cases (is_in fresh_statuses w.rows.run.status)) [
  | inl e ↦ prepare-fresh x w once e
  | inr not_fresh ↦ elim (Bool-cases (is_done w.rows.run.status)) [
    | inl e ↦ rw (prepare-done x w e) once
    | inr not_done ↦
        let is_open : is_in open_statuses w.rows.run.status ≡ true =
          ground (arith, delivered, not_fresh, not_done) in
        rw (prepare-open x w is_open) (reconcile-Once x w once is_open)
  ]
]

-- A run that may have broadcast is not cancelled.
cancel-sent :
    (x : Externals) (k : ℕ)
    → Ends
        (Kept sent_statuses k)
        (cancel_deployment x)
        (λ _. Kept sent_statuses k)
        (Kept sent_statuses k)
unfolding cancel_deployment is_deployment_transition_allowed
cancel-sent x k = Ends-bind Ends-must_get (λ run. Ends-known (λ here.
    Ends-if {b = is_started run.status} (λ _. Ends-throw _ (λ w h. h.0))
      (λ e.
        Ends-bind
          (Ends-transition_never x run (from_to run.status cancelled "cancelled before broadcast")
            refl (ground (arith, here, e)))
          (λ _. Ends-pure _ (λ w h. h)))))

cancel-Kept :
    (x : Externals) (p : List DeploymentRunStatus) (k : ℕ)
    → Ends (Kept p k) (cancel_deployment x) (λ _. Kept (cancelled ∷ p) k) (Kept p k)
unfolding cancel_deployment
cancel-Kept x p k = Ends-bind Ends-must_get (λ run.
    Ends-if {b = is_started run.status} (λ _. Ends-throw _ (λ w h. h.0))
      (λ _.
        Ends-bind
          (Ends-transition_try x run (from_to run.status cancelled "cancelled before broadcast")
            refl)
          (λ _. Ends-pure _ (λ w h. h))))

pub cancel-Once : (x : Externals) (w : World) → Once w → Once (cancel_deployment x w).1
cancel-Once x w (inl kept) = after Once (cancel_deployment x w) (
    (Ends-weaken (cancel-Kept x every_status 0) (λ v h. h) (λ _. unsent (cancelled ∷ every_status))
        (unsent every_status)).at
      w kept)
cancel-Once x w (inr kept) =
    inr (after (Kept sent_statuses 1) (cancel_deployment x w) ((cancel-sent x 1).at w kept))
