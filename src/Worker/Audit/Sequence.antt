-- ===== src/Worker/Audit/Sequence.antt =====
-- The jobs and the requests of one deployment, in any order: its script is broadcast at most once.
use chain_port.Prelude.{◌≡◌, ◌⊎◌, inl, inr, refl, true, [], none}
use chain_port.Database.Models.{DeploymentRunRecord}
use chain_port.Database.Deployments.{create_queued}
use chain_port.Worker.Externals.{Externals, World}
use chain_port.Worker.Audit.{is_in, IsTrail, count_broadcasts}
use chain_port.Worker.Audit.Jobs.{sent_statuses}
use chain_port.Worker.Audit.Events.{
  Event, prepare, broadcast, reconcile, cancel, delivered_at, after_event, Once, broadcast-Once,
  reconcile-Once, prepare-Once, cancel-Once,
}

-- The worlds that one deployment can reach; each job meets its own answers outside.
pub data Reaches (start : World) : World → Type 0 where
  started : Reaches start start
  handled :
      {w : World}
      → Reaches start w
      → (x : Externals) (event : Event) → delivered_at event w.rows.run.status ≡ true
      → Reaches start (after_event x event w)

event-Once :
    (x : Externals) (event : Event) (w : World)
    → Once w
    → delivered_at event w.rows.run.status ≡ true
    → Once (after_event x event w)
event-Once x prepare w once delivered = prepare-Once x w once delivered
event-Once x broadcast w once delivered = broadcast-Once x w once
event-Once x reconcile w once delivered = reconcile-Once x w once delivered
event-Once x cancel w once delivered = cancel-Once x w once

Reaches-Once : {start w : World} → Reaches start w → Once start → Once w
Reaches-Once started once = once
Reaches-Once (handled {w} r x event delivered) once =
    event-Once x event w (Reaches-Once r once) delivered

-- The world in which `createQueued` leaves a new deployment.
abbrev pub created : DeploymentRunRecord → World
created run = record { rows = create_queued run; credential = none; executed = [] }

created-Once : (run : DeploymentRunRecord) → Once (created run)
unfolding create_queued IsTrail
created-Once run = inl (record { trail = (refl, refl, refl); status = refl; count = refl })

-- From a deployment that `createQueued` made, over any sequence of prepare, broadcast and reconcile
-- jobs and cancel requests, each with its own answers from outside, where a prepare job is not
-- delivered to a run that is SIMULATING, FUNDING or FAILED and a reconcile job only to one that is
-- BROADCASTING, CONFIRMING, VERIFYING or RECONCILIATION_REQUIRED: the sandbox was given no script to
-- broadcast, or one, and then the run is in one of these four or COMPLETED or FAILED.
pub Reaches-sent_once :
    (run : DeploymentRunRecord) (w : World)
    → Reaches (created run) w
    → (count_broadcasts w.executed ≡ 0)
      ⊎ ((count_broadcasts w.executed ≡ 1) × (is_in sent_statuses w.rows.run.status ≡ true))
Reaches-sent_once run w r = elim (Reaches-Once r (created-Once run)) [
  | inl kept ↦ inl kept.count
  | inr kept ↦ inr (kept.count, kept.status)
]

-- Over such a sequence the status events are a path of the transition table: the first one leads to
-- QUEUED, each next one starts where the one before ended and is allowed, and the last one ends in the
-- status of the row.
pub Reaches-IsTrail :
    (run : DeploymentRunRecord) (w : World)
    → Reaches (created run) w
    → IsTrail w.rows.events w.rows.run.status
Reaches-IsTrail run w r = elim (Reaches-Once r (created-Once run)) [
  | inl kept ↦ kept.trail
  | inr kept ↦ kept.trail
]
