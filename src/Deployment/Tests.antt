-- ===== src/Deployment/Tests.antt =====
-- Runs of the eligibility check, of the policy and of the proxy.
use chain_port.Prelude.{
  ℕ, ◌≤◌, ◌≡◌, ◌↔◌, map, refl, String, Bool, true, false, Option, none, some, List, [], ◌∷◌, All,
  if◌then◌else◌, ◌===◌, arith, ok,
}
use chain_port.Shared.Json.{Json, null, str, arr, obj, nil, item, end, field}
use chain_port.Shared.Enums.{MigrationPlanOutcome}
use chain_port.Lifecycle.ChangeSet.{ChangeSetStatus}
use chain_port.Lifecycle.Validation.{ValidationRunStatus}
use chain_port.Deployment.Models.{
  RevisionType, RevisionCompleteness, ValidationOutcome, ValidationRunRecord, PlannedMigration,
  ChangeSetRecord,
}
use chain_port.Deployment.Eligibility.{EligibilityInput, EligibilityResult, evaluate_eligibility}
use chain_port.Deployment.Eligibility.Laws.{IsEligible, evaluate_eligibility_iff}
use chain_port.Deployment.Policy.{
  DeploymentPolicy, assert_preflight_policy, assert_preflight_policy_iff,
}
use chain_port.Deployment.Proxy.{
  JournalEntry, Sent, arrive, on_body, append_journal, after_journal, after_fetch,
}
use chain_port.Deployment.Proxy.Server.{
  Event, body_read, disk_settled, resumed, answered, new_server, run,
}
use chain_port.Deployment.Proxy.Covered.{entries, sent_by}
use chain_port.Deployment.Proxy.Journal.{IsAllowed, IsLineOf, run-journaled, run-IsAllowed}
use chain_port.Deployment.Proxy.Rejected.{
  Body, EndsRejectedIf, IsStopped, end_of_body, on_body_rejected,
}
use chain_port.Deployment.Proxy.Window.{Arrival, recent, accepted, IsOrdered, accepted-le}

abbrev change_set : ChangeSetRecord
change_set = record {
  id = "c";
  status = ChangeSetStatus.finalized;
  completeness = some RevisionCompleteness.complete;
}

abbrev validation : ValidationRunRecord
validation = record {
  repository_revision_id = "r";
  revision_content_hash = "h";
  status = ValidationRunStatus.completed;
  outcome = some ValidationOutcome.passed;
}

abbrev plan : PlannedMigration
plan = record {
  outcome = MigrationPlanOutcome.ready_to_apply;
  total_actions = 2;
  safe_action_count = 2;
  review_action_count = 0;
  manual_action_count = 0;
  blocked_action_count = 0;
  unknown_action_count = 0;
}

abbrev generated_run : EligibilityInput
generated_run = record {
  revision = record {
    id = "r";
    revision_type = RevisionType.generated;
    change_set_id = some "c";
    content_hash = "h";
    completeness = some RevisionCompleteness.complete;
  };
  validation = some validation;
  plan = some plan;
  change_set = some change_set;
}

abbrev generated_result : EligibilityResult
generated_result = record { validation = validation; plan = plan; change_set = some change_set }

generated_run_eligible : evaluate_eligibility generated_run ≡ ok generated_result
unfolding evaluate_eligibility
generated_run_eligible = refl

evaluate_eligibility_iff_example :
    (evaluate_eligibility generated_run ≡ ok generated_result)
    ↔ IsEligible generated_run generated_result
evaluate_eligibility_iff_example = evaluate_eligibility_iff generated_run generated_result

abbrev policy : DeploymentPolicy
policy = record {
  max_tx_count = 12;
  max_gas = 15000000;
  max_funding_wei = 50000;
  max_transaction_value_wei = 0;
}

assert_preflight_policy_iff_example :
    (assert_preflight_policy policy 3 1000 (0 ∷ 0 ∷ []) ≡ ok tt)
    ↔ ((3 ≤ 12) × (1000 ≤ 15000000) × All (λ (value : ℕ). value ≤ 0) (0 ∷ 0 ∷ []))
assert_preflight_policy_iff_example = assert_preflight_policy_iff policy 3 1000 (0 ∷ 0 ∷ [])

-- Five arrivals, of which one is no POST and one is over the limit of 2.
abbrev arrivals : List Arrival
arrivals = ("POST", 1000) ∷ ("GET", 2000) ∷ ("POST", 3000) ∷ ("POST", 4000) ∷ ("POST", 61500) ∷ []

arrivals-IsOrdered : IsOrdered 0 arrivals 62000
unfolding IsOrdered
arrivals-IsOrdered = ground arith

arrivals-accepted : accepted 2 arrivals [] ≡ 1000 ∷ 3000 ∷ 61500 ∷ []
unfolding accepted arrive
arrivals-accepted = refl

accepted-le_example : recent 62000 (accepted 2 arrivals []) ≤ 2
accepted-le_example = accepted-le 2 arrivals 62000 arrivals-IsOrdered

-- Two bodies with an allowed method, one with another, and `null`.
abbrev parse : String → Option Json
parse raw =
    if raw === "send"
    then some (
        obj (
          field "method" (str "eth_sendRawTransaction")
            (field "params" (arr (item (str "0x02f8") nil)) end)))
    else if raw === "chain"
    then some (obj (field "method" (str "eth_chainId") end))
    else if raw === "sign"
    then some (obj (field "method" (str "eth_sign") end))
    else if raw === "null"
    then some null
    else none

-- The bodies are read one after the other, and the disk and the handlers take them in another order;
-- the line of the second request for the chain is not written.
abbrev events : List Event
events =
    body_read (some "send")
    ∷ body_read (some "sign")
    ∷ body_read (some "chain")
    ∷ body_read (some "null")
    ∷ disk_settled 2 true
    ∷ body_read (some "chain")
    ∷ disk_settled 0 true
    ∷ disk_settled 4 false
    ∷ resumed 0
    ∷ resumed 2
    ∷ answered 2 none
    ∷ disk_settled 1 true
    ∷ resumed 4
    ∷ resumed 1
    ∷ answered 0 (some (200, "{}"))
    ∷ []

events_sent :
    map (λ (sent : Sent). sent.raw) (run parse events new_server).sent ≡ "send" ∷ "chain" ∷ []
unfolding run on_body append_journal after_journal after_fetch
events_sent = refl

events_journal :
    map (λ (entry : JournalEntry). entry.method) (run parse events new_server).journal
    ≡ str "eth_chainId" ∷ str "eth_sendRawTransaction" ∷ str "eth_sign" ∷ []
unfolding run on_body append_journal after_journal after_fetch
events_journal = refl

run-journaled_example :
    All (λ (sent : Sent). IsLineOf parse sent.raw sent.entry) (run parse events new_server).sent
    × ((p : JournalEntry → Bool)
        → sent_by p (run parse events new_server).sent
          ≤ entries p (run parse events new_server).journal)
run-journaled_example = run-journaled parse events

run-IsAllowed_example :
    All (λ (sent : Sent). IsAllowed parse sent.raw) (run parse events new_server).sent
run-IsAllowed_example = run-IsAllowed parse events

abbrev body : Body
body = record { written = true; upstream = some (200, "{}") }

on_body_rejected_example : EndsRejectedIf (IsStopped body null) (end_of_body parse body "null" [])
on_body_rejected_example = on_body_rejected parse body "null" null [] refl
