-- ===== src/Migration/Rules/Contract.antt =====
-- What every rule of the planner promises of the actions that it writes.
use chain_port.Prelude.{
  ◌≡◌, ◌≢◌, String, true, false, some, any, List, [], ◌∷◌, All, All-map, All-both, arith, none,
  Bool, Bool-cases, inl, inr,
}
use chain_port.Shared.Enums.{
  MigrationAutomationLevel, MigrationRiskLevel, MigrationActionStatus, is_pass,
}
use chain_port.Migration.Types.{
  PlannedFinding, PlanContext, MigrationActionDraft, MigrationRule, PlannedEvidence,
}
use chain_port.Migration.Action.{chain_id_key, evidence_items, looks_like_address}
use chain_port.Migration.Rules.ChainId.{chain_id_rule}
use chain_port.Migration.Rules.RpcUrl.{rpc_url_rule}
use chain_port.Migration.Rules.EnvConfig.{env_config_rule, target_test}
use chain_port.Migration.Rules.Token.{token_address_rule}
use chain_port.Migration.Rules.Infrastructure.{infrastructure_address_rule}
use chain_port.Migration.Rules.Oracle.{oracle_rule}
use chain_port.Migration.Rules.RpcCapability.{rpc_capability_rule}
use chain_port.Migration.Rules.CrossChain.{cross_chain_rule}
use chain_port.Migration.Rules.ProjectDeployment.{project_deployment_rule}
use chain_port.Migration.Rules.HardcodedAddress.{unknown_address_rule}
use chain_port.Migration.Rules.Fallback.{fallback_rule}
use chain_port.Migration.Rules.{migration_rules}

-- The action status that goes with an automation level.
abbrev pub status_for : MigrationAutomationLevel → MigrationActionStatus
status_for MigrationAutomationLevel.blocked = MigrationActionStatus.blocked
status_for MigrationAutomationLevel.unknown = MigrationActionStatus.unknown
status_for _ = MigrationActionStatus.planned

pub record IsProper (finding : PlannedFinding) (context : PlanContext) (a : MigrationActionDraft)
    : Type 0 where
  pub names_finding : a.finding_ids ≡ finding.id ∷ []
  pub has_evidence : a.evidence ≢ []
  pub depends_on_chain_id : All (λ k. k ≡ chain_id_key context) a.depends_on_keys
  pub status_matches : a.action_status ≡ status_for a.automation_level
  pub automatic_is_low_risk :
      a.automation_level ≡ MigrationAutomationLevel.safe_automatic
      → a.risk_level ≡ MigrationRiskLevel.low
  pub automatic_has_target :
      a.automation_level ≡ MigrationAutomationLevel.safe_automatic
      → (value : String) × (a.target_value ≡ some value)

has_evidence_items : (f : PlannedFinding) (es : List PlannedEvidence) → evidence_items f es ≢ []
has_evidence_items f [] e = cc
has_evidence_items f (x ∷ es) e = cc

-- One action, and what is promised of it.
abbrev pub WritesProper : PlannedFinding → PlanContext → List MigrationActionDraft → Type 0
WritesProper f c [] = ⊥
WritesProper f c (a ∷ rest) = IsProper f c a × (rest ≡ [])

module _ (f : PlannedFinding) (c : PlanContext) where
  chain_id-proper : WritesProper f c (chain_id_rule.create_actions f c)
  unfolding chain_id_rule
  chain_id-proper = ground (arith, has_evidence_items f f.evidence)

  rpc_url-proper : WritesProper f c (rpc_url_rule.create_actions f c)
  unfolding rpc_url_rule
  rpc_url-proper = ground (arith, has_evidence_items f f.evidence)

  env_config-proper : WritesProper f c (env_config_rule.create_actions f c)
  unfolding env_config_rule
  env_config-proper = ground (arith, has_evidence_items f f.evidence)

  token_address-proper : WritesProper f c (token_address_rule.create_actions f c)
  unfolding token_address_rule looks_like_address
  token_address-proper = ground (arith, has_evidence_items f f.evidence)

  infrastructure_address-proper : WritesProper f c (infrastructure_address_rule.create_actions f c)
  unfolding infrastructure_address_rule
  infrastructure_address-proper = ground (arith, has_evidence_items f f.evidence)

  oracle-proper : WritesProper f c (oracle_rule.create_actions f c)
  unfolding oracle_rule
  oracle-proper = ground (arith, has_evidence_items f f.evidence)

  rpc_capability-proper : WritesProper f c (rpc_capability_rule.create_actions f c)
  unfolding rpc_capability_rule
  rpc_capability-proper = ground (arith, has_evidence_items f f.evidence)

  cross_chain-proper : WritesProper f c (cross_chain_rule.create_actions f c)
  unfolding cross_chain_rule
  cross_chain-proper = ground (arith, has_evidence_items f f.evidence)

  project_deployment-proper : WritesProper f c (project_deployment_rule.create_actions f c)
  unfolding project_deployment_rule
  project_deployment-proper = ground (arith, has_evidence_items f f.evidence)

  unknown_address-proper : WritesProper f c (unknown_address_rule.create_actions f c)
  unfolding unknown_address_rule
  unknown_address-proper = ground (arith, has_evidence_items f f.evidence)

  fallback-proper : WritesProper f c (fallback_rule.create_actions f c)
  unfolding fallback_rule
  fallback-proper = ground (arith, has_evidence_items f f.evidence)

-- Every rule, where it does not throw, writes one proper action for every finding.
pub migration_rules-write :
    (f : PlannedFinding) (c : PlanContext)
    → All (λ (rule : MigrationRule). WritesProper f c (rule.create_actions f c)) migration_rules
unfolding migration_rules
migration_rules-write f c = assumption (
  chain_id-proper f c,
  rpc_url-proper f c,
  env_config-proper f c,
  token_address-proper f c,
  infrastructure_address-proper f c,
  oracle-proper f c,
  rpc_capability-proper f c,
  cross_chain-proper f c,
  project_deployment-proper f c,
  unknown_address-proper f c,
  fallback-proper f c,
  tt,
)

-- A rule throws only if the test for the target's key cannot be made.
pub migration_rules-throw :
    (c : PlanContext)
    → All (λ (rule : MigrationRule). rule.throws c ≡ true → target_test c ≡ none) migration_rules
unfolding migration_rules env_config_rule chain_id_rule rpc_url_rule token_address_rule
    infrastructure_address_rule oracle_rule rpc_capability_rule cross_chain_rule
    project_deployment_rule unknown_address_rule fallback_rule
migration_rules-throw c = ground arith

-- In a context in which `new RegExp` accepts the target's key, with underscores for dashes, each of
-- the eleven rules returns exactly one action for any finding: it names that finding alone, has
-- evidence, depends at most on the chain-ID action, has the action status of its automation level,
-- and if it is SAFE_AUTOMATIC it has low risk and a target value.
pub migration_rules-proper :
    (f : PlannedFinding) (c : PlanContext) (test : String → Bool)
    → target_test c ≡ some test
    → All
        (λ (rule : MigrationRule).
          (rule.throws c ≡ false) × WritesProper f c (rule.create_actions f c))
        migration_rules
migration_rules-proper f c test accepted =
    All-both (λ (rule : MigrationRule). rule.throws c ≡ false)
      (λ (rule : MigrationRule). WritesProper f c (rule.create_actions f c)) migration_rules
      (All-map (λ (rule : MigrationRule). rule.throws c ≡ true → target_test c ≡ none)
        (λ (rule : MigrationRule). rule.throws c ≡ false) migration_rules
        (λ rule only. elim (Bool-cases (rule.throws c)) [
          | inl e ↦ let refused = only e in absurd (cc (accepted, refused))
          | inr e ↦ e
        ])
        (migration_rules-throw c))
      (migration_rules-write f c)

-- Some rule supports every finding that does not pass.
pub migration_rules-any :
    (f : PlannedFinding)
    → is_pass f.status ≡ false
    → any (λ (rule : MigrationRule). rule.supports f) migration_rules ≡ true
unfolding migration_rules
migration_rules-any f h = ground arith
