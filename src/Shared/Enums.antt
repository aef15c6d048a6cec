-- ===== src/Shared/Enums.antt =====
-- packages/shared/src/enums.ts: the closed sets of the migration planner and the compatibility engine.
use chain_port.Prelude.{ℕ, String, Bool, true, false, List, [], ◌∷◌}

pub data CompatibilityStatus : Type 0 where
  pass warning blocker unknown : CompatibilityStatus

pub data CompatibilityCategory : Type 0 where
  contracts rpc tokens oracles protocols cross_chain frontend configuration : CompatibilityCategory

pub data CompatibilityReadiness : Type 0 where
  ready review_required blocked insufficient_data : CompatibilityReadiness

pub data RemediationType : Type 0 where
  none config_change address_mapping infrastructure_required manual_review unknown : RemediationType

pub data CoverageConfidence : Type 0 where
  high medium low : CoverageConfidence

pub data MigrationPlanOutcome : Type 0 where
  ready_to_apply review_required blocked needs_verification : MigrationPlanOutcome

pub data MigrationAutomationLevel : Type 0 where
  safe_automatic review_required manual blocked unknown : MigrationAutomationLevel

pub data MigrationRiskLevel : Type 0 where
  low medium high critical : MigrationRiskLevel

pub data MigrationActionStatus : Type 0 where
  planned blocked unknown : MigrationActionStatus

pub data MigrationStage : Type 0 where
  network_configuration rpc_and_explorer token_mappings infrastructure_contracts oracles cross_chain
        contract_configuration frontend_configuration deployment_configuration manual_review :
      MigrationStage

pub data MigrationActionCategory : Type 0 where
  chain_id rpc_url explorer env_config token_address infrastructure_address oracle_feed
        rpc_capability cross_chain frontend_network unknown_address blocked_infrastructure :
      MigrationActionCategory

-- The place of a stage in `MIGRATION_STAGES`.
abbrev pub stage_index : MigrationStage → ℕ
stage_index MigrationStage.network_configuration = 0
stage_index MigrationStage.rpc_and_explorer = 1
stage_index MigrationStage.token_mappings = 2
stage_index MigrationStage.infrastructure_contracts = 3
stage_index MigrationStage.oracles = 4
stage_index MigrationStage.cross_chain = 5
stage_index MigrationStage.contract_configuration = 6
stage_index MigrationStage.frontend_configuration = 7
stage_index MigrationStage.deployment_configuration = 8
stage_index MigrationStage.manual_review = 9

-- The place of a category in `COMPATIBILITY_CATEGORIES`, by which two are compared.
abbrev pub category_index : CompatibilityCategory → ℕ
category_index CompatibilityCategory.contracts = 0
category_index CompatibilityCategory.rpc = 1
category_index CompatibilityCategory.tokens = 2
category_index CompatibilityCategory.oracles = 3
category_index CompatibilityCategory.protocols = 4
category_index CompatibilityCategory.cross_chain = 5
category_index CompatibilityCategory.frontend = 6
category_index CompatibilityCategory.configuration = 7

abbrev pub compatibility_categories : List CompatibilityCategory
compatibility_categories =
    CompatibilityCategory.contracts ∷ CompatibilityCategory.rpc ∷ CompatibilityCategory.tokens
    ∷ CompatibilityCategory.oracles ∷ CompatibilityCategory.protocols
    ∷ CompatibilityCategory.cross_chain ∷ CompatibilityCategory.frontend
    ∷ CompatibilityCategory.configuration ∷ []

-- `status === "PASS"`, and so on.
abbrev pub is_pass : CompatibilityStatus → Bool
is_pass CompatibilityStatus.pass = true
is_pass _ = false

abbrev pub is_warning : CompatibilityStatus → Bool
is_warning CompatibilityStatus.warning = true
is_warning _ = false

abbrev pub is_blocker : CompatibilityStatus → Bool
is_blocker CompatibilityStatus.blocker = true
is_blocker _ = false

abbrev pub is_unknown : CompatibilityStatus → Bool
is_unknown CompatibilityStatus.unknown = true
is_unknown _ = false

abbrev pub is_frontend : CompatibilityCategory → Bool
is_frontend CompatibilityCategory.frontend = true
is_frontend _ = false

abbrev pub is_contracts : CompatibilityCategory → Bool
is_contracts CompatibilityCategory.contracts = true
is_contracts _ = false

-- The strings that the two enumerations are in the source.
abbrev pub status_name : CompatibilityStatus → String
status_name CompatibilityStatus.pass = "PASS"
status_name CompatibilityStatus.warning = "WARNING"
status_name CompatibilityStatus.blocker = "BLOCKER"
status_name CompatibilityStatus.unknown = "UNKNOWN"

abbrev pub category_name : CompatibilityCategory → String
category_name CompatibilityCategory.contracts = "CONTRACTS"
category_name CompatibilityCategory.rpc = "RPC"
category_name CompatibilityCategory.tokens = "TOKENS"
category_name CompatibilityCategory.oracles = "ORACLES"
category_name CompatibilityCategory.protocols = "PROTOCOLS"
category_name CompatibilityCategory.cross_chain = "CROSS_CHAIN"
category_name CompatibilityCategory.frontend = "FRONTEND"
category_name CompatibilityCategory.configuration = "CONFIGURATION"
