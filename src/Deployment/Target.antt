-- ===== src/Deployment/Target.antt =====
-- packages/deployment/src/target.ts, and of packages/chain-registry/src/types.ts what it reads. The
-- reply to `eth_chainId` and `trim() === ""` are parameters.
use chain_port.Prelude.{
  ℕ, String, Bool, true, false, not, Option, none, some, List, [], ◌∷◌, if◌then◌else◌, ◌==◌, ◌===◌,
  Result, ok, err, template, decimal,
}
use chain_port.Deployment.Errors.{Failure, engine_error, engine_error_with}

pub data DeploymentEnvironment : Type 0 where
  testnet devnet mainnet : DeploymentEnvironment

pub data VerificationProvider : Type 0 where
  etherscan_v2 blockscout no_provider : VerificationProvider

pub record ChainDeploymentMetadata : Type 0 where
  pub enabled : Bool
  pub environment : DeploymentEnvironment
  pub confirmation_count : ℕ
  pub verification_provider : VerificationProvider
  pub verification_api_url : Option String
  pub max_funding_wei : ℕ
  pub max_gas_budget : ℕ
  pub max_transaction_count : ℕ
  pub max_transaction_value_wei : ℕ

pub record ChainDefinition : Type 0 where
  pub key : String
  pub chain_id : ℕ
  pub network_kind : String
  pub rpc_urls : List String
  pub deployment : Option ChainDeploymentMetadata

abbrev pub is_mainnet : DeploymentEnvironment → Bool
is_mainnet DeploymentEnvironment.mainnet = true
is_mainnet _ = false

abbrev assert_metadata : Option ChainDeploymentMetadata → Result Failure (Unit {0})
assert_metadata none = err (engine_error "DEPLOYMENT_TARGET_DISABLED")
assert_metadata (some metadata) =
    if is_mainnet metadata.environment
    then err (engine_error "MAINNET_DEPLOYMENT_FORBIDDEN")
    else if not metadata.enabled
    then err (engine_error "DEPLOYMENT_TARGET_DISABLED")
    else ok tt

abbrev pub assert_deployable_target : ChainDefinition → Result Failure (Unit {0})
assert_deployable_target chain =
    if chain.network_kind === "mainnet"
    then err (engine_error "MAINNET_DEPLOYMENT_FORBIDDEN")
    else assert_metadata chain.deployment

abbrev asserted : ChainDefinition → Result Failure (Unit {0}) → Result Failure ChainDefinition
asserted chain (ok _) = ok chain
asserted chain (err e) = err e

abbrev pub require_deployment_target : Option ChainDefinition → Result Failure ChainDefinition
require_deployment_target none = err (engine_error "UNKNOWN_DEPLOYMENT_TARGET")
require_deployment_target (some chain) = asserted chain (assert_deployable_target chain)

-- The reply's number; `none` is one beyond all numbers of the language.
unfoldable pub chain_id_mismatch : ChainDefinition → String → Failure
chain_id_mismatch chain numeric = engine_error_with "CHAIN_ID_MISMATCH" (
    template
      ("RPC chain id " ∷ numeric ∷ " does not match registry " ∷ decimal chain.chain_id ∷ []))

abbrev check_chain_id : ChainDefinition → Result Failure (Option ℕ) → Result Failure (Unit {0})
check_chain_id chain (err e) = err e
check_chain_id chain (ok none) = err (chain_id_mismatch chain "Infinity")
check_chain_id chain (ok (some numeric)) =
    if numeric == chain.chain_id then ok tt else err (chain_id_mismatch chain (decimal numeric))

abbrev pub confirm_target_rpc :
    ChainDefinition → Result Failure (Option ℕ) → Result Failure (Unit {0})
confirm_target_rpc chain reply = elim (assert_deployable_target chain) [
  | ok _ ↦ check_chain_id chain reply
  | err e ↦ err e
]

abbrev first_url : List String → Result Failure String
first_url [] = err (engine_error_with "UNKNOWN_DEPLOYMENT_TARGET" "Registry RPC URL is missing")
first_url (url ∷ urls) = ok url

abbrev pub select_upstream_rpc :
    (String → Bool) → ChainDefinition → Option String → Result Failure String
select_upstream_rpc is_blank chain none = first_url chain.rpc_urls
select_upstream_rpc is_blank chain (some override) =
    if is_blank override
    then first_url chain.rpc_urls
    else if chain.key === "anvil"
    then ok override
    else err (engine_error "ARBITRARY_RPC_REJECTED")
