-- ===== src/Migration/Rules.antt =====
-- packages/migration/src/rules/index.ts: the rules, the first that supports a finding is taken.
pub mod ChainId
pub mod RpcUrl
pub mod EnvConfig
pub mod Token
pub mod Infrastructure
pub mod Oracle
pub mod RpcCapability
pub mod CrossChain
pub mod ProjectDeployment
pub mod HardcodedAddress
pub mod Fallback
pub mod Contract
use chain_port.Prelude.{List, [], ◌∷◌}
use chain_port.Migration.Types.{MigrationRule}
use chain_port.Migration.Rules.ChainId.{chain_id_rule}
use chain_port.Migration.Rules.RpcUrl.{rpc_url_rule}
use chain_port.Migration.Rules.EnvConfig.{env_config_rule}
use chain_port.Migration.Rules.Token.{token_address_rule}
use chain_port.Migration.Rules.Infrastructure.{infrastructure_address_rule}
use chain_port.Migration.Rules.Oracle.{oracle_rule}
use chain_port.Migration.Rules.RpcCapability.{rpc_capability_rule}
use chain_port.Migration.Rules.CrossChain.{cross_chain_rule}
use chain_port.Migration.Rules.ProjectDeployment.{project_deployment_rule}
use chain_port.Migration.Rules.HardcodedAddress.{unknown_address_rule}
use chain_port.Migration.Rules.Fallback.{fallback_rule}

unfoldable pub migration_rules : List MigrationRule
unfolding chain_id_rule rpc_url_rule env_config_rule token_address_rule infrastructure_address_rule
    oracle_rule rpc_capability_rule cross_chain_rule project_deployment_rule unknown_address_rule
    fallback_rule
migration_rules =
    chain_id_rule ∷ rpc_url_rule ∷ env_config_rule ∷ token_address_rule
    ∷ infrastructure_address_rule ∷ oracle_rule ∷ rpc_capability_rule ∷ cross_chain_rule
    ∷ project_deployment_rule ∷ unknown_address_rule ∷ fallback_rule ∷ []
