-- ===== src/Deployment/Policy.antt =====
-- packages/deployment/src/policy.ts
use chain_port.Prelude.{
  ℕ, ◌≤◌, ◌≡◌, ◌↔◌, refl, Option, none, some, List, [], ◌∷◌, All, if◌then◌else◌, ltb, arith, Result,
  ok, err,
}
use chain_port.Deployment.Target.{ChainDefinition, ChainDeploymentMetadata}
use chain_port.Deployment.Eligibility.{DeploymentError, policy_limit_exceeded}

pub record DeploymentPolicy : Type 0 where
  pub max_tx_count : ℕ
  pub max_gas : ℕ
  pub max_funding_wei : ℕ
  pub max_transaction_value_wei : ℕ

-- `Partial<DeploymentPolicy>`
pub record PolicyOverrides : Type 0 where
  pub max_tx_count : Option ℕ
  pub max_gas : Option ℕ
  pub max_funding_wei : Option ℕ
  pub max_transaction_value_wei : Option ℕ

-- `override ?? meta?.field ?? default`
abbrev choose : Option ℕ → Option ChainDeploymentMetadata → (ChainDeploymentMetadata → ℕ) → ℕ → ℕ
choose (some override) meta field default = override
choose none (some metadata) field default = field metadata
choose none none field default = default

unfoldable pub policy_for : ChainDefinition → PolicyOverrides → DeploymentPolicy
policy_for chain overrides =
    let meta = chain.deployment in
    record {
      max_tx_count = choose overrides.max_tx_count meta (λ m. m.max_transaction_count) 12;
      max_gas = choose overrides.max_gas meta (λ m. m.max_gas_budget) 15000000;
      max_funding_wei =
          choose overrides.max_funding_wei meta (λ m. m.max_funding_wei) 50000000000000000;
      max_transaction_value_wei =
          choose overrides.max_transaction_value_wei meta (λ m. m.max_transaction_value_wei) 0;
    }

abbrev pub assert_values : DeploymentPolicy → List ℕ → Result DeploymentError (Unit {0})
assert_values policy [] = ok tt
assert_values policy (value ∷ values) =
    let rest = assert_values policy values in
    if ltb policy.max_transaction_value_wei value then err policy_limit_exceeded else rest

unfoldable pub assert_preflight_policy :
    DeploymentPolicy → ℕ → ℕ → List ℕ → Result DeploymentError (Unit {0})
assert_preflight_policy policy transaction_count estimated_gas values =
    if ltb policy.max_tx_count transaction_count
    then err policy_limit_exceeded
    else if ltb policy.max_gas estimated_gas
    then err policy_limit_exceeded
    else assert_values policy values

assert_values_iff :
    (policy : DeploymentPolicy) (values : List ℕ)
    → (assert_values policy values ≡ ok tt)
      ↔ All (λ (value : ℕ). value ≤ policy.max_transaction_value_wei) values
assert_values_iff policy [] = (λ _. tt, λ _. refl)
assert_values_iff policy (value ∷ values) = ground (arith, assert_values_iff policy values)

-- The assertion passes exactly if the transaction count, the gas and each value are within the
-- policy's limits.
pub assert_preflight_policy_iff :
    (policy : DeploymentPolicy) (transaction_count estimated_gas : ℕ) (values : List ℕ)
    → (assert_preflight_policy policy transaction_count estimated_gas values ≡ ok tt) ↔ (
        (transaction_count ≤ policy.max_tx_count)
        × (estimated_gas ≤ policy.max_gas)
        × All (λ (value : ℕ). value ≤ policy.max_transaction_value_wei) values)
unfolding assert_preflight_policy
assert_preflight_policy_iff policy transaction_count estimated_gas values =
    ground (arith, assert_values_iff policy values)
