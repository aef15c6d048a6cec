-- ===== src/Deployment/Checks.antt =====
-- packages/deployment/src/checks.ts and verification.ts. The replies of the chain and of the explorer
-- are parameters.
use chain_port.Prelude.{
  ℕ, ◌+◌, String, Bool, true, false, not, ◌&&◌, Option, none, some, List, [], ◌∷◌, length,
  if◌then◌else◌, ltb, ◌==◌, ◌===◌, template, decimal, Result, ok, err,
}
use chain_port.Database.Models.{
  DeploymentCheckStatus, DeploymentCheckRecord, DeploymentTransactionRecord,
  DeploymentTransactionStatus, DeploymentContractRecord, DeploymentSourceVerificationStatus,
}
use chain_port.Deployment.Target.{ChainDefinition, VerificationProvider, no_provider}
use chain_port.Deployment.Errors.{Failure}

abbrev pub check : String → Bool → String → DeploymentCheckRecord
check name passed detail = record {
  name = name;
  status = if passed then DeploymentCheckStatus.passed else DeploymentCheckStatus.failed;
  detail = detail;
}

abbrev pub is_confirmed : DeploymentTransactionStatus → Bool
is_confirmed DeploymentTransactionStatus.confirmed = true
is_confirmed _ = false

abbrev pub count_confirmed : List DeploymentTransactionRecord → ℕ
count_confirmed [] = 0
count_confirmed (tx ∷ txs) = (if is_confirmed tx.status then 1 else 0) + count_confirmed txs

-- `code !== "0x" && code !== "0x0"`
abbrev pub has_code : String → Bool
has_code code = not (code === "0x") && not (code === "0x0")

abbrev add_code : ℕ → Result Failure ℕ → Result Failure ℕ
add_code n (ok m) = ok (n + m)
add_code n (err e) = err e

-- The contracts with code; a call that fails ends the checks.
abbrev pub count_code :
    (String → Result Failure String) → List DeploymentContractRecord → Result Failure ℕ
count_code code_at [] = ok 0
count_code code_at (contract ∷ contracts) =
    let rest = count_code code_at contracts in
    elim (code_at contract.address) [
      | ok code ↦ add_code (if has_code code then 1 else 0) rest
      | err e ↦ err e
    ]

abbrev count_check : Option ℕ → ℕ → List DeploymentCheckRecord
count_check none n = []
count_check (some expected) n =
    check "EXPECTED_CONTRACT_COUNT" (n == expected)
      (template ("discovered=" ∷ decimal n ∷ " expected=" ∷ decimal expected ∷ []))
    ∷ []

-- The checks, by the numbers that they compare.
abbrev pub checks_of :
    ℕ
    → ℕ
    → List DeploymentTransactionRecord
    → List DeploymentContractRecord
    → Option ℕ
    → ℕ
    → ℕ
    → List DeploymentCheckRecord
checks_of chain_id expected_chain_id transactions contracts expected_count code_present nonce =
    check "CHAIN_ID_MATCH" (chain_id == expected_chain_id)
      (template ("rpc=" ∷ decimal chain_id ∷ " expected=" ∷ decimal expected_chain_id ∷ []))
    ∷ check "TRANSACTION_SUCCESS"
        ((count_confirmed transactions == length transactions) && ltb 0 (length transactions))
        (template (
          decimal (count_confirmed transactions)
          ∷ "/"
          ∷ decimal (length transactions)
          ∷ " confirmed"
          ∷ []))
    ∷ check "CONTRACT_CODE_PRESENT" ((code_present == length contracts) && ltb 0 (length contracts))
        (template (
          decimal code_present
          ∷ "/"
          ∷ decimal (length contracts)
          ∷ " contracts have bytecode"
          ∷ []))
    ∷ check "DEPLOYER_NONCE_ADVANCED" (ltb 0 nonce) (template ("nonce=" ∷ decimal nonce ∷ []))
    ∷ count_check expected_count (length contracts)

unfoldable pub run_post_deploy_checks :
    Result Failure ℕ
    → (String → Result Failure String)
    → Result Failure ℕ
    → ℕ
    → List DeploymentContractRecord
    → Option ℕ
    → List DeploymentTransactionRecord
    → Result Failure (List DeploymentCheckRecord)
unfolding template decimal
run_post_deploy_checks chain_id_reply code_at nonce_reply expected_chain_id contracts expected_count
      transactions =
    elim chain_id_reply [
      | err e ↦ err e
      | ok chain_id ↦ elim (count_code code_at contracts) [
        | err e ↦ err e
        | ok code_present ↦ elim nonce_reply [
          | err e ↦ err e
          | ok nonce ↦ ok (
              checks_of chain_id expected_chain_id transactions contracts expected_count
                code_present nonce)
        ]
      ]
    ]

pub record SourceVerificationResult : Type 0 where
  pub status : DeploymentSourceVerificationStatus
  pub message : String

-- The call of `verifyContractSource` without compiler metadata, which is the only one there is: it
-- ends before the explorer is asked.
abbrev verify_without_metadata : Option String → (String → Bool) → SourceVerificationResult
verify_without_metadata none is_blank = record {
  status = DeploymentSourceVerificationStatus.not_configured;
  message = "explorer API key is not configured";
}
verify_without_metadata (some api_key) is_blank =
    if is_blank api_key
    then record {
      status = DeploymentSourceVerificationStatus.not_configured;
      message = "explorer API key is not configured";
    }
    else record {
      status = DeploymentSourceVerificationStatus.not_supported;
      message = "exact compiler metadata could not be reconstructed from trusted artifacts";
    }

abbrev provider_of : ChainDefinition → VerificationProvider
provider_of chain = elim chain.deployment [
  | none ↦ no_provider
  | some metadata ↦ metadata.verification_provider
]

abbrev is_none : VerificationProvider → Bool
is_none no_provider = true
is_none _ = false

abbrev pub verify_contract_source :
    ChainDefinition → Option String → (String → Bool) → SourceVerificationResult
verify_contract_source chain api_key is_blank =
    if is_none (provider_of chain)
    then record {
      status = DeploymentSourceVerificationStatus.not_supported;
      message = "no explorer verification provider for this network";
    }
    else verify_without_metadata api_key is_blank
