-- ===== src/Database/Transactions.antt =====
-- packages/db/src/deployment-repository.ts: the transactions and the contracts of a run, each with a
-- unique key.
pub mod Laws
use chain_port.Prelude.{
  ℕ, String, Bool, Option, none, some, or_else, List, [], ◌∷◌, if◌then◌else◌, leb, ◌===◌,
}
use chain_port.Database.Models.{DeploymentTransactionRecord, DeploymentContractRecord, Rows}

-- `input.x ?? existing.x`
abbrev pub or_existing {ℓ} : {A : Type ℓ} → Option A → Option A → Option A
or_existing none existing = existing
or_existing (some a) existing = some a

-- An update keeps the sequence of the row, and every value that the input leaves out.
abbrev pub updated_transaction :
    DeploymentTransactionRecord → DeploymentTransactionRecord → DeploymentTransactionRecord
updated_transaction input existing = record existing {
  status = input.status;
  nonce = or_existing input.nonce existing.nonce;
  from_address = or_existing input.from_address existing.from_address;
  to_address = or_existing input.to_address existing.to_address;
  value = input.value;
  gas_limit = or_existing input.gas_limit existing.gas_limit;
  block_number = or_existing input.block_number existing.block_number;
  contract_address = or_existing input.contract_address existing.contract_address;
  confirmed_at = or_existing input.confirmed_at existing.confirmed_at;
}

abbrev pub put_transaction :
    DeploymentTransactionRecord
    → List DeploymentTransactionRecord
    → List DeploymentTransactionRecord
put_transaction input [] = input ∷ []
put_transaction input (row ∷ rows) =
    let rest = row ∷ put_transaction input rows in
    if row.hash === input.hash then updated_transaction input row ∷ rows else rest

abbrev pub record_transaction : DeploymentTransactionRecord → Rows → Rows
record_transaction input rows = record rows {
  transactions = put_transaction input rows.transactions;
}

abbrev pub put_contract :
    DeploymentContractRecord → List DeploymentContractRecord → List DeploymentContractRecord
put_contract input [] = input ∷ []
put_contract input (row ∷ rows) =
    let rest = row ∷ put_contract input rows in
    if row.address === input.address then input ∷ rows else rest

-- `toLowerCase` is a parameter.
abbrev pub upsert_contract : (String → String) → DeploymentContractRecord → Rows → Rows
upsert_contract lower input rows = record rows {
  contracts = put_contract (record input { address = lower input.address }) rows.contracts;
}

-- `listTransactions`, ordered by sequence; equal ones stay in their order.
abbrev pub insert_by_sequence :
    DeploymentTransactionRecord
    → List DeploymentTransactionRecord
    → List DeploymentTransactionRecord
insert_by_sequence row [] = row ∷ []
insert_by_sequence row (other ∷ rows) =
    let rest = other ∷ insert_by_sequence row rows in
    if leb row.sequence other.sequence then row ∷ other ∷ rows else rest

abbrev pub list_transactions : List DeploymentTransactionRecord → List DeploymentTransactionRecord
list_transactions [] = []
list_transactions (row ∷ rows) = insert_by_sequence row (list_transactions rows)
