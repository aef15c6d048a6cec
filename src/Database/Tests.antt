-- ===== src/Database/Tests.antt =====
-- Writes of transactions.
use chain_port.Prelude.{
  ℕ, ◌≡◌, ◌||◌, String, none, List, [], ◌∷◌, map, elem, IsNodup, arith, eq_iff, ◌===◌,
}
use chain_port.Database.Models.{DeploymentTransactionRecord, DeploymentTransactionStatus}
use chain_port.Database.Transactions.{put_transaction}
use chain_port.Database.Transactions.Laws.{put_transaction-IsNodup}

abbrev sent : ℕ → String → DeploymentTransactionRecord
sent sequence hash = record {
  sequence = sequence;
  hash = hash;
  nonce = none;
  from_address = none;
  to_address = none;
  value = "0";
  gas_limit = none;
  status = DeploymentTransactionStatus.submitted;
  block_number = none;
  contract_address = none;
  confirmed_at = none;
}

abbrev two_sent : List DeploymentTransactionRecord
two_sent = sent 1 "0xa" ∷ sent 2 "0xb" ∷ []

abbrev hash_of : DeploymentTransactionRecord → String
hash_of t = t.hash

two_sent-IsNodup : IsNodup (map hash_of two_sent)
two_sent-IsNodup k = ground (arith, eq_iff "0xa" k, eq_iff "0xb" k, eq_iff "0xa" "0xb")

-- The receipt of the first one comes.
put_transaction-IsNodup_example :
    IsNodup (map hash_of (put_transaction (sent 1 "0xa") two_sent))
    × ((k : String)
        → elem k (map hash_of (put_transaction (sent 1 "0xa") two_sent))
          ≡ (("0xa" === k) || elem k (map hash_of two_sent)))
put_transaction-IsNodup_example = put_transaction-IsNodup (sent 1 "0xa") two_sent two_sent-IsNodup
