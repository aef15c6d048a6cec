-- ===== src/Database/Transactions/Laws.antt =====
-- No row of a run is written twice under one key, and none is lost.
use chain_port.Prelude.{
  ◌≡◌, String, List, [], ◌∷◌, map, count, elem, IsNodup, elem-count, if◌then◌else◌, ◌===◌, arith,
  eq_iff, ◌||◌,
}
use chain_port.Database.Models.{DeploymentTransactionRecord}
use chain_port.Database.Transactions.{put_transaction}

count-put_transaction :
    (k : String) (input : DeploymentTransactionRecord) (rows : List DeploymentTransactionRecord)
    → count k (map (λ t. t.hash) (put_transaction input rows)) ≡ (
        if input.hash === k
        then (if elem k (map (λ t. t.hash) rows) then count k (map (λ t. t.hash) rows) else 1)
        else count k (map (λ t. t.hash) rows))
count-put_transaction k input [] = ground arith
count-put_transaction k input (row ∷ rows) = ground (
  arith,
  count-put_transaction k input rows,
  eq_iff row.hash input.hash,
  eq_iff row.hash k,
  eq_iff input.hash k,
  elem-count k (map (λ t. t.hash) rows),
)

-- Recording a transaction keeps the hashes of a run's transactions distinct; afterwards its own hash
-- is among them, and of the other hashes exactly those from before.
pub put_transaction-IsNodup :
    (input : DeploymentTransactionRecord) (rows : List DeploymentTransactionRecord)
    → IsNodup (map (λ t. t.hash) rows)
    → IsNodup (map (λ t. t.hash) (put_transaction input rows))
      × ((k : String)
          → elem k (map (λ t. t.hash) (put_transaction input rows))
            ≡ ((input.hash === k) || elem k (map (λ t. t.hash) rows)))
put_transaction-IsNodup input rows h = (
  λ k. ground (arith, count-put_transaction k input rows, h k),
  λ k. ground (
    arith,
    count-put_transaction k input rows,
    elem-count k (map (λ t. t.hash) rows),
    elem-count k (map (λ t. t.hash) (put_transaction input rows)),
  ),
)
