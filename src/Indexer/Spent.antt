-- ===== src/Indexer/Spent.antt =====
-- `getSpentStakingTxs`, `getSpentFromStakingTxs` and `getSpentUnbondingTxs` of indexer/indexer.go.
-- The two slices that they return are one list of pairs: a record, and the index of the input.
pub mod Exact
use staking_indexer.Prelude.{ℕ, ◌+◌, not, Option, none, some, List, [], ◌∷◌, ◌==◌, if◌then◌else◌}
use staking_indexer.Prelude.Result
use staking_indexer.Prelude.Result.{Result, ok, err, panic}
use staking_indexer.Wire.{Hash, MsgTx, TxIn}
use staking_indexer.Store.Record.{StoredStakingTransaction, StoredUnbondingTransaction}
use staking_indexer.Indexer.Types.{StakingIndexer}

-- A read that failed and a record that is missing are both skipped. A panic of the read, of which kvdb
-- documents none, would end the process; it is skipped here as well.
unfoldable pub found {ℓ} : {A : Type ℓ} → Result (Option A) → Option A
found (ok o) = o
found (err e) = none
found panic = none

-- One round of the loop, where `st` was found for the input at `i`: the input must spend the staking
-- output itself.
unfoldable pub add_spent :
    Option StoredStakingTransaction
    → TxIn
    → ℕ
    → List (StoredStakingTransaction × ℕ)
    → List (StoredStakingTransaction × ℕ)
add_spent none tx_in i later = later
add_spent (some st) tx_in i later =
    if not (tx_in.previous_out_point.index == st.staking_output_idx) then later else (st, i) ∷ later

-- The loop over the inputs from the index `i` on, where `lookup` finds a staking transaction.
unfoldable pub spent_staking_from :
    (Hash → Option StoredStakingTransaction) → ℕ → List TxIn → List (StoredStakingTransaction × ℕ)
unfolding add_spent
spent_staking_from lookup i [] = []
spent_staking_from lookup i (tx_in ∷ rest) =
    add_spent (lookup tx_in.previous_out_point.hash) tx_in i
      (spent_staking_from lookup (i + 1) rest)

unfoldable pub spent_unbonding_from :
    (Hash → Option StoredUnbondingTransaction)
    → ℕ
    → List TxIn
    → List (StoredUnbondingTransaction × ℕ)
spent_unbonding_from lookup i [] = []
spent_unbonding_from lookup i (tx_in ∷ rest) =
    let later = spent_unbonding_from lookup (i + 1) rest in
    elim (lookup tx_in.previous_out_point.hash) [ none ↦ later | some ut ↦ (ut, i) ∷ later ]

unfoldable pub get_spent_from_staking_txs :
    (Hash → Option StoredStakingTransaction) → MsgTx → List (StoredStakingTransaction × ℕ)
get_spent_from_staking_txs staking_txs tx = spent_staking_from staking_txs 0 tx.tx_in

module _ (si : StakingIndexer) where
  unfoldable pub get_spent_staking_txs : MsgTx → si.store.Db → List (StoredStakingTransaction × ℕ)
  get_spent_staking_txs tx db =
      spent_staking_from (λ h. found (si.store.get_staking_transaction h db)) 0 tx.tx_in

  unfoldable pub get_spent_unbonding_txs :
      MsgTx → si.store.Db → List (StoredUnbondingTransaction × ℕ)
  get_spent_unbonding_txs tx db =
      spent_unbonding_from (λ h. found (si.store.get_unbonding_transaction h db)) 0 tx.tx_in
