-- ===== src/Indexer/Tally/Unbonded.antt =====
-- What the blocks unbond, by a description of its own: for each transaction that is no staking
-- transaction, the values of the staking transactions that it spends and unbonds.
use staking_indexer.Prelude.{
  ℕ, ◌+◌, ◌%◌, ◌^◌, to_u64, Bool, true, false, bytes_eq, Option, some, List, [], ◌∷◌, if◌then◌else◌,
}
use staking_indexer.Prelude.Result.{Result, ok, err, panic}
use staking_indexer.Wire.{Hash, MsgTx}
use staking_indexer.Wire.Blocks.{Tx, IndexedBlock}
use staking_indexer.Store.Record.{StoredStakingTransaction}
use staking_indexer.Indexer.Types.{StakingIndexer, Params, ParsedStakingTx}
use staking_indexer.Indexer.StartHeight.{get_versioned_params}
use staking_indexer.Indexer.Staking.{try_parse_staking_tx, validate_staking_tx}
use staking_indexer.Indexer.Spending.{is_valid_unbonding_tx}
use staking_indexer.Indexer.Spent.{get_spent_staking_txs, get_spent_from_staking_txs}

-- The staking transactions of the blocks so far, by their hashes.
abbrev pub Seen : Type 0
Seen = Hash → Option StoredStakingTransaction

-- What counts of a staking transaction with a verdict on the transaction that spends it.
abbrev pub value_if_valid : Result Bool → StoredStakingTransaction → ℕ
value_if_valid (ok true) st = if st.is_overflow then 0 else st.staking_value
value_if_valid (ok false) st = 0
value_if_valid (err e) st = 0
value_if_valid panic st = 0

-- Staking transactions of the database come first: those of the blocks count if there are none.
abbrev pub stored_or_seen :
    List (StoredStakingTransaction × ℕ)
    → List (StoredStakingTransaction × ℕ)
    → List (StoredStakingTransaction × ℕ)
stored_or_seen [] seen = seen
stored_or_seen (s ∷ ss) seen = s ∷ ss

module _ (si : StakingIndexer) (db : si.store.Db) where
  abbrev pub spend_unbonded : MsgTx → StoredStakingTransaction → ℕ
  spend_unbonded tx st = elim (get_versioned_params si st.inclusion_height) [
    | ok params ↦ value_if_valid (is_valid_unbonding_tx si tx st params) st
    | err e ↦ 0
    | panic ↦ 0
  ]

  abbrev pub spends_unbonded : MsgTx → List (StoredStakingTransaction × ℕ) → ℕ
  spends_unbonded tx [] = 0
  spends_unbonded tx (s ∷ ss) = spend_unbonded tx s.0 + spends_unbonded tx ss

  -- A staking transaction of the blocks is known from then on, with no overflow flag.
  abbrev pub seen_with : MsgTx → ParsedStakingTx → ℕ → Seen → Seen
  seen_with tx d height seen h =
      if bytes_eq (si.codec.tx_hash tx) h
      then some (record {
        tx = tx;
        staking_output_idx = d.staking_output_idx % 2 ^ 32;
        inclusion_height = height;
        staker_pk = d.staker_public_key;
        staking_time = d.staking_time % 2 ^ 32;
        finality_provider_pk = d.finality_provider_public_key;
        is_overflow = false;
        staking_value = to_u64 d.staking_output.value;
      })
      else seen h

  -- What a transaction unbonds, and the staking transactions that are known after it.
  abbrev pub tx_unbonded : ℕ → Params → MsgTx → Seen → ℕ × Seen
  tx_unbonded height params tx seen = elim (try_parse_staking_tx si tx params) [
    | ok d ↦ elim (validate_staking_tx params d) [
      | ok u ↦ (0, seen_with tx d height seen)
      | err e ↦ (0, seen)
      | panic ↦ (0, seen)
    ]
    | err e ↦ (
      spends_unbonded tx
          (stored_or_seen (get_spent_staking_txs si tx db) (get_spent_from_staking_txs seen tx)),
      seen,
    )
    | panic ↦ (0, seen)
  ]

  abbrev pub txs_unbonded : ℕ → Params → List Tx → Seen → ℕ × Seen
  txs_unbonded height params [] seen = (0, seen)
  txs_unbonded height params (x ∷ xs) seen =
      let (n, seen') = tx_unbonded height params x.msg_tx seen in
      let (m, seen_after) = txs_unbonded height params xs seen' in (n + m, seen_after)

  abbrev pub block_unbonded : IndexedBlock → Seen → ℕ × Seen
  block_unbonded b seen = elim (get_versioned_params si (to_u64 b.height)) [
    | ok params ↦ txs_unbonded (to_u64 b.height) params b.txs seen
    | err e ↦ (0, seen)
    | panic ↦ (0, seen)
  ]

  abbrev pub blocks_unbonded : List IndexedBlock → Seen → ℕ
  blocks_unbonded [] seen = 0
  blocks_unbonded (b ∷ bs) seen =
      let (n, seen') = block_unbonded b seen in n + blocks_unbonded bs seen'
