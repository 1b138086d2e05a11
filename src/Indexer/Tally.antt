-- ===== src/Indexer/Tally.antt =====
-- `CalculateTvlInUnconfirmedBlocks` of indexer/indexer.go. The map of the unconfirmed staking
-- transactions is a function, and amounts are int64.
pub mod Words
pub mod Balance
pub mod Unbonded
pub mod Runs
use staking_indexer.Prelude.{
  ℕ, ℤ, pos, ◌+ℤ◌, ◌-ℤ◌, to_u64, to_i64, wrap_i64, Bool, true, false, not, bytes_eq, Option, none,
  some, List, [], ◌∷◌, if◌then◌else◌,
}
use staking_indexer.Prelude.Result.{Result, ok, err, panic, ◌>>=◌}
use staking_indexer.Wire.{Hash, MsgTx}
use staking_indexer.Wire.Blocks.{Tx, IndexedBlock}
use staking_indexer.Store.Record.{StoredStakingTransaction}
use staking_indexer.Indexer.Types.{StakingIndexer, Params, ParsedStakingTx}
use staking_indexer.Indexer.StartHeight.{get_versioned_params}
use staking_indexer.Indexer.Staking.{try_parse_staking_tx, validate_staking_tx}
use staking_indexer.Indexer.Spending.{is_valid_unbonding_tx}
use staking_indexer.Indexer.Spent.{get_spent_staking_txs, get_spent_from_staking_txs}
use staking_indexer.Indexer.Process.{stored_staking_tx}
use staking_indexer.Indexer.Block.{pass_invalid_unbonding}

-- The two variables of the loop.
pub record Tally : Type 0 where
  pub tvl : ℤ
  pub staking_txs : Hash → Option StoredStakingTransaction

abbrev pub put :
    Hash
    → StoredStakingTransaction
    → (Hash → Option StoredStakingTransaction)
    → Hash
    → Option StoredStakingTransaction
put k st m h = if bytes_eq k h then some st else m h

-- The records that the database has, or those of the map if there are none.
abbrev pub or_unconfirmed :
    List (StoredStakingTransaction × ℕ)
    → List (StoredStakingTransaction × ℕ)
    → List (StoredStakingTransaction × ℕ)
or_unconfirmed [] unconfirmed = unconfirmed
or_unconfirmed (s ∷ ss) unconfirmed = s ∷ ss

module _ (si : StakingIndexer) where
  -- What a spending of a staking transaction does to the TVL.
  unfoldable pub subtract_unbonded : Option Bool → StoredStakingTransaction → ℤ → ℤ
  subtract_unbonded (some true) st tvl =
      if not st.is_overflow then wrap_i64 (tvl -ℤ to_i64 st.staking_value) else tvl
  subtract_unbonded (some false) st tvl = tvl
  subtract_unbonded none st tvl = tvl

  unfoldable pub tally_spend : MsgTx → StoredStakingTransaction → ℤ → Result ℤ
  unfolding subtract_unbonded
  tally_spend tx st tvl = do
    params ← get_versioned_params si st.inclusion_height
    verdict ← pass_invalid_unbonding (is_valid_unbonding_tx si tx st params)
    ok (subtract_unbonded verdict st tvl)

  unfoldable pub tally_spends : MsgTx → List (StoredStakingTransaction × ℕ) → ℤ → Result ℤ
  unfolding tally_spend
  tally_spends tx [] tvl = ok tvl
  tally_spends tx (s ∷ ss) tvl = tally_spend tx s.0 tvl >>= tally_spends tx ss

  -- A valid staking transaction counts, whatever the cap; its record has no overflow flag.
  unfoldable pub tally_staking : MsgTx → ParsedStakingTx → ℕ → Tally → Tally
  tally_staking tx staking_data height t = record {
    tvl = wrap_i64 (t.tvl +ℤ staking_data.staking_output.value);
    staking_txs =
        put (si.codec.tx_hash tx) (stored_staking_tx si tx staking_data height false) t.staking_txs;
  }

  -- The staking transactions that a transaction spends.
  unfoldable pub spent_by : MsgTx → si.store.Db → Tally → List (StoredStakingTransaction × ℕ)
  spent_by tx db t =
      or_unconfirmed (get_spent_staking_txs si tx db) (get_spent_from_staking_txs t.staking_txs tx)

  -- The body of the loop over the transactions; `continue` returns the tally as it is.
  unfoldable pub tally_tx : si.store.Db → ℕ → Params → MsgTx → Tally → Result Tally
  unfolding tally_spends tally_staking spent_by
  tally_tx db height params tx t = elim (try_parse_staking_tx si tx params) [
    | ok staking_data ↦ elim (validate_staking_tx params staking_data) [
      | ok u ↦ ok (tally_staking tx staking_data height t)
      | err e ↦ ok t
      | panic ↦ panic
    ]
    | err e ↦ do tvl ← tally_spends tx (spent_by tx db t) t.tvl; ok (record t { tvl = tvl })
    | panic ↦ panic
  ]

  unfoldable pub tally_txs : si.store.Db → ℕ → Params → List Tx → Tally → Result Tally
  unfolding tally_tx
  tally_txs db height params [] t = ok t
  tally_txs db height params (tx ∷ txs) t =
      tally_tx db height params tx.msg_tx t >>= tally_txs db height params txs

  unfoldable pub tally_blocks : si.store.Db → List IndexedBlock → Tally → Result Tally
  unfolding tally_txs
  tally_blocks db [] t = ok t
  tally_blocks db (b ∷ bs) t = do
    params ← get_versioned_params si (to_u64 b.height)
    t' ← tally_txs db (to_u64 b.height) params b.txs t
    tally_blocks db bs t'

  unfoldable pub calculate_tvl_in_unconfirmed_blocks : List IndexedBlock → si.store.Db → Result ℤ
  unfolding tally_blocks
  calculate_tvl_in_unconfirmed_blocks unconfirmed_blocks db = do
    t ← tally_blocks db unconfirmed_blocks (record { tvl = pos 0; staking_txs = λ h. none })
    ok t.tvl
