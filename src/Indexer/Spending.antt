-- ===== src/Indexer/Spending.antt =====
-- `IsValidUnbondingTx`, `ValidateWithdrawalTxFromStaking` and `ValidateWithdrawalTxFromUnbonding` of
-- indexer/indexer.go.
pub mod Verdict
use staking_indexer.Prelude.{
  ℕ, ◌-◌, ◌%◌, ◌^◌, ℤ, pos, ◌-ℤ◌, leb_ℤ, to_i64, wrap_i64, Bool, true, false, not, Bytes, bytes_eq,
  [], ◌∷◌, ◌&&◌, ◌==◌, if◌then◌else◌,
}
use staking_indexer.Prelude.Result
use staking_indexer.Prelude.Result.{
  ◌>>=◌, ◌>>◌, Result, ok, guard, invalid_unbonding_tx, invalid_withdrawal_tx,
}
use staking_indexer.Wire.{MsgTx, TxIn}
use staking_indexer.Store.Record.{StoredStakingTransaction}
use staking_indexer.Indexer.Types.{StakingIndexer, Params, InfoRequest}
use staking_indexer.Indexer.Exec.{index, script_from_witness}

abbrev pub max_tx_in_sequence_num : ℕ
max_tx_in_sequence_num = 0xffffffff

abbrev pub eq_ℤ : ℤ → ℤ → Bool
eq_ℤ a b = leb_ℤ a b && leb_ℤ b a

-- The request from which the staking scripts are rebuilt; `uint16(StakingTime)`.
unfoldable pub staking_request : StoredStakingTransaction → Params → InfoRequest
staking_request st params = record {
  staker_pk = st.staker_pk;
  finality_provider_pks = st.finality_provider_pk ∷ [];
  covenant_pks = params.covenant_pks;
  covenant_quorum = params.covenant_quorum;
  time = st.staking_time % 2 ^ 16;
  amount = to_i64 st.staking_value;
}

unfoldable pub unbonding_request : StoredStakingTransaction → Params → ℤ → InfoRequest
unbonding_request st params expected_output_value = record {
  staker_pk = st.staker_pk;
  finality_provider_pks = st.finality_provider_pk ∷ [];
  covenant_pks = params.covenant_pks;
  covenant_quorum = params.covenant_quorum;
  time = params.unbonding_time;
  amount = expected_output_value;
}

module _ (si : StakingIndexer) where
  -- The input spends the staking output.
  unfoldable pub spends_staking_output : TxIn → StoredStakingTransaction → Bool
  spends_staking_output tx_in st =
      bytes_eq tx_in.previous_out_point.hash (si.codec.tx_hash st.tx)
      && tx_in.previous_out_point.index == st.staking_output_idx

  -- Step 3: the witness unlocks the unbonding path.
  unfoldable pub unlocks_unbonding_path : TxIn → StoredStakingTransaction → Params → Result Bool
  unlocks_unbonding_path tx_in st params = do
    info ← si.btc.build_staking_info (staking_request st params)
    path ← info.unbonding_path
    script ← script_from_witness tx_in.witness
    ok (bytes_eq path script)

  -- Steps 4 and 5, on a transaction that unlocks the unbonding path.
  unfoldable pub check_unbonding_output :
      MsgTx → TxIn → StoredStakingTransaction → Params → Result Bool
  check_unbonding_output tx tx_in st params = do
    guard (tx_in.sequence == max_tx_in_sequence_num) invalid_unbonding_tx
    guard (tx.lock_time == 0) invalid_unbonding_tx
    staking_output ← index st.tx.tx_out st.staking_output_idx
    let expected = wrap_i64 (staking_output.value -ℤ params.unbonding_fee)
    guard (not (leb_ℤ expected (pos 0))) invalid_unbonding_tx
    info ← si.btc.build_unbonding_info (unbonding_request st params expected)
    out ← index tx.tx_out 0
    guard (bytes_eq out.pk_script info.unbonding_output.pk_script) invalid_unbonding_tx
    guard (eq_ℤ out.value info.unbonding_output.value) invalid_unbonding_tx
    ok true

  unfoldable pub is_valid_unbonding_tx : MsgTx → StoredStakingTransaction → Params → Result Bool
  is_valid_unbonding_tx tx st params = if not (si.btc.is_transfer_tx tx) then ok false else do
    tx_in ← index tx.tx_in 0
    if not (spends_staking_output tx_in st) then ok false else do
      unlocks ← unlocks_unbonding_path tx_in st params
      if not unlocks then ok false else check_unbonding_output tx tx_in st params

  -- The end of both withdrawal checks: the witness of the input at `i` unlocks the path.
  unfoldable pub unlocks_time_lock_path : MsgTx → ℕ → Bytes → Result (Unit {0})
  unlocks_time_lock_path tx i path = do
    tx_in ← index tx.tx_in i
    script ← script_from_witness tx_in.witness
    guard (bytes_eq path script) invalid_withdrawal_tx

  unfoldable pub validate_withdrawal_tx_from_staking :
      MsgTx → StoredStakingTransaction → ℕ → Params → Result (Unit {0})
  unfolding unlocks_time_lock_path
  validate_withdrawal_tx_from_staking tx st spending_input_idx params = do
    info ← si.btc.build_staking_info (staking_request st params)
    path ← info.time_lock_path
    unlocks_time_lock_path tx spending_input_idx path

  unfoldable pub validate_withdrawal_tx_from_unbonding :
      MsgTx → StoredStakingTransaction → ℕ → Params → Result (Unit {0})
  unfolding unlocks_time_lock_path
  validate_withdrawal_tx_from_unbonding tx st spending_input_idx params = do
    let expected = wrap_i64 (to_i64 st.staking_value -ℤ params.unbonding_fee)
    info ← si.btc.build_unbonding_info (unbonding_request st params expected)
    path ← info.time_lock_path
    unlocks_time_lock_path tx spending_input_idx path
