-- ===== src/Indexer/Block.antt =====
-- `HandleConfirmedBlock`, `handleSpendingStakingTransaction` and
-- `handleSpendingUnbondingTransaction` of indexer/indexer.go.
pub mod Verdict
pub mod Steps
use staking_indexer.Prelude.{
  ℕ, ℤ, to_u64, Bool, true, false, not, Option, none, some, List, [], ◌∷◌, if◌then◌else◌,
}
use staking_indexer.Prelude.Result.{
  Result, ok, err, panic, invalid_unbonding_tx, invalid_withdrawal_tx,
}
use staking_indexer.Wire.{Hash, MsgTx}
use staking_indexer.Wire.Blocks.{IndexedBlock}
use staking_indexer.Store.Record.{StoredStakingTransaction, StoredUnbondingTransaction}
use staking_indexer.Indexer.Types.{StakingIndexer, Params, ParsedStakingTx, confirmed_info}
use staking_indexer.Indexer.Exec.{Exec, pure, lift, reads, writes, ◌>>=◌, ◌>>◌, push_event}
use staking_indexer.Indexer.StartHeight.{get_versioned_params}
use staking_indexer.Indexer.Staking.{try_parse_staking_tx}
use staking_indexer.Indexer.Spending.{
  is_valid_unbonding_tx, validate_withdrawal_tx_from_staking, validate_withdrawal_tx_from_unbonding,
}
use staking_indexer.Indexer.Spent.{get_spent_staking_txs, get_spent_unbonding_txs}
use staking_indexer.Indexer.Process.{
  process_staking_tx, process_unbonding_tx, process_withdraw_tx, unless_duplicate,
}

-- An invalid transaction is logged and passed over; any other error is returned.
abbrev pub pass_invalid_unbonding : Result Bool → Result (Option Bool)
pass_invalid_unbonding (ok b) = ok (some b)
pass_invalid_unbonding (err invalid_unbonding_tx) = ok none
pass_invalid_unbonding (err e) = err e
pass_invalid_unbonding panic = panic

-- Whether the withdrawal is valid.
abbrev pub pass_invalid_withdrawal : Result (Unit {0}) → Result Bool
pass_invalid_withdrawal (ok u) = ok true
pass_invalid_withdrawal (err invalid_withdrawal_tx) = ok false
pass_invalid_withdrawal (err e) = err e
pass_invalid_withdrawal panic = panic

module _ (si : StakingIndexer) where
  -- `for _, x := range xs`
  unfoldable pub for_each : {A : Type 0} → List A → (A → Exec si (Unit {0})) → Exec si (Unit {0})
  for_each [] f = pure tt
  for_each (x ∷ xs) f = f x >>= λ _. for_each xs f

  -- A duplicate is not critical: it happens when the indexer restarts.
  unfoldable pub ignore_duplicate : Exec si (Unit {0}) → Exec si (Unit {0})
  ignore_duplicate m w = let (r, w') = m w in (unless_duplicate r, w')

  -- A staking record that is missing here makes the caller dereference nil.
  abbrev pub present {ℓ} : {A : Type ℓ} → Option A → Result A
  present none = panic
  present (some a) = ok a

  unfoldable pub withdraw_if : Bool → Hash → Exec si (Unit {0})
  withdraw_if valid staking_tx_hash =
      if valid then process_withdraw_tx si staking_tx_hash else pure tt

  unfoldable pub handle_spending_unbonding_transaction :
      MsgTx → StoredUnbondingTransaction → ℕ → Exec si (Unit {0})
  unfolding withdraw_if
  handle_spending_unbonding_transaction tx ut spending_input_idx = do
    maybe_staking_tx ← reads (si.store.get_staking_transaction ut.staking_tx_hash)
    st ← lift (present maybe_staking_tx)
    params ← lift (get_versioned_params si st.inclusion_height)
    valid ← lift (
        pass_invalid_withdrawal
          (validate_withdrawal_tx_from_unbonding si tx st spending_input_idx params))
    withdraw_if valid ut.staking_tx_hash

  -- What is done with the verdict of `is_valid_unbonding_tx`.
  unfoldable pub handle_verdict :
      Option Bool → MsgTx → StoredStakingTransaction → ℕ → ℕ → ℤ → Params → Exec si (Unit {0})
  unfolding withdraw_if ignore_duplicate
  handle_verdict none tx st spending_input_idx height timestamp params = pure tt
  handle_verdict (some true) tx st spending_input_idx height timestamp params =
      ignore_duplicate (process_unbonding_tx si tx (si.codec.tx_hash st.tx) height timestamp params)
  handle_verdict (some false) tx st spending_input_idx height timestamp params = do
    valid ← lift (
        pass_invalid_withdrawal
          (validate_withdrawal_tx_from_staking si tx st spending_input_idx params))
    withdraw_if valid (si.codec.tx_hash st.tx)

  unfoldable pub handle_spending_staking_transaction :
      MsgTx → StoredStakingTransaction → ℕ → ℕ → ℤ → Exec si (Unit {0})
  unfolding handle_verdict
  handle_spending_staking_transaction tx st spending_input_idx height timestamp = do
    params ← lift (get_versioned_params si st.inclusion_height)
    verdict ← lift (pass_invalid_unbonding (is_valid_unbonding_tx si tx st params))
    handle_verdict verdict tx st spending_input_idx height timestamp params

  -- Step 1: a parse error means that it is no staking transaction.
  unfoldable pub try_staking : Result ParsedStakingTx → MsgTx → ℕ → ℤ → Params → Exec si (Unit {0})
  try_staking (ok staking_data) tx height timestamp params =
      process_staking_tx si tx staking_data height timestamp params
  try_staking (err e) tx height timestamp params = pure tt
  try_staking panic tx height timestamp params = lift panic

  -- The body of the loop over the transactions of a block.
  unfoldable pub handle_tx : MsgTx → ℕ → ℤ → Params → Exec si (Unit {0})
  unfolding try_staking
  handle_tx tx height timestamp params = do
    try_staking (try_parse_staking_tx si tx params) tx height timestamp params
    staking_txs ← reads (λ db. ok (get_spent_staking_txs si tx db))
    for_each staking_txs (λ s. handle_spending_staking_transaction tx s.0 s.1 height timestamp)
    unbonding_txs ← reads (λ db. ok (get_spent_unbonding_txs si tx db))
    for_each unbonding_txs (λ u. handle_spending_unbonding_transaction tx u.0 u.1)

  -- The confirmed info event, if extra events are enabled.
  unfoldable pub emit_confirmed_info : ℕ → Exec si (Unit {0})
  emit_confirmed_info height = if not si.extra_event_enabled then pure tt else do
    confirmed_tvl ← reads si.store.get_confirmed_tvl
    push_event (confirmed_info height confirmed_tvl)

  unfoldable pub handle_confirmed_block : IndexedBlock → Exec si (Unit {0})
  unfolding for_each handle_tx emit_confirmed_info
  handle_confirmed_block b = do
    params ← lift (get_versioned_params si (to_u64 b.height))
    for_each b.txs (λ t. handle_tx t.msg_tx (to_u64 b.height) b.header.timestamp params)
    writes (si.store.save_last_processed_height (to_u64 b.height))
    emit_confirmed_info (to_u64 b.height)

  -- The confirmed part of one update of `blocksEventLoop`: an error is fatal, so the rest of the
  -- blocks is not handled.
  unfoldable pub handle_confirmed_blocks : List IndexedBlock → Exec si (Unit {0})
  handle_confirmed_blocks blocks = for_each blocks handle_confirmed_block
