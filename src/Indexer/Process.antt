-- ===== src/Indexer/Process.antt =====
-- `ProcessStakingTx`, `addStakingTransaction`, `ProcessUnbondingTx` and `processWithdrawTx` of
-- indexer/indexer.go. Every event is pushed before the record is saved.
pub mod Decided
pub mod Replay
use staking_indexer.Prelude.{ℕ, ◌%◌, ◌^◌, ℤ, to_u64, Bool, Bytes, Option, none, some}
use staking_indexer.Prelude.Result
use staking_indexer.Prelude.Result.{Result, ok, err, panic, duplicate_transaction}
use staking_indexer.Wire.{Hash, MsgTx}
use staking_indexer.Store.Record.{StoredStakingTransaction}
use staking_indexer.Indexer.Types.{
  StakingIndexer, Event, Params, ParsedStakingTx, active_staking, unbonding_staking,
  withdraw_staking,
}
use staking_indexer.Indexer.Exec.{Exec, pure, lift, reads, writes, ◌>>=◌, ◌>>◌, push_event}
use staking_indexer.Indexer.Hex.{hex_encode}
use staking_indexer.Indexer.Staking.{validate_staking_tx, is_overflow}

-- `err != nil && !errors.Is(err, ErrDuplicateTransaction)`
abbrev pub unless_duplicate : Result (Unit {0}) → Result (Unit {0})
unless_duplicate (ok a) = ok a
unless_duplicate (err duplicate_transaction) = ok tt
unless_duplicate (err e) = err e
unless_duplicate panic = panic

module _ (si : StakingIndexer) where
  unfoldable pub get_tx_hex : MsgTx → Result Bytes
  get_tx_hex tx = elim (si.codec.serialize tx) [
    | ok b ↦ ok (hex_encode b)
    | err e ↦ err e
    | panic ↦ panic
  ]

  unfoldable pub staking_event : StoredStakingTransaction → ℤ → Bytes → Event
  staking_event st timestamp tx_hex = active_staking (record {
    staking_tx_hash_hex = si.codec.hash_string (si.codec.tx_hash st.tx);
    staker_pk_hex = hex_encode (si.codec.serialize_pub_key st.staker_pk);
    finality_provider_pk_hex = hex_encode (si.codec.serialize_pub_key st.finality_provider_pk);
    staking_value = st.staking_value;
    staking_start_height = st.inclusion_height;
    staking_start_timestamp = timestamp;
    staking_time_lock = st.staking_time;
    staking_output_index = st.staking_output_idx;
    staking_tx_hex = tx_hex;
    is_overflow = st.is_overflow;
  })

  -- A write of the store that may find its record there already.
  unfoldable pub save : (si.store.Db → Result (Unit {0}) × si.store.Db) → Exec si (Unit {0})
  save op = writes λ db. let (r, db') = op db in (unless_duplicate r, db')

  -- The arguments of the method are the fields of the record, and the timestamp.
  unfoldable pub add_staking_transaction : StoredStakingTransaction → ℤ → Exec si (Unit {0})
  unfolding get_tx_hex staking_event save
  add_staking_transaction st timestamp = do
    tx_hex ← lift (get_tx_hex st.tx)
    push_event (staking_event st timestamp tx_hex)
    save (si.store.add_staking_transaction st)

  -- The flag of the transaction, from its record or from the TVL; `none` where it is not valid.
  unfoldable pub decide_overflow :
      Option StoredStakingTransaction
      → ParsedStakingTx
      → ℕ
      → Params
      → si.store.Db
      → Result (Option Bool)
  decide_overflow (some st) staking_data height params db = ok (some st.is_overflow)
  decide_overflow none staking_data height params db =
      elim (validate_staking_tx params staking_data) [
        | ok u ↦ elim (is_overflow height params (si.store.get_confirmed_tvl db)) [
          | ok o ↦ ok (some o)
          | err e ↦ err e
          | panic ↦ panic
        ]
        | err e ↦ ok none
        | panic ↦ panic
      ]

  -- The record that is saved: `uint64`, `uint32` of the parsed values.
  unfoldable pub stored_staking_tx : MsgTx → ParsedStakingTx → ℕ → Bool → StoredStakingTransaction
  stored_staking_tx tx staking_data height overflow = record {
    tx = tx;
    staking_output_idx = staking_data.staking_output_idx % 2 ^ 32;
    inclusion_height = height;
    staker_pk = staking_data.staker_public_key;
    staking_time = staking_data.staking_time % 2 ^ 32;
    finality_provider_pk = staking_data.finality_provider_public_key;
    is_overflow = overflow;
    staking_value = to_u64 staking_data.staking_output.value;
  }

  unfoldable pub add_decided : MsgTx → ParsedStakingTx → ℕ → ℤ → Option Bool → Exec si (Unit {0})
  add_decided tx staking_data height timestamp none = pure tt
  add_decided tx staking_data height timestamp (some overflow) =
      add_staking_transaction (stored_staking_tx tx staking_data height overflow) timestamp

  unfoldable pub process_staking_tx : MsgTx → ParsedStakingTx → ℕ → ℤ → Params → Exec si (Unit {0})
  unfolding decide_overflow add_decided
  process_staking_tx tx staking_data height timestamp params = do
    stored ← reads (si.store.get_staking_transaction (si.codec.tx_hash tx))
    decided ← reads (decide_overflow stored staking_data height params)
    add_decided tx staking_data height timestamp decided

  unfoldable pub unbonding_event : MsgTx → Hash → ℕ → ℤ → Params → Bytes → Event
  unbonding_event tx staking_tx_hash height timestamp params tx_hex = unbonding_staking (record {
    staking_tx_hash_hex = si.codec.hash_string staking_tx_hash;
    unbonding_start_height = height;
    unbonding_start_timestamp = timestamp;
    unbonding_time_lock = params.unbonding_time;
    unbonding_output_index = 0;
    unbonding_tx_hex = tx_hex;
    unbonding_tx_hash_hex = si.codec.hash_string (si.codec.tx_hash tx);
  })

  unfoldable pub process_unbonding_tx : MsgTx → Hash → ℕ → ℤ → Params → Exec si (Unit {0})
  unfolding get_tx_hex unbonding_event save
  process_unbonding_tx tx staking_tx_hash height timestamp params = do
    tx_hex ← lift (get_tx_hex tx)
    push_event (unbonding_event tx staking_tx_hash height timestamp params tx_hex)
    save (si.store.add_unbonding_transaction tx staking_tx_hash)

  -- The hash of the unbonding transaction and the height are for the log and the metrics only.
  unfoldable pub process_withdraw_tx : Hash → Exec si (Unit {0})
  process_withdraw_tx staking_tx_hash =
      push_event (withdraw_staking (si.codec.hash_string staking_tx_hash))
