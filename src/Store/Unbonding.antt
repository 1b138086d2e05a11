-- ===== src/Store/Unbonding.antt =====
-- Unbonding transactions: `AddUnbondingTransaction`, `GetUnbondingTransaction`.
pub mod Effect
use staking_indexer.Prelude.{Bytes, Option, if◌then◌else◌}
use staking_indexer.Prelude.Result.{
  Result, ok, err, panic, ◌>>=◌, ◌>>◌, guard, corrupted_transactions_db, duplicate_transaction,
  transaction_not_found,
}
use staking_indexer.Wire.{Hash, MsgTx, Codec}
use staking_indexer.Kvdb.{Kvdb}
use staking_indexer.Store.Record.{
  StoredUnbondingTransaction, UnbondingMessage, Proto, proto_unbonding_tx_to_stored_unbonding_tx,
}
use staking_indexer.Store.Buckets.{
  staking_tx_bucket_name, unbonding_tx_bucket_name, or_corrupted, absent_as_nil, must_be_absent,
  must_be_present,
}
use staking_indexer.Store.Tvl.{subtract_confirmed_tvl}

module _ (kv : Kvdb) (p : Proto) where
  -- The function of the batch of `addUnbondingTransaction`.
  unfoldable pub add_unbonding_body : Bytes → Bytes → UnbondingMessage → kv.State → Result kv.State
  add_unbonding_body tx_hash_bytes staking_hash_bytes ut s = do
    guard (kv.has staking_tx_bucket_name s) corrupted_transactions_db
    maybe_staking_tx ←
        must_be_present (kv.get staking_tx_bucket_name staking_hash_bytes s) transaction_not_found
    stored_tx_proto ← or_corrupted (p.unmarshal_staking maybe_staking_tx)
    guard (kv.has unbonding_tx_bucket_name s) corrupted_transactions_db
    must_be_absent (kv.get unbonding_tx_bucket_name tx_hash_bytes s) duplicate_transaction
    marshalled ← p.marshal_unbonding ut
    s1 ← kv.put unbonding_tx_bucket_name tx_hash_bytes marshalled s
    if stored_tx_proto.is_overflow
        then ok s1
        else subtract_confirmed_tvl kv stored_tx_proto.staking_value s1

  unfoldable pub add_unbonding_message :
      Bytes → Bytes → UnbondingMessage → kv.State → Result (Unit {0}) × kv.State
  add_unbonding_message tx_hash_bytes staking_hash_bytes ut =
      kv.batch (add_unbonding_body tx_hash_bytes staking_hash_bytes ut)

module _ (kv : Kvdb) (c : Codec) (p : Proto) where
  unfoldable pub add_unbonding_transaction : MsgTx → Hash → kv.State → Result (Unit {0}) × kv.State
  add_unbonding_transaction tx staking_tx_hash s = elim (c.serialize tx) [
    | ok serialized_tx ↦
        add_unbonding_message kv p (c.tx_hash tx) staking_tx_hash
          (record { transaction_bytes = serialized_tx; staking_tx_hash = staking_tx_hash }) s
    | err e ↦ (err e, s)
    | panic ↦ (panic, s)
  ]

  -- The function of the view of `GetUnbondingTransaction`.
  unfoldable pub get_unbonding_body : Hash → kv.State → Result StoredUnbondingTransaction
  get_unbonding_body tx_hash s = do
    guard (kv.has unbonding_tx_bucket_name s) corrupted_transactions_db
    maybe_tx ← must_be_present (kv.get unbonding_tx_bucket_name tx_hash s) transaction_not_found
    stored_tx_proto ← or_corrupted (p.unmarshal_unbonding maybe_tx)
    proto_unbonding_tx_to_stored_unbonding_tx c stored_tx_proto

  unfoldable pub get_unbonding_transaction :
      Hash → kv.State → Result (Option StoredUnbondingTransaction)
  get_unbonding_transaction tx_hash s = absent_as_nil (kv.view (get_unbonding_body tx_hash) s)
