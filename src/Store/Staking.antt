-- ===== src/Store/Staking.antt =====
-- Staking transactions: `AddStakingTransaction`, `GetStakingTransaction`, `TxExists`.
pub mod Effect
use staking_indexer.Prelude.{Bool, true, false, Bytes, Option, none, some, if◌then◌else◌}
use staking_indexer.Prelude.Result.{
  Result, ok, err, panic, ◌>>=◌, ◌>>◌, guard, corrupted_transactions_db, duplicate_transaction,
  transaction_not_found,
}
use staking_indexer.Wire.{Hash, Codec}
use staking_indexer.Kvdb.{Kvdb}
use staking_indexer.Store.Record.{
  StoredStakingTransaction, StakingMessage, Proto, staking_message,
  proto_staking_tx_to_stored_staking_tx,
}
use staking_indexer.Store.Buckets.{
  staking_tx_bucket_name, unbonding_tx_bucket_name, or_corrupted, absent_as_nil, must_be_absent,
  must_be_present,
}
use staking_indexer.Store.Tvl.{increment_confirmed_tvl}

module _ (kv : Kvdb) (p : Proto) where
  -- The function of the batch of `addStakingTransaction`.
  unfoldable pub add_staking_body : Bytes → StakingMessage → kv.State → Result kv.State
  add_staking_body tx_hash_bytes st s = do
    guard (kv.has staking_tx_bucket_name s) corrupted_transactions_db
    must_be_absent (kv.get staking_tx_bucket_name tx_hash_bytes s) duplicate_transaction
    marshalled ← p.marshal_staking st
    s1 ← kv.put staking_tx_bucket_name tx_hash_bytes marshalled s
    if st.is_overflow then ok s1 else increment_confirmed_tvl kv st.staking_value s1

  unfoldable pub add_staking_message :
      Bytes → StakingMessage → kv.State → Result (Unit {0}) × kv.State
  add_staking_message tx_hash_bytes st = kv.batch (add_staking_body tx_hash_bytes st)

module _ (kv : Kvdb) (c : Codec) (p : Proto) where
  -- The arguments of the method are the fields of the record.
  unfoldable pub add_staking_transaction :
      StoredStakingTransaction → kv.State → Result (Unit {0}) × kv.State
  add_staking_transaction st s = elim (c.serialize st.tx) [
    | ok serialized_tx ↦
        add_staking_message kv p (c.tx_hash st.tx) (staking_message c st serialized_tx) s
    | err e ↦ (err e, s)
    | panic ↦ (panic, s)
  ]

  -- The function of the view of `GetStakingTransaction`.
  unfoldable pub get_staking_body : Hash → kv.State → Result StoredStakingTransaction
  get_staking_body tx_hash s = do
    guard (kv.has staking_tx_bucket_name s) corrupted_transactions_db
    maybe_tx ← must_be_present (kv.get staking_tx_bucket_name tx_hash s) transaction_not_found
    stored_tx_proto ← or_corrupted (p.unmarshal_staking maybe_tx)
    proto_staking_tx_to_stored_staking_tx c stored_tx_proto

  unfoldable pub get_staking_transaction :
      Hash → kv.State → Result (Option StoredStakingTransaction)
  get_staking_transaction tx_hash s = absent_as_nil (kv.view (get_staking_body tx_hash) s)

  abbrev present : Option Bytes → Bool
  present none = false
  present (some b) = true

  -- The two buckets are looked up in turn; a hit in the first returns before the second is opened.
  unfoldable pub tx_exists : Hash → kv.State → Result Bool
  tx_exists tx_hash = kv.view λ s. do
    guard (kv.has staking_tx_bucket_name s) corrupted_transactions_db
    if present (kv.get staking_tx_bucket_name tx_hash s) then ok true else do
      guard (kv.has unbonding_tx_bucket_name s) corrupted_transactions_db
      ok (present (kv.get unbonding_tx_bucket_name tx_hash s))
