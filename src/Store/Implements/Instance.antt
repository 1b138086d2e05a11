-- ===== src/Store/Implements/Instance.antt =====
-- The operations of the store over kvdb, as the interface's.
use staking_indexer.Kvdb.{Kvdb}
use staking_indexer.Wire.{Codec}
use staking_indexer.Store.Record.{Proto}
use staking_indexer.Store.Tvl.{get_confirmed_tvl}
use staking_indexer.Store.Height.{save_last_processed_height, get_last_processed_height}
use staking_indexer.Store.Staking.{add_staking_transaction, get_staking_transaction}
use staking_indexer.Store.Unbonding.{add_unbonding_transaction, get_unbonding_transaction}
use staking_indexer.Store.Interface.{IndexerStore}

abbrev pub kv_store : Kvdb → Codec → Proto → IndexerStore
kv_store kv c p = record {
  Db = kv.State;
  add_staking_transaction = add_staking_transaction kv c p;
  get_staking_transaction = get_staking_transaction kv c p;
  add_unbonding_transaction = add_unbonding_transaction kv c p;
  get_unbonding_transaction = get_unbonding_transaction kv c p;
  get_confirmed_tvl = get_confirmed_tvl kv;
  save_last_processed_height = save_last_processed_height kv;
  get_last_processed_height = get_last_processed_height kv;
}
