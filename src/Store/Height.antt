-- ===== src/Store/Height.antt =====
-- The last processed height: `SaveLastProcessedHeight`, `GetLastProcessedHeight`.
use staking_indexer.Prelude.{ℕ, Bytes, Option, none, some}
use staking_indexer.Prelude.Result.{
  Result, err, ◌>>◌, guard, corrupted_state_db, last_processed_height_not_found,
}
use staking_indexer.Kvdb.{Kvdb}
use staking_indexer.Store.Word.{uint64_to_bytes, uint64_from_bytes}
use staking_indexer.Store.Buckets.{indexer_state_bucket_name, last_processed_height_key}

unfoldable pub required_height : Option Bytes → Result ℕ
required_height none = err last_processed_height_not_found
required_height (some b) = uint64_from_bytes b

module _ (kv : Kvdb) where
  unfoldable pub save_last_processed_height : ℕ → kv.State → Result (Unit {0}) × kv.State
  save_last_processed_height height = kv.batch λ s. do
    guard (kv.has indexer_state_bucket_name s) corrupted_state_db
    kv.put indexer_state_bucket_name last_processed_height_key (uint64_to_bytes height) s

  unfoldable pub get_last_processed_height : kv.State → Result ℕ
  unfolding required_height
  get_last_processed_height = kv.view λ s. do
    guard (kv.has indexer_state_bucket_name s) corrupted_state_db
    required_height (kv.get indexer_state_bucket_name last_processed_height_key s)
