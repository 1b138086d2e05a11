-- ===== src/Store/Reads.antt =====
-- What each read of the store depends on.
use staking_indexer.Prelude.{true, ◌≡◌}
use staking_indexer.Wire.{Hash, Codec}
use staking_indexer.Kvdb.{Kvdb, KvdbLaws}
use staking_indexer.Store.Record.{Proto}
use staking_indexer.Store.Buckets.{
  staking_tx_bucket_name, unbonding_tx_bucket_name, indexer_state_bucket_name,
  confirmed_tvl_bucket_name, confirmed_tvl_key, last_processed_height_key,
}
use staking_indexer.Store.Tvl.{get_confirmed_tvl, stored_tvl}
use staking_indexer.Store.Height.{get_last_processed_height}
use staking_indexer.Store.Staking.{get_staking_transaction, get_staking_body}
use staking_indexer.Store.Unbonding.{get_unbonding_transaction, get_unbonding_body}

module _ {kv : Kvdb} (laws : KvdbLaws kv) where
  pub get_confirmed_tvl-cong :
      (s t : kv.State)
      → kv.has confirmed_tvl_bucket_name t ≡ kv.has confirmed_tvl_bucket_name s
      → kv.get confirmed_tvl_bucket_name confirmed_tvl_key t
        ≡ kv.get confirmed_tvl_bucket_name confirmed_tvl_key s
      → get_confirmed_tvl kv t ≡ get_confirmed_tvl kv s
  unfolding get_confirmed_tvl
  get_confirmed_tvl-cong s t h g = simp (laws.view_lem, h, g)

  pub get_confirmed_tvl-open :
      (s : kv.State)
      → kv.has confirmed_tvl_bucket_name s ≡ true
      → get_confirmed_tvl kv s ≡ stored_tvl (kv.get confirmed_tvl_bucket_name confirmed_tvl_key s)
  unfolding get_confirmed_tvl
  get_confirmed_tvl-open s h = simp (laws.view_lem, h)

  pub get_last_processed_height-cong :
      (s t : kv.State)
      → kv.has indexer_state_bucket_name t ≡ kv.has indexer_state_bucket_name s
      → kv.get indexer_state_bucket_name last_processed_height_key t
        ≡ kv.get indexer_state_bucket_name last_processed_height_key s
      → get_last_processed_height kv t ≡ get_last_processed_height kv s
  unfolding get_last_processed_height
  get_last_processed_height-cong s t h g = simp (laws.view_lem, h, g)

  module _ (c : Codec) (p : Proto) where
    pub get_staking_transaction-cong :
        (k : Hash) (s t : kv.State)
        → kv.has staking_tx_bucket_name t ≡ kv.has staking_tx_bucket_name s
        → kv.get staking_tx_bucket_name k t ≡ kv.get staking_tx_bucket_name k s
        → get_staking_transaction kv c p k t ≡ get_staking_transaction kv c p k s
    unfolding get_staking_transaction get_staking_body
    get_staking_transaction-cong k s t h g = simp (laws.view_lem, h, g)

    pub get_unbonding_transaction-cong :
        (k : Hash) (s t : kv.State)
        → kv.has unbonding_tx_bucket_name t ≡ kv.has unbonding_tx_bucket_name s
        → kv.get unbonding_tx_bucket_name k t ≡ kv.get unbonding_tx_bucket_name k s
        → get_unbonding_transaction kv c p k t ≡ get_unbonding_transaction kv c p k s
    unfolding get_unbonding_transaction get_unbonding_body
    get_unbonding_transaction-cong k s t h g = simp (laws.view_lem, h, g)
