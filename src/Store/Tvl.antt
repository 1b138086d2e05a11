-- ===== src/Store/Tvl.antt =====
-- The confirmed TVL: `incrementConfirmedTvl`, `subtractConfirmedTvl`, `GetConfirmedTvl`.
pub mod Effect
use staking_indexer.Prelude.{ℕ, ◌+◌, ◌-◌, ◌%◌, not, Bytes, Option, none, some, ltb, u64_mod}
use staking_indexer.Prelude.Result.{
  Result, ok, err, ◌>>=◌, ◌>>◌, guard, corrupted_state_db, negative_tvl,
}
use staking_indexer.Kvdb.{Kvdb}
use staking_indexer.Store.Word.{uint64_to_bytes, uint64_from_bytes}
use staking_indexer.Store.Buckets.{confirmed_tvl_bucket_name, confirmed_tvl_key}

-- The value that `incrementConfirmedTvl` starts from: 0 where none is stored.
unfoldable pub stored_tvl : Option Bytes → Result ℕ
stored_tvl none = ok 0
stored_tvl (some b) = uint64_from_bytes b

-- A missing value is an error here.
unfoldable pub required_tvl : Option Bytes → Result ℕ
required_tvl none = err corrupted_state_db
required_tvl (some b) = uint64_from_bytes b

module _ (kv : Kvdb) where
  unfoldable pub increment_confirmed_tvl : ℕ → kv.State → Result kv.State
  unfolding stored_tvl
  increment_confirmed_tvl tvl_increment s = do
    guard (kv.has confirmed_tvl_bucket_name s) corrupted_state_db
    confirmed_tvl ← stored_tvl (kv.get confirmed_tvl_bucket_name confirmed_tvl_key s)
    let new_tvl = (confirmed_tvl + tvl_increment) % u64_mod
    kv.put confirmed_tvl_bucket_name confirmed_tvl_key (uint64_to_bytes new_tvl) s

  unfoldable pub subtract_confirmed_tvl : ℕ → kv.State → Result kv.State
  unfolding required_tvl
  subtract_confirmed_tvl tvl_subtract s = do
    guard (kv.has confirmed_tvl_bucket_name s) corrupted_state_db
    confirmed_tvl ← required_tvl (kv.get confirmed_tvl_bucket_name confirmed_tvl_key s)
    guard (not (ltb confirmed_tvl tvl_subtract)) negative_tvl
    kv.put confirmed_tvl_bucket_name confirmed_tvl_key
        (uint64_to_bytes (confirmed_tvl - tvl_subtract)) s

  unfoldable pub get_confirmed_tvl : kv.State → Result ℕ
  unfolding stored_tvl
  get_confirmed_tvl = kv.view λ s. do
    guard (kv.has confirmed_tvl_bucket_name s) corrupted_state_db
    stored_tvl (kv.get confirmed_tvl_bucket_name confirmed_tvl_key s)
