-- ===== src/BtcClient/Retried.antt =====
-- A call that is retried succeeds if the node answers in time.
use staking_indexer.Prelude.{ℕ, ◌<◌, ◌^◌, pos, to_i64, to_u64, ◌≡◌, refl, ap, arith, ◌%◌, u64_mod}
use staking_indexer.Prelude.Result.{ok}
use staking_indexer.Wire.{Hash, MsgBlock}
use staking_indexer.Wire.Blocks.{new_indexed_block, new_indexed_block_from_msg_block}
use staking_indexer.BtcClient.{
  BtcClient, RetryLaws, Answers, to_i32, get_tip_height, get_block_hash_by_height,
  get_block_by_height,
}

to_i32_id : (n : ℕ) → n < 2 ^ 31 → to_i32 n ≡ pos n
unfolding to_i32
to_i32_id n h = ground arith

to_i64_id : (n : ℕ) → n < 2 ^ 63 → to_i64 n ≡ pos n
unfolding to_i64
to_i64_id n h = ground arith

mod_id : (n : ℕ) → n < 2 ^ 63 → n % u64_mod ≡ n
mod_id n h = ground arith

module _ (c : BtcClient) where
  -- The node answers for the height with the hash of the block, and for the hash with the block.
  pub record Has (height : ℕ) (b : MsgBlock) : Type 0 where
    pub hash : Hash
    pub hashed : Answers c.max_retry_times (c.client.get_block_hash (pos height)) hash
    pub got : Answers c.max_retry_times (c.client.get_block hash) b

module _ (c : BtcClient) (laws : RetryLaws c.retry) where
  -- The block comes back with its height and all its transactions, whatever attempts failed before.
  pub get_block_by_height-Has :
      (height : ℕ) (b : MsgBlock)
      → height < 2 ^ 31
      → Has c height b
      → get_block_by_height c height ≡ ok (new_indexed_block_from_msg_block (pos height) b)
  unfolding get_block_by_height get_block_hash_by_height new_indexed_block
      new_indexed_block_from_msg_block
  get_block_by_height-Has height b low h =
      rw
        (
          to_i64_id height (omega (arith, low)),
          laws.first_success _ _ _ h.hashed,
          laws.first_success _ _ _ h.got,
          to_i32_id height low,
        )
        refl

  pub get_tip_height-Answers :
      (count : ℕ)
      → count < 2 ^ 63
      → Answers c.max_retry_times c.client.get_block_count (pos count)
      → get_tip_height c ≡ ok count
  unfolding get_tip_height to_u64
  get_tip_height-Answers count low h = rw (laws.first_success _ _ _ h) (ap ok (mod_id count low))
