-- ===== src/BtcClient.antt =====
-- btcclient/client.go: the calls of a Bitcoin node's RPC interface, each retried by the retry-go
-- library, which is a parameter with the laws that it documents.
pub mod Retried
pub mod Bootstraps
pub mod Headers
use staking_indexer.Prelude.{
  ℕ, suc, ◌%◌, ◌^◌, ◌-◌, ℤ, pos, negsuc, to_u64, to_i64, ◌<◌, ltb, if◌then◌else◌, ◌≡◌,
}
use staking_indexer.Prelude.Result.{Error, Result, ok, err, ◌>>=◌}
use staking_indexer.Wire.{Hash, BlockHeader, MsgBlock}
use staking_indexer.Wire.Blocks.{IndexedBlock, new_indexed_block, get_wrapped_txs}
use staking_indexer.Scanner.Poller.{Client}

-- The attempt fails with an error.
abbrev pub IsFailed : {A : Type 0} → Result A → Type 0
IsFailed r = (e : Error) × (r ≡ err e)

-- The call succeeds at one of `attempts` attempts, and the attempts before it fail.
pub record Answers {A : Type 0} (attempts : ℕ) (call : ℕ → Result A) (a : A) : Type 0 where
  pub attempt : ℕ
  pub in_time : attempt < attempts
  pub answer : call attempt ≡ ok a
  pub before : (m : ℕ) → m < attempt → IsFailed (call m)

-- `retry.DoWithData` with `Attempts` and `LastErrorOnly`. A call is the sequence of the results of
-- its attempts.
pub record Retry : Type 1 where
  pub do_with_data : {A : Type 0} → ℕ → (ℕ → Result A) → Result A

-- The first success is returned, and the last error if there is none.
pub record RetryLaws (r : Retry) : Type 1 where
  pub first_success :
      {A : Type 0} (attempts : ℕ) (call : ℕ → Result A) (a : A)
      → Answers attempts call a
      → r.do_with_data attempts call ≡ ok a
  pub last_error :
      {A : Type 0} (attempts : ℕ) (call : ℕ → Result A) (e : Error)
      → ((m : ℕ) → m < suc attempts → IsFailed (call m))
      → call attempts ≡ err e
      → r.do_with_data (suc attempts) call ≡ err e

-- `rpcclient.Client`: what the node answers at each attempt.
pub record Rpc : Type 0 where
  pub get_block_count : ℕ → Result ℤ
  pub get_block_hash : ℤ → ℕ → Result Hash
  pub get_block : Hash → ℕ → Result MsgBlock
  pub get_block_header : Hash → ℕ → Result BlockHeader

-- `int32(v)` of a `uint64`.
unfoldable pub to_i32 : ℕ → ℤ
to_i32 n = if ltb (n % 2 ^ 32) (2 ^ 31) then pos (n % 2 ^ 32) else negsuc (2 ^ 32 - 1 - n % 2 ^ 32)

pub record BtcClient : Type 1 where
  pub retry : Retry
  pub client : Rpc
  pub max_retry_times : ℕ

module _ (c : BtcClient) where
  abbrev pub client_call_with_retry : {A : Type 0} → (ℕ → Result A) → Result A
  client_call_with_retry call = c.retry.do_with_data c.max_retry_times call

  unfoldable pub get_tip_height : Result ℕ
  get_tip_height = do count ← client_call_with_retry c.client.get_block_count; ok (to_u64 count)

  unfoldable pub get_block_hash_by_height : ℕ → Result Hash
  get_block_hash_by_height height = client_call_with_retry (c.client.get_block_hash (to_i64 height))

  unfoldable pub get_block_by_height : ℕ → Result IndexedBlock
  unfolding get_block_hash_by_height
  get_block_by_height height = do
    block_hash ← get_block_hash_by_height height
    block ← client_call_with_retry (c.client.get_block block_hash)
    ok (new_indexed_block (to_i32 height) block.header (get_wrapped_txs block))

  unfoldable pub get_block_header_by_height : ℕ → Result BlockHeader
  unfolding get_block_hash_by_height
  get_block_header_by_height height = do
    block_hash ← get_block_hash_by_height height
    client_call_with_retry (c.client.get_block_header block_hash)

  -- The client that the scanner uses.
  unfoldable pub scanner_client : Client
  scanner_client = record {
    get_tip_height = get_tip_height;
    get_block_by_height = get_block_by_height;
  }
