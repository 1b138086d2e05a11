-- ===== src/Tests/Scanning.antt =====
-- The scanner's theorems on a client that serves a chain of blocks up to the height 104.
use staking_indexer.Prelude.{
  ℕ, ◌+◌, ◌-◌, ◌<◌, ◌≤◌, pos, some, none, List, [], ◌∷◌, ◌++◌, ◌≡◌, refl, arith, length, drop,
  bytes_eq,
}
use staking_indexer.Prelude.Result.{ok}
use staking_indexer.Wire.Blocks.{IndexedBlock}
use staking_indexer.Scanner.Cache.{
  BtcCache, add, tip, trim_confirmed_blocks, get_last_blocks, remove_all,
}
use staking_indexer.Scanner.Cache.Bounds.{IsBounded, add-IsBounded, trim_confirmed_blocks_lem}
use staking_indexer.Scanner.Poller.{
  BtcPoller, Client, bootstrap, bootstrap_loop, bootstrap_block, commit_batch, commit_chain_update,
  commit_rest, advance_tip, send, get_unconfirmed_blocks, on_cache, lift, done, ◌>>=◌,
}
use staking_indexer.Scanner.Poller.Commits.{confirmed_stream}
use staking_indexer.Scanner.Poller.Complete.{Fetched, bootstrap_complete}
use staking_indexer.Tests.Codec.{sample_codec, padding}

-- The block of a height, whose hash begins with it.
abbrev chain_block : ℕ → IndexedBlock
chain_block h = record {
  height = pos h;
  header = record {
    version = pos 1;
    prev_block = (h - 1) ∷ padding;
    merkle_root = [];
    timestamp = pos 0;
    bits = 0;
    nonce = h;
  };
  txs = [];
}

abbrev full_cache : BtcCache
full_cache = record { blocks = chain_block 100 ∷ chain_block 101 ∷ []; max_entries = 2 }

add-IsBounded_example :
    (n : ℕ) × (add (chain_block 102) full_cache
      ≡ (ok tt, record full_cache { blocks = drop n full_cache.blocks ++ chain_block 102 ∷ [] }))
    × IsBounded (add (chain_block 102) full_cache).1
    × (tip (add (chain_block 102) full_cache).1 ≡ some (chain_block 102))
    × (length full_cache.blocks < full_cache.max_entries → n ≡ 0)
    × (length full_cache.blocks ≡ full_cache.max_entries → n ≡ 1)
add-IsBounded_example = add-IsBounded (chain_block 102) full_cache (omega arith, omega arith)

trim_confirmed_blocks_lem_example :
    (res : List IndexedBlock) × (rest : List IndexedBlock) × (trim_confirmed_blocks
        (pos 1)
        full_cache
      ≡ (ok res, record full_cache { blocks = rest }))
    × (res ++ rest ≡ full_cache.blocks)
    × (length rest ≤ 1)
    × (1 ≤ length full_cache.blocks → length rest ≡ 1)
trim_confirmed_blocks_lem_example = trim_confirmed_blocks_lem 1 full_cache

abbrev chain_client : Client
chain_client = record { get_tip_height = ok 104; get_block_by_height = λ h. ok (chain_block h) }

abbrev new_poller : BtcPoller
new_poller = record {
  unconfirmed_block_cache = record { blocks = []; max_entries = 100 };
  confirmation_depth = 3;
  confirmed_tip_block = none;
  sent = [];
}

abbrev synced : BtcPoller
synced = (bootstrap sample_codec chain_client 100 new_poller).1

bootstrap-synced : bootstrap sample_codec chain_client 100 new_poller ≡ (ok tt, synced)
unfolding bootstrap bootstrap_loop bootstrap_block commit_batch commit_chain_update commit_rest
    advance_tip send get_unconfirmed_blocks on_cache lift done ◌>>=◌ add tip trim_confirmed_blocks
    get_last_blocks remove_all bytes_eq
bootstrap-synced = refl

bootstrap_complete_example :
    (tip_height : ℕ) × (bs : List IndexedBlock) × (chain_client.get_tip_height ≡ ok tip_height)
    × (100 ≤ tip_height)
    × Fetched chain_client (tip_height + 1 - 100) 100 bs
    × (confirmed_stream synced.sent ++ synced.unconfirmed_block_cache.blocks
        ≡ confirmed_stream new_poller.sent ++ bs)
    × (length synced.unconfirmed_block_cache.blocks ≤ 2)
bootstrap_complete_example =
    bootstrap_complete sample_codec chain_client 2 100 new_poller synced refl (omega arith)
      bootstrap-synced
