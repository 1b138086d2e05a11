-- ===== src/Tests/Lifecycle.antt =====
-- The theorems on the life of the scanner and on a restart of the indexer: a client that serves a
-- chain of blocks, where a block's hash is its number in front of the hash of its parent.
use staking_indexer.Prelude.{
  ℕ, zero, suc, ◌-◌, ◌≤◌, to_u64, pos, false, none, some, List, [], ◌∷◌, ◌++◌, All, ◌≡◌, ◌⊎◌, ◌↔◌,
  ◌≤ℤ◌, ◌+ℤ◌, refl, arith, bytes_eq,
}
use staking_indexer.Prelude.Result.{Error, Result, ok, err}
use staking_indexer.Wire.{Hash, Codec}
use staking_indexer.Wire.Blocks.{IndexedBlock}
use staking_indexer.Scanner.Cache.{new_btc_cache, add, tip, trim_confirmed_blocks, get_last_blocks}
use staking_indexer.Scanner.Poller.{
  BtcPoller, BlockEpoch, Client, bootstrap, handle_new_block, accept_block, commit_chain_update,
  advance_tip, send, get_unconfirmed_blocks, on_cache, lift, done, ◌>>=◌,
}
use staking_indexer.Scanner.Poller.Commits.{confirmed_stream}
use staking_indexer.Scanner.Chain.{Linked, last_from}
use staking_indexer.Scanner.Chain.Syncs.{bootstrap_succeeds}
use staking_indexer.Scanner.Chain.NewBlock.{HasJoined, handle_new_block_lem}
use staking_indexer.Scanner.EventLoop.{
  block_event_loop, Round, Scanner, new_btc_scanner, run, wait_until_activation,
}
use staking_indexer.Scanner.EventLoop.Linkage.{FixesParent, run-Linked}
use staking_indexer.Scanner.EventLoop.Extension.{IsNext, IsSynced, block_event_loop-AreNext}
use staking_indexer.Scanner.EventLoop.Activation.{IsBelow, wait_until_activation_iff}
use staking_indexer.Tests.Codec.{sample_codec}

abbrev pub linked_codec : Codec
linked_codec = record sample_codec { block_hash = λ h. h.nonce ∷ h.prev_block }

pub linked_codec-FixesParent : FixesParent linked_codec
linked_codec-FixesParent h h' e = cc

abbrev pub linked_hash : ℕ → Hash
linked_hash zero = []
linked_hash (suc n) = suc n ∷ linked_hash n

abbrev pub linked_block : ℕ → IndexedBlock
linked_block n = record {
  height = pos n;
  header = record {
    version = pos 1;
    prev_block = linked_hash (n - 1);
    merkle_root = [];
    timestamp = pos 0;
    bits = 0;
    nonce = n;
  };
  txs = [];
}

abbrev pub linked_client : ℕ → Client
linked_client tip_height = record {
  get_tip_height = ok tip_height;
  get_block_by_height = λ h. ok (linked_block h);
}

abbrev linked_epoch : ℕ → BlockEpoch
linked_epoch n = record {
  hash = linked_hash n;
  height = pos n;
  block_header = (linked_block n).header;
}

abbrev pub scanner_3 : Scanner
scanner_3 = record {
  poller = record {
    unconfirmed_block_cache = record { blocks = []; max_entries = 100 };
    confirmation_depth = 3;
    confirmed_tip_block = none;
    sent = [];
  };
  is_started = false;
}

pub scanner_3-new : new_btc_scanner 3 ≡ ok scanner_3
unfolding new_btc_scanner new_btc_cache
scanner_3-new = refl

abbrev pub rounds : List Round
rounds =
    record {
      block_epoch = linked_epoch 6;
      at_block = linked_client 6;
      at_bootstrap = linked_client 6;
    }
    ∷ record {
      block_epoch = linked_epoch 8;
      at_block = linked_client 8;
      at_bootstrap = linked_client 8;
    }
    ∷ []

abbrev after : BtcPoller
after = (run linked_codec 1 4 (ok 3 ∷ ok 5 ∷ []) (linked_client 5) rounds scanner_3).1.poller

run-Linked_example :
    Linked linked_codec (confirmed_stream after.sent)
    × (after.confirmed_tip_block ≡ last_from none (confirmed_stream after.sent))
run-Linked_example =
    run-Linked linked_codec 3 scanner_3 1 4 (ok 3 ∷ ok 5 ∷ []) (linked_client 5) rounds
      linked_codec-FixesParent (omega arith) (omega arith) scanner_3-new (refl, (refl, tt))

bootstrap_succeeds_example :
    (t : BtcPoller) × (bootstrap linked_codec (linked_client 5) 3 scanner_3.poller ≡ (ok tt, t))
bootstrap_succeeds_example =
    bootstrap_succeeds linked_codec 2 (linked_client 5) 3 5
      (linked_block 3 ∷ linked_block 4 ∷ linked_block 5 ∷ []) scanner_3.poller refl (omega arith)
      refl (omega arith)
      (
        linked_block 3,
        linked_block 4 ∷ linked_block 5 ∷ [],
        refl,
        refl,
        (linked_block 4, linked_block 5 ∷ [], refl, refl, (linked_block 5, [], refl, refl, refl)),
      )
      (tt, (refl, (refl, tt)))

abbrev synced_5 : BtcPoller
synced_5 = record scanner_3.poller {
  unconfirmed_block_cache = record {
    blocks = linked_block 4 ∷ linked_block 5 ∷ [];
    max_entries = 100;
  };
}

block_6-handled :
    (handle_new_block linked_codec (linked_client 6) (linked_epoch 6) synced_5).0 ≡ ok tt
unfolding handle_new_block accept_block commit_chain_update advance_tip send get_unconfirmed_blocks
    on_cache lift done ◌>>=◌ add tip trim_confirmed_blocks get_last_blocks bytes_eq to_u64 ◌+ℤ◌
block_6-handled = refl

handle_new_block_lem_example :
    ((t : IndexedBlock) × (tip synced_5.unconfirmed_block_cache ≡ some t)
      × (pos 6 ≤ℤ t.height)
      × (handle_new_block linked_codec (linked_client 6) (linked_epoch 6) synced_5
          ≡ (ok tt, synced_5)))
    ⊎ (((handle_new_block linked_codec (linked_client 6) (linked_epoch 6) synced_5).0 ≡ ok tt)
        × HasJoined linked_codec
            (linked_client 6)
            2
            (linked_epoch 6)
            synced_5
            (handle_new_block linked_codec (linked_client 6) (linked_epoch 6) synced_5).1)
    ⊎ ((x : Error) × (handle_new_block linked_codec (linked_client 6) (linked_epoch 6) synced_5
          ≡ (err x, synced_5)))
handle_new_block_lem_example =
    handle_new_block_lem linked_codec (linked_client 6) 2 (linked_epoch 6) synced_5
      (record { depth = refl; room = omega arith; few = omega arith })
      (λ p. cc (block_6-handled, p))

wait_until_activation_iff_example :
    ((wait_until_activation 4 (ok 3 ∷ ok 5 ∷ []) ≡ none) ↔ All (IsBelow 4) (ok 3 ∷ ok 5 ∷ []))
    × ((wait_until_activation 4 (ok 3 ∷ ok 5 ∷ []) ≡ some (ok tt)) ↔ (
        (low : List (Result ℕ)) × (h : ℕ) × (rest : List (Result ℕ)) × (ok 3 ∷ ok 5 ∷ []
          ≡ low ++ ok h ∷ rest)
        × All (IsBelow 4) low
        × (4 ≤ h)))
wait_until_activation_iff_example = wait_until_activation_iff 4 (ok 3 ∷ ok 5 ∷ [])

abbrev round_of : ℕ → Round
round_of n = record {
  block_epoch = linked_epoch n;
  at_block = linked_client n;
  at_bootstrap = linked_client n;
}

synced_5-IsSynced : IsSynced linked_codec 2 (linked_block 5) synced_5
unfolding tip
synced_5-IsSynced = record {
  has_room = record { depth = refl; room = omega arith; few = omega arith };
  linked = (tt, (refl, tt));
  at_tip = refl;
}

block_6-IsNext : IsNext linked_codec (linked_block 5) (round_of 6) (linked_block 6)
unfolding ◌+ℤ◌ to_u64
block_6-IsNext = record {
  above = λ l. absurd (omega (arith, l));
  next = omega arith;
  header = refl;
  hash = refl;
  parent = refl;
  served = refl;
}

block_7-IsNext : IsNext linked_codec (linked_block 6) (round_of 7) (linked_block 7)
unfolding ◌+ℤ◌ to_u64
block_7-IsNext = record {
  above = λ l. absurd (omega (arith, l));
  next = omega arith;
  header = refl;
  hash = refl;
  parent = refl;
  served = refl;
}

block_event_loop-AreNext_example :
    (u : BtcPoller) × (block_event_loop linked_codec 3 (round_of 6 ∷ round_of 7 ∷ []) synced_5
      ≡ (ok tt, u))
    × (confirmed_stream u.sent ++ u.unconfirmed_block_cache.blocks
        ≡ (confirmed_stream synced_5.sent ++ synced_5.unconfirmed_block_cache.blocks)
          ++ linked_block 6 ∷ linked_block 7 ∷ [])
block_event_loop-AreNext_example =
    block_event_loop-AreNext linked_codec 2 (omega arith) 3 (linked_block 5)
      (round_of 6 ∷ round_of 7 ∷ []) (linked_block 6 ∷ linked_block 7 ∷ []) synced_5
      synced_5-IsSynced (block_6-IsNext, (block_7-IsNext, refl))
