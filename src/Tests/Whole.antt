-- ===== src/Tests/Whole.antt =====
-- The theorems on the indexer over the scanner, for a node whose blocks are linked.
use staking_indexer.Prelude.{◌≤◌, List, [], ◌∷◌, ◌++◌, length, ◌≡◌, ◌⊎◌, refl, arith}
use staking_indexer.Prelude.Result.{ok, panic}
use staking_indexer.Wire.Blocks.{IndexedBlock, new_indexed_block_from_msg_block}
use staking_indexer.Indexer.Types.{StakingIndexer, World}
use staking_indexer.Indexer.Exec.Blind.{Accepts}
use staking_indexer.Indexer.Block.{handle_confirmed_blocks}
use staking_indexer.Indexer.Unconfirmed.{handle_updates}
use staking_indexer.Scanner.Poller.{BtcPoller, ChainUpdateInfo, bootstrap}
use staking_indexer.Scanner.Poller.Commits.{confirmed_stream}
use staking_indexer.Scanner.Chain.{Linked}
use staking_indexer.BtcClient.{scanner_client}
use staking_indexer.BtcClient.Bootstraps.{indexed}
use staking_indexer.System.{run_indexer, run_indexer-Linked, bootstrap-handled}
use staking_indexer.Tests.Node.{sample_node}
use staking_indexer.Tests.Db.{empty_tables}
use staking_indexer.Tests.Lifecycle.{
  linked_codec, linked_codec-FixesParent, linked_client, rounds, scanner_3, scanner_3-new,
}
use staking_indexer.Tests.Client.{
  node_block, sample_client, sample_client-Has, sample_retry-RetryLaws, count-Answers,
}

abbrev linked_node : StakingIndexer
linked_node = record sample_node { codec = linked_codec; first_activation_height = 3 }

linked_node-Accepts : Accepts linked_node
linked_node-Accepts = record { takes = λ e sent. refl }

abbrev new_world : World linked_node
new_world = record { db = empty_tables; sent = [] }

abbrev updates : List ChainUpdateInfo
updates =
    (run_indexer linked_node 3 (ok 2 ∷ ok 5 ∷ []) (linked_client 5) rounds empty_tables
      scanner_3).1.poller.sent

run_indexer-Linked_example :
    Linked linked_codec (confirmed_stream updates)
    × (((handle_updates linked_node updates new_world).0 ≡ panic)
        ⊎ (((handle_updates linked_node updates new_world).0
              ≡ (handle_confirmed_blocks linked_node (confirmed_stream updates) new_world).0)
            × ((handle_updates linked_node updates new_world).1.db
                ≡ (handle_confirmed_blocks linked_node (confirmed_stream updates) new_world).1.db)))
run_indexer-Linked_example =
    run_indexer-Linked linked_node-Accepts 3 scanner_3 3 (ok 2 ∷ ok 5 ∷ []) (linked_client 5) rounds
      new_world linked_codec-FixesParent (omega arith) (omega arith) scanner_3-new
      (refl, (refl, tt))

bootstrap-handled_example :
    (t : BtcPoller) × (confirmed : List IndexedBlock) × (rest : List IndexedBlock) × (bootstrap
        linked_codec
        (scanner_client sample_client)
        3
        scanner_3.poller
      ≡ (ok tt, t))
    × (confirmed ++ rest ≡ indexed 3 (node_block 3 ∷ node_block 4 ∷ node_block 5 ∷ []))
    × (length rest ≤ 2)
    × (((handle_updates linked_node t.sent new_world).0 ≡ panic)
        ⊎ (((handle_updates linked_node t.sent new_world).0
              ≡ (handle_confirmed_blocks linked_node confirmed new_world).0)
            × ((handle_updates linked_node t.sent new_world).1.db
                ≡ (handle_confirmed_blocks linked_node confirmed new_world).1.db)))
unfolding new_indexed_block_from_msg_block
bootstrap-handled_example =
    bootstrap-handled linked_node-Accepts sample_client 2 3 (node_block 3)
      (node_block 4 ∷ node_block 5 ∷ []) scanner_3.poller new_world sample_retry-RetryLaws refl
      (omega arith) refl count-Answers (omega arith)
      (sample_client-Has 3 refl, (sample_client-Has 4 refl, (sample_client-Has 5 refl, tt)))
      (tt, (refl, (refl, tt)))
