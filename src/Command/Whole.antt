-- ===== src/Command/Whole.antt =====
-- What runs after `start`: the indexer that it made, over the scanner and the client that it made, from
-- the start height that it chose.
use staking_indexer.Prelude.{ℕ, ◌≤◌, Bytes, Option, List, [], All, ◌≡◌, ◌⊎◌, ◌∙◌, ap, sym}
use staking_indexer.Prelude.Result.{Result, ok, panic}
use staking_indexer.Kvdb.{KvdbLaws}
use staking_indexer.Wire.{CodecLaws, MsgTx, PublicKey, IsXOnly}
use staking_indexer.Store.Record.{ProtoLaws}
use staking_indexer.Store.Implements.{kv_store-IndexerStoreLaws}
use staking_indexer.BtcClient.{scanner_client}
use staking_indexer.Config.{Network}
use staking_indexer.Indexer.Types.{World, ParsedStakingTx}
use staking_indexer.Indexer.Exec.Blind.{Accepts}
use staking_indexer.Indexer.Block.{handle_confirmed_blocks}
use staking_indexer.Indexer.Unconfirmed.{handle_updates}
use staking_indexer.Indexer.Ledger.{Reach}
use staking_indexer.Indexer.Ledger.Laws.{IndexerLaws}
use staking_indexer.Indexer.Ledger.Records.{IsKeyed}
use staking_indexer.Indexer.History.{handle_confirmed_blocks-Reach}
use staking_indexer.Scanner.Poller.{ChainUpdateInfo}
use staking_indexer.Scanner.Poller.Commits.{confirmed_stream}
use staking_indexer.Scanner.Chain.{Linked}
use staking_indexer.Scanner.EventLoop.{Round}
use staking_indexer.Scanner.EventLoop.Linkage.{IsAuthentic, FixesParent}
use staking_indexer.System.{run_indexer, run_indexer-Linked}
use staking_indexer.Command.Host.{Host, Flags}
use staking_indexer.Command.Assemble.{Launch}
use staking_indexer.Command.Start.{start}
use staking_indexer.Command.Launched.{indexer_of, new_btc_scanner-new, start-IsWired}

-- What the libraries document: the database, the serialisers, the messages, that a staking transaction
-- is parsed into x-only keys, and that a block's hash fixes its parent.
pub record HostLaws (h : Host) : Type 1 where
  pub kv : KvdbLaws h.kv
  pub codec : CodecLaws h.codec
  pub proto : ProtoLaws h.proto
  pub parsed_keys :
      (n : Option Network) (tx : MsgTx) (tag : Bytes) (pks : List PublicKey) (quorum : ℕ)
      (d : ParsedStakingTx)
      → (h.btc_staking n).parse_v0_staking_tx tx tag pks quorum ≡ ok d
      → IsXOnly h.codec d.staker_public_key × IsXOnly h.codec d.finality_provider_public_key
  pub fixes : FixesParent h.codec

module _ {h : Host} (laws : HostLaws h) where
  indexer_of-IndexerLaws : (r : Launch h) → IndexerLaws (indexer_of h r)
  indexer_of-IndexerLaws r = record {
    store = kv_store-IndexerStoreLaws laws.kv laws.codec laws.proto;
    parsed_keys = laws.parsed_keys r.config.btc_net_params;
    hash_length = laws.codec.length-tx_hash;
  }

  -- The indexer at its start, which has announced nothing in this life.
  abbrev pub world_of : (r : Launch h) → World (indexer_of h r)
  world_of r = record { db = r.db; sent = [] }

  -- The updates of the scanner, for what its polls of the tip and the block epochs bring.
  abbrev pub updates_of : Launch h → List (Result ℕ) → List Round → List ChainUpdateInfo
  updates_of r polls es =
      (run_indexer (indexer_of h r) r.start_height polls (scanner_client r.btc_client) es r.db
        r.scanner).1.poller.sent

  -- The confirmed blocks are one chain. Handling them takes steps of the ledger only, and handling the
  -- updates, unless it panics, returns and leaves in the database what handling the chain does.
  abbrev pub Indexes : Launch h → List (Result ℕ) → List Round → Type 0
  Indexes r polls es =
      let si = indexer_of h r in
      let us = updates_of r polls es in
      let bs = confirmed_stream us in
      let w = world_of r in
      Linked h.codec bs
      × Reach si w (handle_confirmed_blocks si bs w).1
      × (((handle_updates si us w).0 ≡ panic)
          ⊎ (((handle_updates si us w).0 ≡ (handle_confirmed_blocks si bs w).0)
              × ((handle_updates si us w).1.db ≡ (handle_confirmed_blocks si bs w).1.db)))

  -- Where `start` hands something to the server, with a confirmation depth from 2 to 100 and a database
  -- whose staking records are stored under the hashes of their transactions, and the consumer takes
  -- every event: for block epochs whose headers have their hashes, the confirmed blocks that the scanner
  -- sends are one chain, handling them takes steps of the abstract ledger only, and handling the updates
  -- of the scanner, unless it panics, returns and leaves in the database what handling that chain does.
  -- The libraries keep their laws, one of which is that the hash of a block fixes its parent.
  pub start-Indexes :
      (flags : Flags) (s : h.fs.State) (r : Launch h) (polls : List (Result ℕ)) (es : List Round)
      → (start h flags s).0 ≡ ok r
      → 2 ≤ r.first_version.confirmation_depth
      → r.first_version.confirmation_depth ≤ 100
      → IsKeyed (indexer_of h r) (world_of r)
      → Accepts (indexer_of h r)
      → All (λ e. IsAuthentic h.codec e.block_epoch) es
      → Indexes r polls es
  start-Indexes flags s r polls es e low high keyed accepts auth =
      let wired = start-IsWired h laws.kv flags s r e in
      let new =
        new_btc_scanner-new h r.first_version.confirmation_depth ∙ ap ok (sym wired.scanner) in
      let (linked, handled) =
        run_indexer-Linked accepts r.first_version.confirmation_depth r.scanner r.start_height polls
          (scanner_client r.btc_client) es (world_of r) laws.fixes low high new auth in
      (
        linked,
        handle_confirmed_blocks-Reach (indexer_of-IndexerLaws r)
            (confirmed_stream (updates_of r polls es)) (world_of r) keyed,
        handled,
      )
