-- ===== src/Command/Assemble.antt =====
-- The parts that `start` of cmd/sid/cli/start.go makes, with `NewBTCClient` of
-- btcclient/client.go, `NewStakingIndexer` of indexer/indexer.go and `NewIndexerStore` of
-- indexerstore/indexer_store.go.
use staking_indexer.Prelude.{ℕ, Option, none, some}
use staking_indexer.Prelude.Result.{Result, ok, err, panic, ◌>>=◌, ◌>>◌}
use staking_indexer.Store.Buckets.{init_buckets}
use staking_indexer.Store.Implements.Instance.{kv_store}
use staking_indexer.BtcClient.{BtcClient}
use staking_indexer.Config.{Config, BtcConfig}
use staking_indexer.Config.Backends.{to_conn_config, get_db_backend, to_queue_client_config}
use staking_indexer.Indexer.Types.{StakingIndexer}
use staking_indexer.Indexer.Exec.{index}
use staking_indexer.Indexer.StartHeight.{get_start_height}
use staking_indexer.Scanner.EventLoop.{Scanner, new_btc_scanner}
use staking_indexer.Scanner.Notifier.{HintCache, empty_hint_cache, new_btc_notifier}
use staking_indexer.Command.Host.{Host, Flags, QueueManager}
use staking_indexer.Params.{Version, GlobalParams, new_global_params_retriever, versioned_params}

module _ (h : Host) where
  abbrev pub new_btc_client : BtcConfig → Result BtcClient
  new_btc_client cfg = elim (h.new_rpc (to_conn_config cfg)) [
    | ok c ↦ ok (record { retry = h.retry; client = c; max_retry_times = cfg.max_retry_times })
    | err e ↦ err e
    | panic ↦ panic
  ]

  -- `NewIndexerStore`: the state of the database with its buckets.
  abbrev pub opened : Result (Unit {0}) × h.kv.State → Result h.kv.State
  opened (ok u, s) = ok s
  opened (err e, s) = err e
  opened (panic, s) = panic

  unfoldable pub new_indexer_store : h.kv.State → Result h.kv.State
  new_indexer_store db = opened (init_buckets h.kv db)

  -- The indexer that `NewStakingIndexer` makes, whose earliest activation height is that of the first
  -- version.
  abbrev pub staking_indexer_of : Config → QueueManager → GlobalParams → Version → StakingIndexer
  staking_indexer_of cfg consumer params_versions first = record {
    store = kv_store h.kv h.codec h.proto;
    codec = h.codec;
    btc = h.btc_staking cfg.btc_net_params;
    params_by_height = params_versions.by_height;
    first_activation_height = first.params.activation_height;
    extra_event_enabled = cfg.extra_event_enabled;
    push = consumer;
  }

  -- What the server is made of, and runs with.
  pub record Launch : Type 1 where
    pub config : Config
    pub btc_client : BtcClient
    pub btc_notifier : h.notifier.Notifier
    pub scanner : Scanner
    pub consumer : QueueManager
    pub params_versions : GlobalParams
    pub first_version : Version
    pub db : h.kv.State
    pub start_height : ℕ

  -- The height of the flag, or the one that the indexer proposes.
  unfoldable pub choose_start_height : (si : StakingIndexer) → Option ℕ → si.store.Db → Result ℕ
  choose_start_height si (some height) db = ok height
  choose_start_height si none db = get_start_height si db

  abbrev pub hint_cache : HintCache h.notifier.SpendRequest h.notifier.ConfRequest
  hint_cache = empty_hint_cache h.notifier.SpendRequest h.notifier.ConfRequest

  -- What follows the logger: it touches no file of the model.
  unfoldable pub assemble : Flags → Config → Result Launch
  unfolding choose_start_height new_indexer_store
  assemble flags cfg = do
    btc_client ← new_btc_client cfg.btc_config
    btc_notifier ← new_btc_notifier h.notifier cfg.btc_config cfg.btc_net_params hint_cache
    db_backend ← get_db_backend h.get_bolt_backend cfg.database_config
    params_retriever ← new_global_params_retriever h.parse_params_file flags.params_path
    let versions = versioned_params params_retriever
    first ← index versions.versions 0
    scanner ← new_btc_scanner first.confirmation_depth
    valid_queue_cfg ← to_queue_client_config h.validate_queue_client cfg.queue_config
    queue_consumer ← h.new_queue_manager valid_queue_cfg
    db ← new_indexer_store db_backend
    start_height ←
        choose_start_height (staking_indexer_of cfg queue_consumer versions first)
          flags.start_height db
    h.intercept
    ok (record {
      config = cfg;
      btc_client = btc_client;
      btc_notifier = btc_notifier;
      scanner = scanner;
      consumer = queue_consumer;
      params_versions = versions;
      first_version = first;
      db = db;
      start_height = start_height;
    })
