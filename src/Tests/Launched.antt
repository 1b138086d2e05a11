-- ===== src/Tests/Launched.antt =====
-- The indexer that `start` makes, run over a node that serves linked blocks from height 3 on.
use staking_indexer.Prelude.{bytes_eq, false, none, some, [], ◌∷◌, ◌≡◌, refl, arith}
use staking_indexer.Prelude.Result.{ok}
use staking_indexer.Wire.{Hash}
use staking_indexer.Store.Buckets.{init_buckets}
use staking_indexer.Store.Height.{get_last_processed_height, required_height}
use staking_indexer.Store.Staking.{get_staking_transaction, get_staking_body}
use staking_indexer.Config.{
  network_of, validate, validate_parts, validate_db, validate_btc, validate_metrics, validate_queue,
}
use staking_indexer.Config.Load.{load_config}
use staking_indexer.Config.Backends.{to_queue_client_config}
use staking_indexer.Files.{make_directory, clean_and_expand_path}
use staking_indexer.Log.{encoder_of, level_of, new_root_logger, new_root_logger_with_file}
use staking_indexer.Indexer.Exec.{index}
use staking_indexer.Indexer.Exec.Blind.{Accepts}
use staking_indexer.Indexer.StartHeight.{get_start_height}
use staking_indexer.Indexer.Ledger.Records.{IsKeyed}
use staking_indexer.Scanner.Cache.{new_btc_cache}
use staking_indexer.Scanner.EventLoop.{new_btc_scanner}
use staking_indexer.Scanner.Notifier.{new_btc_notifier}
use staking_indexer.Params.{Version, GlobalParams}
use staking_indexer.Command.Host.{Host}
use staking_indexer.Command.Assemble.{Launch, assemble, new_indexer_store, choose_start_height}
use staking_indexer.Command.Start.{start}
use staking_indexer.Command.Launched.{indexer_of}
use staking_indexer.Command.Whole.{HostLaws, world_of, Indexes, start-Indexes}
use staking_indexer.Tests.Codec.{sample_codec-CodecLaws, sample_proto-ProtoLaws}
use staking_indexer.Tests.Db.{sample_db-KvdbLaws}
use staking_indexer.Tests.Node.{sample_params, sample_node-IndexerLaws}
use staking_indexer.Tests.Lifecycle.{linked_codec, linked_codec-FixesParent, rounds}
use staking_indexer.Tests.Client.{sample_client}
use staking_indexer.Tests.Starting.{sample_host, sample_flags, loaded, created}

abbrev early_version : Version
early_version = record {
  params = record sample_params { activation_height = 3 };
  confirmation_depth = 2;
}

abbrev early_versions : GlobalParams
early_versions = record {
  versions = early_version ∷ [];
  by_height = λ h. some early_version.params;
}

abbrev linked_host : Host
linked_host = record sample_host {
  codec = linked_codec;
  parse_params_file = λ path. ok early_versions;
}

linked_host-HostLaws : HostLaws linked_host
linked_host-HostLaws = record {
  kv = sample_db-KvdbLaws;
  codec = record {
    deserialize-serialize = sample_codec-CodecLaws.deserialize-serialize;
    serialize-parse = sample_codec-CodecLaws.serialize-parse;
    length-tx_hash = sample_codec-CodecLaws.length-tx_hash;
    new_hash_lem = sample_codec-CodecLaws.new_hash_lem;
    deserialize-known_error = sample_codec-CodecLaws.deserialize-known_error;
    parse-known_error = sample_codec-CodecLaws.parse-known_error;
  };
  proto = sample_proto-ProtoLaws;
  parsed_keys = λ n. sample_node-IndexerLaws.parsed_keys;
  fixes = linked_codec-FixesParent;
}

abbrev early : Launch linked_host
early = record {
  config = loaded;
  btc_client = record {
    retry = sample_client.retry;
    client = sample_client.client;
    max_retry_times = 5;
  };
  btc_notifier = tt;
  scanner = record {
    poller = record {
      unconfirmed_block_cache = record { blocks = []; max_entries = 100 };
      confirmation_depth = 2;
      confirmed_tip_block = none;
      sent = [];
    };
    is_started = false;
  };
  consumer = λ e sent. none;
  params_versions = early_versions;
  first_version = early_version;
  db = created;
  start_height = 3;
}

early-started : (start linked_host sample_flags (some loaded)).0 ≡ ok early
unfolding start assemble choose_start_height new_indexer_store init_buckets load_config
    new_root_logger_with_file new_root_logger encoder_of level_of make_directory
    clean_and_expand_path validate validate_parts validate_db validate_btc validate_metrics
    validate_queue network_of bytes_eq new_btc_notifier index new_btc_scanner new_btc_cache
    to_queue_client_config get_start_height get_last_processed_height required_height
early-started = refl

early-absent :
    (h : Hash) → (indexer_of linked_host early).store.get_staking_transaction h created ≡ ok none
unfolding init_buckets get_staking_transaction get_staking_body
early-absent h = refl

early-IsKeyed : IsKeyed (indexer_of linked_host early) (world_of linked_host-HostLaws early)
early-IsKeyed = record { keyed = λ h st e. cc (early-absent h, e) }

early-Accepts : Accepts (indexer_of linked_host early)
early-Accepts = record { takes = λ e sent. refl }

start-Indexes_example : Indexes linked_host-HostLaws early (ok 5 ∷ []) rounds
start-Indexes_example =
    start-Indexes linked_host-HostLaws sample_flags (some loaded) early (ok 5 ∷ []) rounds
      early-started (omega arith) (omega arith) early-IsKeyed early-Accepts (refl, (refl, tt))
