-- ===== src/Tests/Starting.antt =====
-- The commands `init` and `start` on a host with one file.
use staking_indexer.Prelude.{
  true, false, bytes_eq, length, Option, none, some, [], ◌∷◌, ◌≡◌, refl, ap, sym,
}
use staking_indexer.Prelude.Result.{Result, ok, err, external, last_processed_height_not_found}
use staking_indexer.Store.Buckets.{init_buckets}
use staking_indexer.Store.Height.{get_last_processed_height, required_height}
use staking_indexer.Config.{
  Config, signet, network_of, validate, validate_parts, validate_db, validate_btc, validate_metrics,
  validate_queue,
}
use staking_indexer.Config.Defaults.{new_config, default_config_with_home}
use staking_indexer.Config.Load.{load_config}
use staking_indexer.Config.Backends.{to_queue_client_config}
use staking_indexer.Files.{
  Stat, found, not_exist, Files, Environment, make_directory, clean_and_expand_path,
}
use staking_indexer.Log.{encoder_of, level_of, new_root_logger, new_root_logger_with_file}
use staking_indexer.Indexer.Exec.{index}
use staking_indexer.Indexer.StartHeight.{get_start_height, validate_start_height}
use staking_indexer.Scanner.Cache.{new_btc_cache}
use staking_indexer.Scanner.EventLoop.{new_btc_scanner, Scanner}
use staking_indexer.Scanner.Notifier.{NotifierLibraries, new_btc_notifier}
use staking_indexer.Command.Init.{must_be_new, make_home, init_home}
use staking_indexer.Command.Host.{Host, Flags}
use staking_indexer.Params.{Version, GlobalParams}
use staking_indexer.Command.Assemble.{Launch, assemble, new_indexer_store, choose_start_height}
use staking_indexer.Command.Start.{start}
use staking_indexer.Command.Headers.{Encoders, HeadersFlags}
use staking_indexer.Command.Roundtrip.{IniLaws, init_home-load_config}
use staking_indexer.Command.Launched.{indexer_of, start-accepted}
use staking_indexer.Tests.Codec.{sample_codec, sample_proto}
use staking_indexer.Tests.Db.{Tables, sample_db, sample_db-KvdbLaws}
use staking_indexer.Tests.Node.{sample_params, sample_btc}
use staking_indexer.Tests.Configuration.{sample_libraries}
use staking_indexer.Tests.Client.{sample_client, number_of}

abbrev stat_of : Option Config → Stat
stat_of none = not_exist
stat_of (some cfg) = found

abbrev parsed : Option Config → Result Config
parsed none = err (external 8)
parsed (some cfg) = ok (record cfg { btc_net_params = none })

abbrev sample_files : Files
sample_files = record {
  State = Option Config;
  stat = λ path s. stat_of s;
  mkdir_all = λ path s. (ok tt, s);
  is_unmounted_link = λ e s. false;
  open_append = λ path s. (ok tt, s);
  write_ini = λ cfg path s. (ok tt, some cfg);
  parse_ini = λ path s. parsed s;
  write_file = λ path bz s. (ok tt, s);
}

sample_files-IniLaws : IniLaws sample_files
sample_files-IniLaws = record {
  stat-write = λ cfg path s t e. ap stat_of (sym (ap (λ p. p.1) e));
  parse-write = λ cfg path s t c e. ap parsed (sym (ap (λ p. p.1) e));
}

abbrev sample_environment : Environment
sample_environment = record {
  abs = λ p. ok p;
  clean = λ p. p;
  dir = λ p. p;
  expand_env = λ p. p;
  home_dir = [];
  to_lower = λ p. p;
}

initialised :
    (init_home sample_files sample_environment sample_libraries (7 ∷ []) false none).0 ≡ ok tt
unfolding init_home make_home must_be_new make_directory clean_and_expand_path
    default_config_with_home validate validate_parts validate_db validate_btc validate_metrics
    validate_queue network_of bytes_eq
initialised = refl

init_home-load_config_example :
    (cfg : Config) × (default_config_with_home sample_libraries
        (clean_and_expand_path sample_environment (7 ∷ []))
      ≡ ok cfg)
    × (load_config sample_files sample_libraries
          (clean_and_expand_path sample_environment (7 ∷ []))
          (init_home sample_files sample_environment sample_libraries (7 ∷ []) false none).1
        ≡ ok cfg)
init_home-load_config_example =
    init_home-load_config sample_files-IniLaws sample_environment sample_libraries (7 ∷ []) (7 ∷ [])
      false none refl initialised

abbrev sample_notifier : NotifierLibraries
sample_notifier = record {
  Conn = Unit {0};
  Notifier = Unit {0};
  SpendRequest = Unit {0};
  ConfRequest = Unit {0};
  dial = λ addr. ok tt;
  new_bitcoind_conn = λ cfg. ok tt;
  start_conn = λ c. ok tt;
  new_notifier = λ c params spends confs size. tt;
}

abbrev pub sample_version : Version
sample_version = record { params = sample_params; confirmation_depth = 10 }

abbrev sample_versions : GlobalParams
sample_versions = record {
  versions = sample_version ∷ [];
  by_height = λ height. some sample_params;
}

-- The database has no bucket yet.
abbrev pub sample_host : Host
sample_host = record {
  fs = sample_files;
  env = sample_environment;
  libraries = sample_libraries;
  new_rpc = λ cfg. ok sample_client.client;
  retry = sample_client.retry;
  notifier = sample_notifier;
  kv = sample_db;
  get_bolt_backend = λ cfg. ok (record { has = λ n. false; get = λ n k. none });
  codec = sample_codec;
  proto = sample_proto;
  btc_staking = λ params. sample_btc;
  parse_params_file = λ path. ok sample_versions;
  validate_queue_client = λ cfg. ok tt;
  new_queue_manager = λ cfg. ok (λ e sent. none);
  intercept = ok tt;
}

abbrev pub sample_flags : Flags
sample_flags = record { home = 7 ∷ []; start_height = none; params_path = [] }

abbrev pub loaded : Config
loaded = record (new_config sample_libraries (7 ∷ [])) { btc_net_params = some signet }

abbrev pub created : Tables
created = (init_buckets sample_db (record { has = λ n. false; get = λ n k. none })).1

abbrev pub sample_scanner : Scanner
sample_scanner = record {
  poller = record {
    unconfirmed_block_cache = record { blocks = []; max_entries = 100 };
    confirmation_depth = 10;
    confirmed_tip_block = none;
    sent = [];
  };
  is_started = false;
}

abbrev pub launched : Launch sample_host
launched = record {
  config = loaded;
  btc_client = record {
    retry = sample_client.retry;
    client = sample_client.client;
    max_retry_times = 5;
  };
  btc_notifier = tt;
  scanner = sample_scanner;
  consumer = λ e sent. none;
  params_versions = sample_versions;
  first_version = sample_version;
  db = created;
  start_height = 100;
}

started : (start sample_host sample_flags (some loaded)).0 ≡ ok launched
unfolding start assemble choose_start_height new_indexer_store init_buckets load_config
    new_root_logger_with_file new_root_logger encoder_of level_of make_directory
    clean_and_expand_path validate validate_parts validate_db validate_btc validate_metrics
    validate_queue network_of bytes_eq new_btc_notifier index new_btc_scanner new_btc_cache
    to_queue_client_config get_start_height get_last_processed_height required_height
started = refl

height-missing :
    (indexer_of sample_host launched).store.get_last_processed_height created
    ≡ err last_processed_height_not_found
unfolding init_buckets get_last_processed_height required_height
height-missing = refl

start-accepted_example : validate_start_height (indexer_of sample_host launched) 100 created ≡ ok tt
start-accepted_example =
    start-accepted sample_host sample_db-KvdbLaws sample_flags (some loaded) launched refl
      (λ last e. absurd (cc (height-missing, e))) started

abbrev sample_encoders : Encoders
sample_encoders = record {
  parse_uint = λ b. ok (number_of b);
  header_bytes = λ h. h.nonce ∷ [];
  marshal = λ infos. ok (length infos ∷ []);
}

abbrev headers_flags : HeadersFlags
headers_flags = record { home = 7 ∷ []; output = []; with_height = true }
