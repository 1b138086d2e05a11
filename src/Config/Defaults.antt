-- ===== src/Config/Defaults.antt =====
-- The defaults of config/. They pass the validation, so making them does not panic.
use staking_indexer.Prelude.{
  pos, true, false, Bytes, bytes_eq, none, some, [], ◌∷◌, ◌≡◌, ◌≢◌, refl, sym, ap, inr, arith,
}
use staking_indexer.Prelude.Result.{Result, ok, err, panic, pair-eq}
use staking_indexer.Config.{
  BtcConfig, DbConfig, QueueConfig, MetricsConfig, Config, Libraries, signet, network_name,
  validate, network_of,
}
use staking_indexer.Config.Paths.{data_dir}
use staking_indexer.Config.Valid.{AreValidParts, validate_iff}

-- The strings of the defaults, as bytes: "info", "user", "pass", "password", "127.0.0.1:38332",
-- "localhost:5672", "staker.db" and "127.0.0.1".
abbrev default_info : Bytes
default_info = 105 ∷ 110 ∷ 102 ∷ 111 ∷ []

abbrev default_user : Bytes
default_user = 117 ∷ 115 ∷ 101 ∷ 114 ∷ []

abbrev default_pass : Bytes
default_pass = 112 ∷ 97 ∷ 115 ∷ 115 ∷ []

abbrev default_password : Bytes
default_password = 112 ∷ 97 ∷ 115 ∷ 115 ∷ 119 ∷ 111 ∷ 114 ∷ 100 ∷ []

abbrev default_rpc_host : Bytes
default_rpc_host = 49 ∷ 50 ∷ 55 ∷ 46 ∷ 48 ∷ 46 ∷ 48 ∷ 46 ∷ 49 ∷ 58 ∷ 51 ∷ 56 ∷ 51 ∷ 51 ∷ 50 ∷ []

abbrev default_queue_url : Bytes
default_queue_url = 108 ∷ 111 ∷ 99 ∷ 97 ∷ 108 ∷ 104 ∷ 111 ∷ 115 ∷ 116 ∷ 58 ∷ 53 ∷ 54 ∷ 55 ∷ 50 ∷ []

abbrev default_db_name : Bytes
default_db_name = 115 ∷ 116 ∷ 97 ∷ 107 ∷ 101 ∷ 114 ∷ 46 ∷ 100 ∷ 98 ∷ []

abbrev pub default_metrics_host : Bytes
default_metrics_host = 49 ∷ 50 ∷ 55 ∷ 46 ∷ 48 ∷ 46 ∷ 48 ∷ 46 ∷ 49 ∷ []

abbrev pub default_btc_config : BtcConfig
default_btc_config = record {
  rpc_host = default_rpc_host;
  rpc_user = default_user;
  rpc_pass = default_pass;
  pruned_node_max_peers = pos 0;
  block_polling_interval = pos 30000000000;
  tx_polling_interval = pos 30000000000;
  block_cache_size = 20971520;
  max_retry_times = 5;
  retry_interval = pos 500000000;
}

abbrev pub default_metrics_config : MetricsConfig
default_metrics_config = record { host = default_metrics_host; port = pos 2112 }

module _ (l : Libraries) where
  abbrev pub default_db_config_with_home_path : Bytes → DbConfig
  default_db_config_with_home_path home_path = record {
    db_path = data_dir l home_path;
    db_file_name = default_db_name;
    no_freelist_sync = true;
    auto_compact = false;
    auto_compact_min_age = l.default_bolt_auto_compact_min_age;
    db_timeout = l.default_db_timeout;
  }

  abbrev pub default_queue_config : QueueConfig
  default_queue_config = record {
    user = default_user;
    password = default_password;
    url = default_queue_url;
    processing_timeout = pos 5000000000;
    msg_max_retry_attempts = pos 10;
    re_queue_delay_time = pos 5000000000;
    queue_type = l.quorum_queue_type;
  }

  abbrev pub new_config : Bytes → Config
  new_config home_path = record {
    log_level = default_info;
    bitcoin_network = network_name signet;
    extra_event_enabled = false;
    btc_config = default_btc_config;
    database_config = default_db_config_with_home_path home_path;
    queue_config = default_queue_config;
    metrics_config = default_metrics_config;
    btc_net_params = none;
  }

  abbrev or_panic : Result (Unit {0}) × Config → Result Config
  or_panic (ok u, cfg) = ok cfg
  or_panic (err e, cfg) = panic
  or_panic (panic, cfg) = panic

  unfoldable pub default_config_with_home : Bytes → Result Config
  default_config_with_home home_path = or_panic (validate l (new_config home_path))

  new_config-AreValidParts :
      (home_path : Bytes)
      → data_dir l home_path ≢ []
      → l.parse_ip default_metrics_host ≡ true
      → AreValidParts l (new_config home_path)
  new_config-AreValidParts home_path path ip = (
    (path, λ e. cc),
    (
      ((omega arith, omega arith), ip),
      (
        (
          (λ e. cc),
          ((λ e. cc), ((λ e. cc), (omega arith, (omega arith, (omega arith, inr refl))))),
        ),
        (
          (λ e. cc),
          (
            (λ e. cc),
            ((λ e. cc), (omega arith, (omega arith, (omega arith, (omega arith, omega arith))))),
          ),
        ),
      ),
    ),
  )

  -- The default configuration of a home directory is made without a panic, for the network signet, and
  -- is valid, where the path of the data directory is not empty and the default host of the metrics is
  -- an IP address.
  pub default_config_with_home-AreValidParts :
      (home_path : Bytes)
      → data_dir l home_path ≢ []
      → l.parse_ip default_metrics_host ≡ true
      → (cfg : Config) × (default_config_with_home home_path ≡ ok cfg)
        × (cfg.btc_net_params ≡ some signet)
        × AreValidParts l cfg
  unfolding default_config_with_home
  default_config_with_home-AreValidParts home_path path ip =
      let v = new_config-AreValidParts home_path path ip in
      (
        record (new_config home_path) { btc_net_params = some signet },
        ap or_panic ((validate_iff l (new_config home_path) signet).1 (refl, v)),
        refl,
        v,
      )

  or_panic-ok :
      (r : Result (Unit {0})) (x cfg : Config) → or_panic (r, x) ≡ ok cfg → (r ≡ ok tt) × (x ≡ cfg)
  or_panic-ok (ok u) x cfg h = (refl, cc h)
  or_panic-ok (err e) x cfg h = cc
  or_panic-ok panic x cfg h = cc

  -- A default configuration that is made is the new one with the network, validated.
  pub default_config_with_home-validated :
      (home_path : Bytes) (cfg : Config)
      → default_config_with_home home_path ≡ ok cfg
      → (validate l (new_config home_path) ≡ (ok tt, cfg))
        × (cfg ≡ record (new_config home_path) { btc_net_params = some signet })
  unfolding default_config_with_home validate network_of bytes_eq
  default_config_with_home-validated home_path cfg h =
      let (e, q) = or_panic-ok _ _ cfg h in
      (pair-eq (validate l (new_config home_path)) (ok tt) cfg e q, sym q)
