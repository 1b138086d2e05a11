-- ===== src/Config.antt =====
-- config/: the configuration, its `Validate` functions and its defaults. A Go string is its bytes, a
-- `time.Duration` an integer of nanoseconds.
pub mod Valid
pub mod Paths
pub mod Defaults
pub mod Backends
pub mod Load
use staking_indexer.Prelude.{
  ℕ, ◌*◌, ℤ, pos, negsuc, leb_ℤ, ltb_ℤ, Bool, true, false, not, ◌||◌, Bytes, bytes_eq, Option, none,
  some, List, [], ◌∷◌, ◌==◌, if◌then◌else◌,
}
use staking_indexer.Prelude.Result.{
  Result, ok, err, panic, Error, guard, ◌>>=◌, ◌>>◌, invalid_config,
}

pub record BtcConfig : Type 0 where
  pub rpc_host : Bytes
  pub rpc_user : Bytes
  pub rpc_pass : Bytes
  pub pruned_node_max_peers : ℤ
  pub block_polling_interval : ℤ
  pub tx_polling_interval : ℤ
  pub block_cache_size : ℕ
  pub max_retry_times : ℕ
  pub retry_interval : ℤ

pub record DbConfig : Type 0 where
  pub db_path : Bytes
  pub db_file_name : Bytes
  pub no_freelist_sync : Bool
  pub auto_compact : Bool
  pub auto_compact_min_age : ℤ
  pub db_timeout : ℤ

pub record QueueConfig : Type 0 where
  pub user : Bytes
  pub password : Bytes
  pub url : Bytes
  pub processing_timeout : ℤ
  pub msg_max_retry_attempts : ℤ
  pub re_queue_delay_time : ℤ
  pub queue_type : Bytes

pub record MetricsConfig : Type 0 where
  pub host : Bytes
  pub port : ℤ

-- The networks of chaincfg.
pub data Network : Type 0 where
  mainnet : Network
  testnet : Network
  regtest : Network
  simnet : Network
  signet : Network

-- `btc_net_params` is the zero value until the network is known.
pub record Config : Type 0 where
  pub log_level : Bytes
  pub bitcoin_network : Bytes
  pub extra_event_enabled : Bool
  pub btc_config : BtcConfig
  pub database_config : DbConfig
  pub queue_config : QueueConfig
  pub metrics_config : MetricsConfig
  pub btc_net_params : Option Network

-- Library functions and constants: `net.ParseIP`, the queue types of the queue client, the defaults of
-- kvdb, and `filepath.Join` of two parts.
pub record Libraries : Type 0 where
  pub parse_ip : Bytes → Bool
  pub classic_queue_type : Bytes
  pub quorum_queue_type : Bytes
  pub default_bolt_auto_compact_min_age : ℤ
  pub default_db_timeout : ℤ
  pub join : Bytes → Bytes → Bytes
  -- `fmt.Sprintf("%s:%d", host, port)`
  pub join_host_port : Bytes → ℤ → Bytes

abbrev pub network_name : Network → Bytes
network_name mainnet = 109 ∷ 97 ∷ 105 ∷ 110 ∷ 110 ∷ 101 ∷ 116 ∷ []
network_name testnet = 116 ∷ 101 ∷ 115 ∷ 116 ∷ 110 ∷ 101 ∷ 116 ∷ []
network_name regtest = 114 ∷ 101 ∷ 103 ∷ 116 ∷ 101 ∷ 115 ∷ 116 ∷ []
network_name simnet = 115 ∷ 105 ∷ 109 ∷ 110 ∷ 101 ∷ 116 ∷ []
network_name signet = 115 ∷ 105 ∷ 103 ∷ 110 ∷ 101 ∷ 116 ∷ []

abbrev pub is_empty : Bytes → Bool
is_empty [] = true
is_empty (x ∷ xs) = false

-- `v > 0`, where the code refuses `v <= 0`.
abbrev pub is_positive : ℤ → Bool
is_positive v = not (leb_ℤ v (pos 0))

-- The `switch` over the names.
unfoldable pub network_of : Bytes → Option Network
network_of s =
    if bytes_eq s (network_name mainnet)
    then some mainnet
    else if bytes_eq s (network_name testnet)
    then some testnet
    else if bytes_eq s (network_name regtest)
    then some regtest
    else if bytes_eq s (network_name simnet)
    then some simnet
    else if bytes_eq s (network_name signet)
    then some signet
    else none

unfoldable pub validate_db : DbConfig → Result (Unit {0})
validate_db cfg = do
  guard (not (is_empty cfg.db_path)) invalid_config
  guard (not (is_empty cfg.db_file_name)) invalid_config

unfoldable pub validate_btc : BtcConfig → Result (Unit {0})
validate_btc cfg = do
  guard (not (is_empty cfg.rpc_host)) invalid_config
  guard (not (is_empty cfg.rpc_user)) invalid_config
  guard (not (is_empty cfg.rpc_pass)) invalid_config
  guard (is_positive cfg.block_polling_interval) invalid_config
  guard (is_positive cfg.tx_polling_interval) invalid_config
  guard (not (cfg.block_cache_size == 0)) invalid_config
  guard (not (cfg.max_retry_times == 0)) invalid_config
  guard (is_positive cfg.retry_interval) invalid_config

module _ (l : Libraries) where
  unfoldable pub validate_metrics : MetricsConfig → Result (Unit {0})
  validate_metrics cfg = do
    guard (not (ltb_ℤ cfg.port (pos 0) || ltb_ℤ (pos 65535) cfg.port)) invalid_config
    guard (l.parse_ip cfg.host) invalid_config

  unfoldable pub address : MetricsConfig → Result Bytes
  unfolding validate_metrics
  address cfg = do validate_metrics cfg; ok (l.join_host_port cfg.host cfg.port)

  unfoldable pub validate_queue : QueueConfig → Result (Unit {0})
  validate_queue cfg = do
    guard (not (is_empty cfg.user)) invalid_config
    guard (not (is_empty cfg.password)) invalid_config
    guard (not (is_empty cfg.url)) invalid_config
    guard (is_positive cfg.processing_timeout) invalid_config
    guard (is_positive cfg.msg_max_retry_attempts) invalid_config
    guard (is_positive cfg.re_queue_delay_time) invalid_config
    guard
        (bytes_eq cfg.queue_type l.classic_queue_type
          || bytes_eq cfg.queue_type l.quorum_queue_type)
        invalid_config

  -- The four parts, in the order of the code.
  unfoldable pub validate_parts : Config → Result (Unit {0})
  unfolding validate_metrics validate_queue
  validate_parts cfg = do
    validate_db cfg.database_config
    validate_metrics cfg.metrics_config
    validate_queue cfg.queue_config
    validate_btc cfg.btc_config

  -- The parameters of the network are set before the parts are checked.
  unfoldable pub validate : Config → Result (Unit {0}) × Config
  unfolding validate_parts
  validate cfg = elim (network_of cfg.bitcoin_network) [
    | none ↦ (err invalid_config, cfg)
    | some n ↦ let cfg' = record cfg { btc_net_params = some n } in (validate_parts cfg', cfg')
  ]
