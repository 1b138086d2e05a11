-- ===== src/Config/Backends.antt =====
-- What config/ hands to libraries: the connection of the RPC client, the bolt database and the queue
-- client.
use staking_indexer.Prelude.{ℤ, Bool, true, false, Bytes}
use staking_indexer.Prelude.Result.{Result, ok, ◌>>◌}
use staking_indexer.Config.{BtcConfig, DbConfig, QueueConfig}

-- `rpcclient.ConnConfig`, the fields that are set.
pub record ConnConfig : Type 0 where
  pub host : Bytes
  pub user : Bytes
  pub pass : Bytes
  pub disable_tls : Bool
  pub disable_connect_on_new : Bool
  pub disable_auto_reconnect : Bool
  pub http_post_mode : Bool

-- `kvdb.BoltBackendConfig`
pub record BoltBackendConfig : Type 0 where
  pub db_path : Bytes
  pub db_file_name : Bytes
  pub no_freelist_sync : Bool
  pub auto_compact : Bool
  pub auto_compact_min_age : ℤ
  pub db_timeout : ℤ

-- `config.QueueConfig` of the queue client.
pub record QueueClientConfig : Type 0 where
  pub queue_user : Bytes
  pub queue_password : Bytes
  pub url : Bytes
  pub queue_processing_timeout : ℤ
  pub msg_max_retry_attempts : ℤ
  pub re_queue_delay_time : ℤ
  pub queue_type : Bytes

abbrev pub to_conn_config : BtcConfig → ConnConfig
to_conn_config cfg = record {
  host = cfg.rpc_host;
  user = cfg.rpc_user;
  pass = cfg.rpc_pass;
  disable_tls = true;
  disable_connect_on_new = true;
  disable_auto_reconnect = false;
  http_post_mode = true;
}

abbrev pub db_config_to_bolt_backend_config : DbConfig → BoltBackendConfig
db_config_to_bolt_backend_config cfg = record {
  db_path = cfg.db_path;
  db_file_name = cfg.db_file_name;
  no_freelist_sync = cfg.no_freelist_sync;
  auto_compact = cfg.auto_compact;
  auto_compact_min_age = cfg.auto_compact_min_age;
  db_timeout = cfg.db_timeout;
}

-- `get_bolt_backend` is that of kvdb.
abbrev pub get_db_backend : {A : Type 0} → (BoltBackendConfig → Result A) → DbConfig → Result A
get_db_backend get_bolt_backend cfg = get_bolt_backend (db_config_to_bolt_backend_config cfg)

-- `validate_client` is the `Validate` of the queue client.
unfoldable pub to_queue_client_config :
    (QueueClientConfig → Result (Unit {0})) → QueueConfig → Result QueueClientConfig
to_queue_client_config validate_client cfg = do
  let queue_cfg : QueueClientConfig = record {
    queue_user = cfg.user;
    queue_password = cfg.password;
    url = cfg.url;
    queue_processing_timeout = cfg.processing_timeout;
    msg_max_retry_attempts = cfg.msg_max_retry_attempts;
    re_queue_delay_time = cfg.re_queue_delay_time;
    queue_type = cfg.queue_type;
  }
  validate_client queue_cfg
  ok queue_cfg
