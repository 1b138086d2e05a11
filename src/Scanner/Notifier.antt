-- ===== src/Scanner/Notifier.antt =====
-- `NewBTCNotifier` of btcscanner/btc_notifier.go, over btcwallet's connection to bitcoind and lnd's
-- notifier, and the empty hint cache.
use staking_indexer.Prelude.{ℕ, ℤ, Bytes, Option, List}
use staking_indexer.Prelude.Result.{Result, ok, or_fail, not_connected, ◌>>=◌, ◌>>◌}
use staking_indexer.Config.{BtcConfig, Network}

-- `chain.BitcoindConfig`: the dialer calls `net.Dial` on the host, whatever address it is given.
pub record BitcoindConfig : Type 0 where
  pub chain_params : Option Network
  pub host : Bytes
  pub user : Bytes
  pub pass : Bytes
  pub dialer : Bytes → Result (Unit {0})
  pub pruned_mode_max_peers : ℤ
  pub block_polling_interval : ℤ
  pub tx_polling_interval : ℤ
  -- in percent
  pub tx_polling_interval_jitter : ℕ

-- `chainntnfs.SpendHintCache` and `ConfirmHintCache`; the hints are heights.
pub record HintCache (SpendRequest ConfRequest : Type 0) : Type 0 where
  pub commit_spend_hint : ℕ → List SpendRequest → Result (Unit {0})
  pub query_spend_hint : SpendRequest → Result ℕ
  pub purge_spend_hint : List SpendRequest → Result (Unit {0})
  pub commit_confirm_hint : ℕ → List ConfRequest → Result (Unit {0})
  pub query_confirm_hint : ConfRequest → Result ℕ
  pub purge_confirm_hint : List ConfRequest → Result (Unit {0})

abbrev pub empty_hint_cache :
    (SpendRequest ConfRequest : Type 0) → HintCache SpendRequest ConfRequest
empty_hint_cache SpendRequest ConfRequest = record {
  commit_spend_hint = λ height spend_requests. ok tt;
  query_spend_hint = λ spend_request. ok 0;
  purge_spend_hint = λ spend_requests. ok tt;
  commit_confirm_hint = λ height conf_requests. ok tt;
  query_confirm_hint = λ conf_request. ok 0;
  purge_confirm_hint = λ conf_requests. ok tt;
}

-- `net.Dial("tcp", ...)`, `chain.NewBitcoindConn`, its `Start`, and `bitcoindnotify.New` with a block
-- cache of the size that is given, and the hint caches.
pub record NotifierLibraries : Type 1 where
  pub Conn : Type 0
  pub Notifier : Type 0
  pub SpendRequest : Type 0
  pub ConfRequest : Type 0
  pub dial : Bytes → Result (Unit {0})
  pub new_bitcoind_conn : BitcoindConfig → Result Conn
  pub start_conn : Conn → Result (Unit {0})
  pub new_notifier :
      Conn
      → Option Network
      → HintCache SpendRequest ConfRequest
      → HintCache SpendRequest ConfRequest
      → ℕ
      → Notifier

module _ (l : NotifierLibraries) where
  abbrev pub build_dialer : Bytes → Bytes → Result (Unit {0})
  build_dialer rpc_host addr = l.dial rpc_host

  abbrev pub bitcoind_config : BtcConfig → Option Network → BitcoindConfig
  bitcoind_config cfg params = record {
    chain_params = params;
    host = cfg.rpc_host;
    user = cfg.rpc_user;
    pass = cfg.rpc_pass;
    dialer = build_dialer cfg.rpc_host;
    pruned_mode_max_peers = cfg.pruned_node_max_peers;
    block_polling_interval = cfg.block_polling_interval;
    tx_polling_interval = cfg.tx_polling_interval;
    tx_polling_interval_jitter = 50;
  }

  -- The error of the start is not wrapped.
  unfoldable pub new_btc_notifier :
      BtcConfig → Option Network → HintCache l.SpendRequest l.ConfRequest → Result l.Notifier
  new_btc_notifier cfg params hint_cache = do
    bitcoind_conn ← l.new_bitcoind_conn (bitcoind_config cfg params)
    or_fail (l.start_conn bitcoind_conn) not_connected
    ok (l.new_notifier bitcoind_conn params hint_cache hint_cache cfg.block_cache_size)
