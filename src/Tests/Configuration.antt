-- ===== src/Tests/Configuration.antt =====
-- The theorems on the configuration, the server and `TxExists`, at concrete inputs.
use staking_indexer.Prelude.{pos, true, false, none, some, [], ◌∷◌, ◌++◌, ◌≡◌, ◌⊎◌, refl}
use staking_indexer.Prelude.Result.{Result, ok, err, external}
use staking_indexer.Store.Staking.{get_staking_transaction, tx_exists}
use staking_indexer.Store.Unbonding.{get_unbonding_transaction}
use staking_indexer.Store.Exists.{IsBound, tx_exists_lem}
use staking_indexer.Config.{Config, Libraries, mainnet, network_name, signet}
use staking_indexer.Config.Valid.{AreValidParts}
use staking_indexer.Config.Defaults.{
  new_config, default_config_with_home, default_config_with_home-AreValidParts,
}
use staking_indexer.Server.{Service, event_consumer, Returns, run_until_shutdown}
use staking_indexer.Server.Orderly.{IsOrderly, run_until_shutdown-IsOrderly}
use staking_indexer.Tests.Codec.{sample_codec, sample_proto}
use staking_indexer.Tests.Db.{sample_db, sample_db-KvdbLaws}
use staking_indexer.Tests.Node.{staking_tx, empty_world}

abbrev pub sample_libraries : Libraries
sample_libraries = record {
  parse_ip = λ b. true;
  classic_queue_type = 1 ∷ [];
  quorum_queue_type = 2 ∷ [];
  default_bolt_auto_compact_min_age = pos 3600;
  default_db_timeout = pos 60;
  join = λ home name. 47 ∷ home ++ name;
  join_host_port = λ host port. host;
}

abbrev sample_config : Config
sample_config = record (new_config sample_libraries []) { bitcoin_network = network_name mainnet }

default_config_with_home-AreValidParts_example :
    (cfg : Config) × (default_config_with_home sample_libraries [] ≡ ok cfg)
    × (cfg.btc_net_params ≡ some signet)
    × AreValidParts sample_libraries cfg
default_config_with_home-AreValidParts_example =
    default_config_with_home-AreValidParts sample_libraries [] (λ e. cc) refl

-- The event consumer does not start.
abbrev starts : Service → Result (Unit {0})
starts event_consumer = err (external 4)
starts _ = ok tt

abbrev sample_returns : Returns
sample_returns = record { address = ok []; starts = starts; db_close = ok tt }

run_until_shutdown-IsOrderly_example :
    IsOrderly sample_returns (run_until_shutdown 0 sample_returns).1
run_until_shutdown-IsOrderly_example = run_until_shutdown-IsOrderly sample_returns

staking_tx-absent :
    tx_exists sample_db sample_codec sample_proto (sample_codec.tx_hash staking_tx) empty_world.db
    ≡ ok false
unfolding tx_exists
staking_tx-absent = refl

tx_exists_lem_example :
    ((false ≡ true) × IsBound sample_db (sample_codec.tx_hash staking_tx) empty_world.db)
    ⊎ ((false ≡ false)
        × (get_staking_transaction sample_db sample_codec sample_proto
              (sample_codec.tx_hash staking_tx)
              empty_world.db
            ≡ ok none)
        × (get_unbonding_transaction sample_db sample_codec sample_proto
              (sample_codec.tx_hash staking_tx)
              empty_world.db
            ≡ ok none))
tx_exists_lem_example =
    tx_exists_lem sample_db-KvdbLaws sample_codec sample_proto (sample_codec.tx_hash staking_tx)
      empty_world.db false staking_tx-absent
