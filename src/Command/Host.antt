-- ===== src/Command/Host.antt =====
-- What the commands of cmd/sid/cli/ use of libraries, and the flags of `start`.
use staking_indexer.Prelude.{ℕ, Bytes, Option, List}
use staking_indexer.Prelude.Result.{Result, Error}
use staking_indexer.Wire.{Codec}
use staking_indexer.Kvdb.{Kvdb}
use staking_indexer.Store.Record.{Proto}
use staking_indexer.BtcClient.{Rpc, Retry}
use staking_indexer.Config.{Libraries, Network}
use staking_indexer.Config.Backends.{ConnConfig, BoltBackendConfig, QueueClientConfig}
use staking_indexer.Files.{Files, Environment}
use staking_indexer.Indexer.Types.{BtcStaking, Event}
use staking_indexer.Params.{GlobalParams}
use staking_indexer.Scanner.Notifier.{NotifierLibraries}

-- How the queue answers an event after those that it took.
abbrev pub QueueManager : Type 0
QueueManager = Event → List Event → Option Error

-- What the command uses of libraries: files and environment, the RPC client, kvdb with
-- `GetBoltBackend`, the serialisers, btcstaking for a network, the parser of the parameters, the queue
-- client, and the interception of signals.
pub record Host : Type 1 where
  pub fs : Files
  pub env : Environment
  pub libraries : Libraries
  pub new_rpc : ConnConfig → Result Rpc
  pub retry : Retry
  pub notifier : NotifierLibraries
  pub kv : Kvdb
  pub get_bolt_backend : BoltBackendConfig → Result kv.State
  pub codec : Codec
  pub proto : Proto
  pub btc_staking : Option Network → BtcStaking
  pub parse_params_file : Bytes → Result GlobalParams
  pub validate_queue_client : QueueClientConfig → Result (Unit {0})
  pub new_queue_manager : QueueClientConfig → Result QueueManager
  pub intercept : Result (Unit {0})

-- The flags of the command; the start height may be left out.
pub record Flags : Type 0 where
  pub home : Bytes
  pub start_height : Option ℕ
  pub params_path : Bytes
