-- ===== src/Indexer/Types.antt =====
-- What indexer/indexer.go works on: the parameters of a version, the parsed staking data, the
-- events of the queue (doc/events.md), the libraries that it calls, and the state of a run.
use staking_indexer.Prelude.{ℕ, ℤ, Bool, Bytes, List, Option}
use staking_indexer.Prelude.Result.{Result, Error}
use staking_indexer.Wire.{MsgTx, TxOut, PublicKey, Codec}
use staking_indexer.Store.Interface.{IndexerStore}

-- `parser.ParsedVersionedGlobalParams`; amounts are int64, times uint16, heights uint64.
pub record Params : Type 0 where
  pub activation_height : ℕ
  pub staking_cap : ℤ
  pub cap_height : ℕ
  pub tag : Bytes
  pub covenant_pks : List PublicKey
  pub covenant_quorum : ℕ
  pub unbonding_time : ℕ
  pub unbonding_fee : ℤ
  pub max_staking_amount : ℤ
  pub min_staking_amount : ℤ
  pub max_staking_time : ℕ
  pub min_staking_time : ℕ

-- `btcstaking.ParsedV0StakingTx`, with the fields of its OP_RETURN data.
pub record ParsedStakingTx : Type 0 where
  pub staking_output : TxOut
  pub staking_output_idx : ℕ
  pub staker_public_key : PublicKey
  pub finality_provider_public_key : PublicKey
  pub staking_time : ℕ

-- The scripts of `TimeLockPathSpendInfo` and `UnbondingPathSpendInfo`.
pub record StakingInfo : Type 0 where
  pub time_lock_path : Result Bytes
  pub unbonding_path : Result Bytes

pub record UnbondingInfo : Type 0 where
  pub unbonding_output : TxOut
  pub time_lock_path : Result Bytes

-- The arguments of `BuildStakingInfo` and `BuildUnbondingInfo` but for the network.
pub record InfoRequest : Type 0 where
  pub staker_pk : PublicKey
  pub finality_provider_pks : List PublicKey
  pub covenant_pks : List PublicKey
  pub covenant_quorum : ℕ
  pub time : ℕ
  pub amount : ℤ

-- The functions of btcstaking, for the network of the configuration. `is_transfer_tx` says that
-- `IsTransferTx` returns no error.
pub record BtcStaking : Type 0 where
  pub is_possible_v0_staking_tx : MsgTx → Bytes → Bool
  pub parse_v0_staking_tx : MsgTx → Bytes → List PublicKey → ℕ → Result ParsedStakingTx
  pub is_transfer_tx : MsgTx → Bool
  pub build_staking_info : InfoRequest → Result StakingInfo
  pub build_unbonding_info : InfoRequest → Result UnbondingInfo

pub record ActiveStakingEvent : Type 0 where
  pub staking_tx_hash_hex : Bytes
  pub staker_pk_hex : Bytes
  pub finality_provider_pk_hex : Bytes
  pub staking_value : ℕ
  pub staking_start_height : ℕ
  pub staking_start_timestamp : ℤ
  pub staking_time_lock : ℕ
  pub staking_output_index : ℕ
  pub staking_tx_hex : Bytes
  pub is_overflow : Bool

pub record UnbondingStakingEvent : Type 0 where
  pub staking_tx_hash_hex : Bytes
  pub unbonding_start_height : ℕ
  pub unbonding_start_timestamp : ℤ
  pub unbonding_time_lock : ℕ
  pub unbonding_output_index : ℕ
  pub unbonding_tx_hex : Bytes
  pub unbonding_tx_hash_hex : Bytes

pub data Event : Type 0 where
  active_staking : ActiveStakingEvent → Event
  unbonding_staking : UnbondingStakingEvent → Event
  -- the hash of the staking transaction
  withdraw_staking : Bytes → Event
  -- height, confirmed TVL, unconfirmed TVL
  btc_info : ℕ → ℕ → ℕ → Event
  -- height, confirmed TVL
  confirmed_info : ℕ → ℕ → Event

-- The fields of `StakingIndexer` that do not change. `params_by_height` is
-- `GetVersionedGlobalParamsByHeight`, `first_activation_height` that of `Versions[0]`, and `push`
-- says how the consumer answers an event after those that it took: with nothing, or an error.
pub record StakingIndexer : Type 1 where
  pub store : IndexerStore
  pub codec : Codec
  pub btc : BtcStaking
  pub params_by_height : ℕ → Option Params
  pub first_activation_height : ℕ
  pub extra_event_enabled : Bool
  pub push : Event → List Event → Option Error

-- The database, and the events that the consumer took, oldest first.
pub record World (si : StakingIndexer) : Type 0 where
  pub db : si.store.Db
  pub sent : List Event
