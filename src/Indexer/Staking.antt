-- ===== src/Indexer/Staking.antt =====
-- `tryParseStakingTx`, `validateStakingTx` and `isOverflow` of indexer/indexer.go.
pub mod Limits
use staking_indexer.Prelude.{
  ℕ, ltb_ℤ, to_u64, Bool, true, false, not, ◌&&◌, ltb, leb, ◌==◌, if◌then◌else◌,
}
use staking_indexer.Prelude.Result
use staking_indexer.Prelude.Result.{Result, ok, err, panic, invalid_staking_tx, not_staking_tx}
use staking_indexer.Wire.{MsgTx}
use staking_indexer.Indexer.Types.{StakingIndexer, Params, ParsedStakingTx}

module _ (si : StakingIndexer) where
  unfoldable pub try_parse_staking_tx : MsgTx → Params → Result ParsedStakingTx
  try_parse_staking_tx tx params =
      if not (si.btc.is_possible_v0_staking_tx tx params.tag)
      then err not_staking_tx
      else elim (si.btc.parse_v0_staking_tx tx params.tag params.covenant_pks
          params.covenant_quorum) [
            | ok parsed_data ↦ ok parsed_data
            | err e ↦ err not_staking_tx
            | panic ↦ panic
          ]

unfoldable pub validate_staking_tx : Params → ParsedStakingTx → Result (Unit {0})
validate_staking_tx params staking_data =
    let value = staking_data.staking_output.value in
    if ltb_ℤ value params.min_staking_amount
    then err invalid_staking_tx
    else if ltb_ℤ params.max_staking_amount value
    then err invalid_staking_tx
    else if ltb params.max_staking_time staking_data.staking_time
    then err invalid_staking_tx
    else if ltb staking_data.staking_time params.min_staking_time
    then err invalid_staking_tx
    else ok tt

-- The last comparison is between uint64 values.
unfoldable pub is_overflow : ℕ → Params → Result ℕ → Result Bool
is_overflow height params confirmed_tvl =
    let is_time_based = not (params.cap_height == 0) in
    if is_time_based && ltb height params.activation_height
    then panic
    else if is_time_based && ltb params.cap_height height
    then ok true
    else if is_time_based && leb height params.cap_height
    then ok false
    else elim confirmed_tvl [
      | ok tvl ↦ ok (leb (to_u64 params.staking_cap) tvl)
      | err e ↦ err e
      | panic ↦ panic
    ]
