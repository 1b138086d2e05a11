-- ===== src/Indexer/StartHeight.antt =====
-- `ValidateStartHeight` and `GetStartHeight` of indexer/indexer.go.
pub mod Range
use staking_indexer.Prelude.{ℕ, ◌+◌, ◌%◌, not, none, some, ◌&&◌, ltb, ◌==◌, if◌then◌else◌, u64_mod}
use staking_indexer.Prelude.Result
use staking_indexer.Prelude.Result.{
  Result, ok, err, panic, params_not_exist, start_height_too_low, start_height_too_high,
  database_empty,
}
use staking_indexer.Indexer.Types.{StakingIndexer, Params}

module _ (si : StakingIndexer) where
  -- Where the read fails, the last processed height is 0 and the last test is off.
  unfoldable pub validate_start_height : ℕ → si.store.Db → Result (Unit {0})
  validate_start_height start_height db =
      if ltb start_height si.first_activation_height
      then err start_height_too_low
      else elim (si.store.get_last_processed_height db) [
        | err e ↦
            if not (start_height == si.first_activation_height) then err database_empty else ok tt
        | ok last ↦
            if not (last == 0) && ltb ((last + 1) % u64_mod) start_height
            then err start_height_too_high
            else ok tt
        | panic ↦ panic
      ]

  unfoldable pub get_start_height : si.store.Db → Result ℕ
  get_start_height db = elim (si.store.get_last_processed_height db) [
    | err e ↦ ok si.first_activation_height
    | ok last ↦ ok ((last + 1) % u64_mod)
    | panic ↦ panic
  ]

  -- `getVersionedParams`
  unfoldable pub get_versioned_params : ℕ → Result Params
  get_versioned_params height = elim (si.params_by_height height) [
    | none ↦ err params_not_exist
    | some p ↦ ok p
  ]
