-- ===== src/Params.antt =====
-- params/params.go, over the parser of the networks library.
use staking_indexer.Prelude.{ℕ, Bytes, Option, List}
use staking_indexer.Prelude.Result.{Result, ok, ◌>>=◌}
use staking_indexer.Indexer.Types.{Params}

-- A version of the parameters, with the confirmation depth, a uint16.
pub record Version : Type 0 where
  pub params : Params
  pub confirmation_depth : ℕ

-- `parser.ParsedGlobalParams`, with `GetVersionedGlobalParamsByHeight`.
pub record GlobalParams : Type 0 where
  pub versions : List Version
  pub by_height : ℕ → Option Params

pub record GlobalParamsRetriever : Type 0 where
  pub params_versions : GlobalParams

-- `parse_file` is `NewParsedGlobalParamsFromFile`.
abbrev pub new_global_params_retriever :
    (Bytes → Result GlobalParams) → Bytes → Result GlobalParamsRetriever
new_global_params_retriever parse_file file_path = do
  parsed_global_params ← parse_file file_path
  ok (record { params_versions = parsed_global_params })

abbrev pub versioned_params : GlobalParamsRetriever → GlobalParams
versioned_params lp = lp.params_versions
