-- ===== src/Config/Load.antt =====
-- `LoadConfig` of config/config.go.
use staking_indexer.Prelude.{Bytes, not, if◌then◌else◌}
use staking_indexer.Prelude.Result.{Result, ok, err, panic, no_config_file, ◌>>=◌}
use staking_indexer.Config.{Config, Libraries, validate}
use staking_indexer.Config.Paths.{config_file}
use staking_indexer.Files.{Files, file_exists}

-- The validated configuration.
abbrev pub or_invalid : Result (Unit {0}) × Config → Result Config
or_invalid (ok u, cfg) = ok cfg
or_invalid (err e, cfg) = err e
or_invalid (panic, cfg) = panic

unfoldable pub load_config : (fs : Files) → Libraries → Bytes → fs.State → Result Config
load_config fs l home_path s =
    let cfg_file = config_file l home_path in
    if not (file_exists fs cfg_file s)
    then err no_config_file
    else do cfg ← fs.parse_ini cfg_file s; or_invalid (validate l cfg)
