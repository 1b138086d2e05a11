-- ===== src/Command/Start.antt =====
-- `start` of cmd/sid/cli/start.go, up to the run of the server.
use staking_indexer.Prelude.Result.{Result}
use staking_indexer.Config.Load.{load_config}
use staking_indexer.Config.Paths.{log_file}
use staking_indexer.Files.{lifted, ◌>>=◌, ◌>>◌, clean_and_expand_path}
use staking_indexer.Log.{new_root_logger_with_file}
use staking_indexer.Command.Host.{Host, Flags}
use staking_indexer.Command.Assemble.{Launch, assemble}

module _ (h : Host) where
  unfoldable pub start : Flags → h.fs.State → Result (Launch h) × h.fs.State
  start flags = do
    abs_path ← lifted (h.env.abs flags.home)
    let home_path = clean_and_expand_path h.env abs_path
    cfg ← (λ s. (load_config h.fs h.libraries home_path s, s))
    new_root_logger_with_file h.env h.fs (log_file h.libraries home_path) cfg.log_level
    lifted (assemble h flags cfg)
