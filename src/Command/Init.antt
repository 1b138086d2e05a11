-- ===== src/Command/Init.antt =====
-- `initHome` of cmd/sid/cli/init.go.
use staking_indexer.Prelude.{Bool, not, ◌&&◌, Bytes, if◌then◌else◌}
use staking_indexer.Prelude.Result.{ok, err, home_exists}
use staking_indexer.Config.{Libraries}
use staking_indexer.Config.Paths.{config_file, log_dir, data_dir}
use staking_indexer.Config.Defaults.{default_config_with_home}
use staking_indexer.Files.{
  Files, file_exists, Environment, FileAct, lifted, ◌>>=◌, ◌>>◌, make_directory,
  clean_and_expand_path,
}

module _ (fs : Files) where
  -- `--force` allows a home directory that is there.
  unfoldable pub must_be_new : Bytes → Bool → FileAct fs.State (Unit {0})
  must_be_new home_path force s =
      if file_exists fs home_path s && not force then (err home_exists, s) else (ok tt, s)

  -- The directories, and the file with the default configuration.
  unfoldable pub make_home : Libraries → Bytes → Bool → FileAct fs.State (Unit {0})
  make_home l home_path force = do
    must_be_new home_path force
    make_directory fs home_path
    make_directory fs (log_dir l home_path)
    make_directory fs (data_dir l home_path)
    default_config ← lifted (default_config_with_home l home_path)
    fs.write_ini default_config (config_file l home_path)

  unfoldable pub init_home : Environment → Libraries → Bytes → Bool → FileAct fs.State (Unit {0})
  init_home env l home_flag force = do
    abs_path ← lifted (env.abs home_flag)
    make_home l (clean_and_expand_path env abs_path) force
