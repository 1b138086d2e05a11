-- ===== src/Config/Paths.antt =====
-- The paths of config/config.go, below the home directory.
use staking_indexer.Prelude.{Bytes, [], ◌∷◌}
use staking_indexer.Config.{Libraries}

-- The bytes of "logs", "sid.log", "sid.conf", "global-params.json" and "data".
abbrev default_log_dirname : Bytes
default_log_dirname = b'l' ∷ b'o' ∷ b'g' ∷ b's' ∷ []

abbrev default_log_filename : Bytes
default_log_filename = b's' ∷ b'i' ∷ b'd' ∷ b'.' ∷ b'l' ∷ b'o' ∷ b'g' ∷ []

abbrev default_config_file_name : Bytes
default_config_file_name = b's' ∷ b'i' ∷ b'd' ∷ b'.' ∷ b'c' ∷ b'o' ∷ b'n' ∷ b'f' ∷ []

abbrev default_params_file_name : Bytes
default_params_file_name =
    b'g' ∷ b'l' ∷ b'o' ∷ b'b' ∷ b'a' ∷ b'l' ∷ b'-' ∷ b'p' ∷ b'a' ∷ b'r' ∷ b'a' ∷ b'm' ∷ b's' ∷ b'.'
    ∷ b'j' ∷ b's' ∷ b'o' ∷ b'n' ∷ []

abbrev default_data_dirname : Bytes
default_data_dirname = b'd' ∷ b'a' ∷ b't' ∷ b'a' ∷ []

module _ (l : Libraries) where
  abbrev pub config_file : Bytes → Bytes
  config_file home_path = l.join home_path default_config_file_name

  abbrev pub params_file : Bytes → Bytes
  params_file home_path = l.join home_path default_params_file_name

  abbrev pub log_dir : Bytes → Bytes
  log_dir home_path = l.join home_path default_log_dirname

  abbrev pub log_file : Bytes → Bytes
  log_file home_path = l.join (log_dir home_path) default_log_filename

  abbrev pub data_dir : Bytes → Bytes
  data_dir home_path = l.join home_path default_data_dirname
