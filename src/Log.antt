-- ===== src/Log.antt =====
-- log/log.go: which formats and levels a logger is made for. The encoders and the writers are left
-- out, but for the directory and the file of the log.
use staking_indexer.Prelude.{Bytes, bytes_eq, ◌||◌, [], ◌∷◌, if◌then◌else◌}
use staking_indexer.Prelude.Result.{
  Result, ok, err, panic, unrecognized_log_format, unsupported_log_level,
}
use staking_indexer.Files.{Files, Environment, FileAct, make_directory, lifted, ◌>>◌}

pub data Encoder : Type 0 where
  json : Encoder
  console : Encoder
  logfmt : Encoder

pub data Level : Type 0 where
  panic_level : Level
  fatal_level : Level
  error_level : Level
  warn_level : Level
  info_level : Level
  debug_level : Level

abbrev pub console_format : Bytes
console_format = b'c' ∷ b'o' ∷ b'n' ∷ b's' ∷ b'o' ∷ b'l' ∷ b'e' ∷ []

-- "json", "auto", "console", "logfmt"
unfoldable pub encoder_of : Bytes → Result Encoder
encoder_of format =
    if bytes_eq format (b'j' ∷ b's' ∷ b'o' ∷ b'n' ∷ [])
    then ok json
    else if bytes_eq format (b'a' ∷ b'u' ∷ b't' ∷ b'o' ∷ []) || bytes_eq format console_format
    then ok console
    else if bytes_eq format (b'l' ∷ b'o' ∷ b'g' ∷ b'f' ∷ b'm' ∷ b't' ∷ [])
    then ok logfmt
    else err unrecognized_log_format

abbrev pub info_name : Bytes
info_name = b'i' ∷ b'n' ∷ b'f' ∷ b'o' ∷ []

-- "panic", "fatal", "error", "warn" or "warning", "info", "debug"
unfoldable pub level_of : Bytes → Result Level
level_of level =
    if bytes_eq level (b'p' ∷ b'a' ∷ b'n' ∷ b'i' ∷ b'c' ∷ [])
    then ok panic_level
    else if bytes_eq level (b'f' ∷ b'a' ∷ b't' ∷ b'a' ∷ b'l' ∷ [])
    then ok fatal_level
    else if bytes_eq level (b'e' ∷ b'r' ∷ b'r' ∷ b'o' ∷ b'r' ∷ [])
    then ok error_level
    else if bytes_eq level (b'w' ∷ b'a' ∷ b'r' ∷ b'n' ∷ [])
        || bytes_eq level (b'w' ∷ b'a' ∷ b'r' ∷ b'n' ∷ b'i' ∷ b'n' ∷ b'g' ∷ [])
    then ok warn_level
    else if bytes_eq level info_name
    then ok info_level
    else if bytes_eq level (b'd' ∷ b'e' ∷ b'b' ∷ b'u' ∷ b'g' ∷ [])
    then ok debug_level
    else err unsupported_log_level

pub record Logger : Type 0 where
  pub encoder : Encoder
  pub level : Level

module _ (env : Environment) where
  unfoldable pub new_root_logger : Bytes → Bytes → Result Logger
  new_root_logger format level = elim (encoder_of format) [
    | ok enc ↦ elim (level_of (env.to_lower level)) [
      | ok lvl ↦ ok (record { encoder = enc; level = lvl })
      | err e ↦ err e
      | panic ↦ panic
    ]
    | err e ↦ err e
    | panic ↦ panic
  ]

  unfoldable pub new_root_logger_with_file : (fs : Files) → Bytes → Bytes → FileAct fs.State Logger
  new_root_logger_with_file fs log_file level = do
    make_directory fs (env.dir log_file)
    fs.open_append (env.clean log_file)
    lifted (new_root_logger console_format level)
