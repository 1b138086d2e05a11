-- ===== src/Command/Headers.antt =====
-- `btcHeaders` of cmd/sid/cli/btc_headers.go: the headers of a range of heights, written to a file.
use staking_indexer.Prelude.{ℕ, ◌+◌, ◌-◌, ◌≤◌, not, Bool, Bytes, List, [], ◌∷◌, ltb, ◌≡◌}
use staking_indexer.Prelude.Result.{Result, ok, err, guard, not_enough_params, from_above_to}
use staking_indexer.Wire.{BlockHeader}
use staking_indexer.BtcClient.{BtcClient, get_block_header_by_height}
use staking_indexer.BtcClient.Headers.{HeaderSource, BtcHeaderInfo, IsInfos, btc_header_info_list}
use staking_indexer.Config.{Config}
use staking_indexer.Config.Load.{load_config}
use staking_indexer.Config.Paths.{log_file}
use staking_indexer.Files.{FileAct, lifted, ◌>>=◌, ◌>>◌, clean_and_expand_path}
use staking_indexer.Log.{new_root_logger_with_file}
use staking_indexer.Command.Host.{Host}
use staking_indexer.Command.Assemble.{new_btc_client}

-- `strconv.ParseUint` for 64 bits, `NewBTCHeaderBytesFromBlockHeader` and `json.MarshalIndent`.
pub record Encoders : Type 0 where
  pub parse_uint : Bytes → Result ℕ
  pub header_bytes : BlockHeader → Bytes
  pub marshal : List BtcHeaderInfo → Result Bytes

pub record HeadersFlags : Type 0 where
  pub home : Bytes
  pub output : Bytes
  pub with_height : Bool

abbrev two_args : List Bytes → Result (Bytes × Bytes)
two_args (from_str ∷ to_str ∷ []) = ok (from_str, to_str)
two_args _ = err not_enough_params

module _ (h : Host) (c : Encoders) (flags : HeadersFlags) where
  -- The headers that a client gives.
  abbrev pub header_source : BtcClient → HeaderSource
  header_source btc_client = record {
    get_block_header_by_height = get_block_header_by_height btc_client;
    header_bytes = c.header_bytes;
  }

  unfoldable pub btc_headers : List Bytes → FileAct h.fs.State (Unit {0})
  btc_headers args = do
    strs ← lifted (two_args args)
    from_block ← lifted (c.parse_uint strs.0)
    to_block ← lifted (c.parse_uint strs.1)
    lifted (guard (not (ltb to_block from_block)) from_above_to)
    abs_path ← lifted (h.env.abs flags.home)
    let home_path = clean_and_expand_path h.env abs_path
    cfg ← (λ s. (load_config h.fs h.libraries home_path s, s))
    new_root_logger_with_file h.env h.fs (log_file h.libraries home_path) cfg.log_level
    btc_client ← lifted (new_btc_client h cfg.btc_config)
    infos ←
        lifted
          (btc_header_info_list (header_source btc_client) flags.with_height from_block to_block)
    bz ← lifted (c.marshal infos)
    h.fs.write_file flags.output bz

  -- The arguments are two heights, the first not above the second, and the last that happened to the
  -- files is that the headers from the one to the other were written, as the client of the
  -- configuration gives them.
  pub record AreWritten (args : List Bytes) (s t : h.fs.State) : Type 1 where
    pub from_block : ℕ
    pub to_block : ℕ
    pub strs : Bytes × Bytes
    pub args_are : args ≡ strs.0 ∷ strs.1 ∷ []
    pub from : c.parse_uint strs.0 ≡ ok from_block
    pub to : c.parse_uint strs.1 ≡ ok to_block
    pub range : from_block ≤ to_block
    pub abs_path : Bytes
    pub is_home : h.env.abs flags.home ≡ ok abs_path
    pub cfg : Config
    pub loaded : load_config h.fs h.libraries (clean_and_expand_path h.env abs_path) s ≡ ok cfg
    pub btc_client : BtcClient
    pub connected : new_btc_client h cfg.btc_config ≡ ok btc_client
    pub infos : List BtcHeaderInfo
    pub each :
        IsInfos
          (header_source btc_client)
          flags.with_height
          (to_block + 1 - from_block)
          from_block
          infos
    pub bz : Bytes
    pub json : c.marshal infos ≡ ok bz
    pub before : h.fs.State
    pub written : h.fs.write_file flags.output bz before ≡ (ok tt, t)
