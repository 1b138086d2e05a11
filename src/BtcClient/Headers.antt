-- ===== src/BtcClient/Headers.antt =====
-- `BtcHeaderInfoList` of cmd/sid/cli/btc_headers.go.
use staking_indexer.Prelude.{
  ℕ, zero, suc, ◌+◌, ◌-◌, ◌<◌, Bool, Bytes, some, List, [], ◌∷◌, get_elem?, length, if◌then◌else◌,
  ◌≡◌,
}
use staking_indexer.Prelude.Result.{Result, ok, ◌>>=◌}
use staking_indexer.Wire.{BlockHeader}

-- `BTCHeaderInfo`, of which two fields are filled.
pub record BtcHeaderInfo : Type 0 where
  pub header : Bytes
  pub height : ℕ

-- The client's method, and `NewBTCHeaderBytesFromBlockHeader` of a library.
pub record HeaderSource : Type 0 where
  pub get_block_header_by_height : ℕ → Result BlockHeader
  pub header_bytes : BlockHeader → Bytes

module _ (src : HeaderSource) (with_height : Bool) where
  abbrev pub header_info : ℕ → BlockHeader → BtcHeaderInfo
  header_info blk_height h = record {
    header = src.header_bytes h;
    height = if with_height then blk_height else 0;
  }

  -- The loop over `n` heights from `blk_height` on.
  unfoldable pub header_loop : ℕ → ℕ → Result (List BtcHeaderInfo)
  header_loop zero blk_height = ok []
  header_loop (suc n) blk_height = do
    h ← src.get_block_header_by_height blk_height
    rest ← header_loop n (blk_height + 1)
    ok (header_info blk_height h ∷ rest)

  -- The capacity that the code reserves for the slice is left out: it is the number of heights, and
  -- would overflow for a range that the command refuses, one that ends below its start. The loop would
  -- not end for a range up to 2 ^ 64 - 1, where its counter wraps.
  unfoldable pub btc_header_info_list : ℕ → ℕ → Result (List BtcHeaderInfo)
  unfolding header_loop
  btc_header_info_list from_blk to_blk = header_loop (to_blk + 1 - from_blk) from_blk

  -- One item for each of `n` heights from `blk_height` on, in order: the header that the client has.
  abbrev pub IsInfos : ℕ → ℕ → List BtcHeaderInfo → Type 0
  IsInfos n blk_height infos =
      (length infos ≡ n)
      × ((i : ℕ)
          → i < n
          → (h : BlockHeader) × (src.get_block_header_by_height (blk_height + i) ≡ ok h)
            × (get_elem? infos i ≡ some (header_info (blk_height + i) h)))
