-- ===== src/Indexer/Unconfirmed.antt =====
-- `processUnconfirmedInfo` and one round of `blocksEventLoop` of indexer/indexer.go.
pub mod Info
use staking_indexer.Prelude.{ℕ, ℤ, pos, ◌+ℤ◌, ltb_ℤ, to_u64, to_i64, wrap_i64, not, List, [], ◌∷◌}
use staking_indexer.Prelude.Result.{Result, ok, err, panic, guard, total_tvl_negative}
use staking_indexer.Wire.Blocks.{IndexedBlock}
use staking_indexer.Indexer.Types.{StakingIndexer, btc_info}
use staking_indexer.Indexer.Exec.{Exec, pure, lift, reads, ◌>>=◌, ◌>>◌, push_event}
use staking_indexer.Indexer.Block.{handle_confirmed_blocks}
use staking_indexer.Indexer.Tally.{calculate_tvl_in_unconfirmed_blocks}
use staking_indexer.Scanner.Poller.{ChainUpdateInfo}

-- `unconfirmedBlocks[len(unconfirmedBlocks)-1]`, of a slice that is not empty.
abbrev pub tip_of : IndexedBlock → List IndexedBlock → IndexedBlock
tip_of b [] = b
tip_of b (b' ∷ bs) = tip_of b' bs

abbrev pub or_logged : Result (Unit {0}) → Result (Unit {0})
or_logged (ok u) = ok tt
or_logged (err e) = ok tt
or_logged panic = panic

module _ (si : StakingIndexer) where
  unfoldable pub process_unconfirmed_info : List IndexedBlock → Exec si (Unit {0})
  process_unconfirmed_info [] = pure tt
  process_unconfirmed_info (b ∷ bs) = do
    tvl_in_unconfirmed_blocks ← reads (calculate_tvl_in_unconfirmed_blocks si (b ∷ bs))
    confirmed_tvl ← reads si.store.get_confirmed_tvl
    let unconfirmed_tvl = wrap_i64 (to_i64 confirmed_tvl +ℤ tvl_in_unconfirmed_blocks)
    lift (guard (not (ltb_ℤ unconfirmed_tvl (pos 0))) total_tvl_negative)
    push_event (btc_info (to_u64 (tip_of b bs).height) confirmed_tvl (to_u64 unconfirmed_tvl))

  -- An error is logged and counted only.
  abbrev pub log_error : Exec si (Unit {0}) → Exec si (Unit {0})
  log_error m w = let (r, w') = m w in (or_logged r, w')

  -- An error of a confirmed block is fatal: the process ends, as it does at a panic.
  unfoldable pub handle_update : ChainUpdateInfo → Exec si (Unit {0})
  unfolding process_unconfirmed_info
  handle_update update = do
    handle_confirmed_blocks si update.confirmed_blocks
    log_error (process_unconfirmed_info update.unconfirmed_blocks)

  unfoldable pub handle_updates : List ChainUpdateInfo → Exec si (Unit {0})
  unfolding handle_update
  handle_updates [] = pure tt
  handle_updates (u ∷ us) = handle_update u >>= λ _. handle_updates us
