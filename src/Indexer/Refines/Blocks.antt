-- ===== src/Indexer/Refines/Blocks.antt =====
-- `HandleConfirmedBlock` as steps of the ledger.
use staking_indexer.Prelude.{ℕ, ℤ, to_u64, List, ◌≡◌, refl, In}
use staking_indexer.Prelude.Result.{ok}
use staking_indexer.Wire.{MsgTx}
use staking_indexer.Wire.Blocks.{Tx, IndexedBlock}
use staking_indexer.Store.Record.{StoredStakingTransaction}
use staking_indexer.Indexer.Types.{StakingIndexer, World, Params}
use staking_indexer.Indexer.Exec.{reads, writes, ◌>>=◌}
use staking_indexer.Indexer.Exec.Steps.{Steps}
use staking_indexer.Indexer.StartHeight.{get_versioned_params}
use staking_indexer.Indexer.Staking.{try_parse_staking_tx}
use staking_indexer.Indexer.Ledger.{Reach, Known}
use staking_indexer.Indexer.Ledger.Laws.{IndexerLaws}
use staking_indexer.Indexer.Ledger.Records.{IsKeyed}
use staking_indexer.Indexer.Spent.{get_spent_staking_txs, get_spent_unbonding_txs}
use staking_indexer.Indexer.Spent.Exact.{get_spent_staking_txs_iff}
use staking_indexer.Indexer.Block.{
  for_each, try_staking, handle_spending_staking_transaction, handle_spending_unbonding_transaction,
  handle_tx, emit_confirmed_info, handle_confirmed_block, handle_confirmed_blocks,
}
use staking_indexer.Indexer.Block.Steps as BlockSteps
use staking_indexer.Indexer.Refines.Writes.{Reach-IsPreorder, Reach-Pushes, save_height-Steps}
use staking_indexer.Indexer.Refines.Process.{process_staking-Steps, process_unbonding-Steps}
use staking_indexer.Indexer.Refines.Handlers.{IsKeyed-Stable, Known-Stable, found-some}

module _ {si : StakingIndexer} (laws : IndexerLaws si) where
  -- Every staking transaction that the loop over the inputs finds is known.
  pub spent_staking-Known :
      (tx : MsgTx) (w : World si) (s : StoredStakingTransaction × ℕ)
      → IsKeyed si w
      → In s (get_spent_staking_txs si tx w.db)
      → Known si s.0 w
  spent_staking-Known tx w (st, j) k h =
      let (t, e, l, q) = (get_spent_staking_txs_iff si tx w.db st j).0 h in
      let g = found-some _ st l in rw (← k.keyed _ st g) at g

  module _ (tx : MsgTx) (height : ℕ) (timestamp : ℤ) where
    pub handle_spending_staking-Steps :
        (st : StoredStakingTransaction) (i : ℕ)
        → Steps
            (Reach si)
            (Known si st)
            (handle_spending_staking_transaction si tx st i height timestamp)
    handle_spending_staking-Steps st i =
        BlockSteps.handle_spending_staking-Steps Reach-IsPreorder Reach-Pushes (Known si st) tx st i
          height timestamp (λ old v p. process_unbonding-Steps laws tx st height timestamp old v p)

    module _ (params : Params) (v : get_versioned_params si height ≡ ok params) where
      pub try_staking-Steps :
          Steps
            (Reach si)
            (IsKeyed si)
            (try_staking si (try_parse_staking_tx si tx params) tx height timestamp params)
      try_staking-Steps =
          BlockSteps.try_staking-Steps Reach-IsPreorder Reach-Pushes (IsKeyed si)
            (IsKeyed-Stable laws) (λ s w. Known si s.0 w) (λ s. Known-Stable laws s.0) tx height
            timestamp params (spent_staking-Known tx)
            (λ d p. process_staking-Steps laws tx d height timestamp params v p _)
            (λ s old v' p. process_unbonding-Steps laws tx s.0 height timestamp old v' p) _ refl

      pub handle_tx-Steps : Steps (Reach si) (IsKeyed si) (handle_tx si tx height timestamp params)
      handle_tx-Steps =
          BlockSteps.handle_tx-Steps Reach-IsPreorder Reach-Pushes (IsKeyed si)
            (IsKeyed-Stable laws) (λ s w. Known si s.0 w) (λ s. Known-Stable laws s.0) tx height
            timestamp params (spent_staking-Known tx)
            (λ d p. process_staking-Steps laws tx d height timestamp params v p _)
            (λ s old v' p. process_unbonding-Steps laws tx s.0 height timestamp old v' p)

  pub spent_unbonding-Steps :
      (tx : MsgTx)
      → Steps (Reach si) (IsKeyed si) (
          reads (λ db. ok (get_spent_unbonding_txs si tx db)) >>= λ us.
          for_each si us (λ u. handle_spending_unbonding_transaction si tx u.0 u.1))
  spent_unbonding-Steps tx =
      BlockSteps.spent_unbonding-Steps Reach-IsPreorder Reach-Pushes (IsKeyed si)
        (IsKeyed-Stable laws) tx

  pub txs-Steps :
      (ts : List Tx) (height : ℕ) (timestamp : ℤ) (params : Params)
      → get_versioned_params si height ≡ ok params
      → Steps
          (Reach si)
          (IsKeyed si)
          (for_each si ts (λ t. handle_tx si t.msg_tx height timestamp params))
  txs-Steps ts height timestamp params v =
      BlockSteps.for_all-Steps Reach-IsPreorder (IsKeyed si) (IsKeyed-Stable laws) ts _
        λ t i. handle_tx-Steps t.msg_tx height timestamp params v

  pub finish-Steps :
      (height : ℕ)
      → Steps (Reach si) (IsKeyed si) (
          writes (si.store.save_last_processed_height height) >>= λ _.
          emit_confirmed_info si height)
  finish-Steps height =
      BlockSteps.finish-Steps Reach-IsPreorder Reach-Pushes (IsKeyed si) (IsKeyed-Stable laws)
        (save_height-Steps laws _) height

  -- What the handling of a block does, whether it succeeds, fails or panics, is a run of the ledger.
  pub handle_confirmed_block-Steps :
      (b : IndexedBlock) → Steps (Reach si) (IsKeyed si) (handle_confirmed_block si b)
  handle_confirmed_block-Steps b =
      BlockSteps.handle_confirmed_block-Steps Reach-IsPreorder Reach-Pushes (IsKeyed si)
        (IsKeyed-Stable laws) (save_height-Steps laws _) b
        λ params t v i. handle_tx-Steps t.msg_tx (to_u64 b.height) b.header.timestamp params v

  pub handle_confirmed_blocks-Steps :
      (bs : List IndexedBlock) → Steps (Reach si) (IsKeyed si) (handle_confirmed_blocks si bs)
  handle_confirmed_blocks-Steps bs =
      BlockSteps.handle_confirmed_blocks-Steps Reach-IsPreorder Reach-Pushes (IsKeyed si)
        (IsKeyed-Stable laws) (save_height-Steps laws _) bs (λ b i. handle_confirmed_block-Steps b)
